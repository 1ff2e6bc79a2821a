-- ===== src/Sessions/Tests.antt =====
-- Tests of the sessions, and their theorem at a concrete session.
use grafux_mcp.Base.{String, [], lookup, none, refl, some, ◌≡◌, ◌∷◌, nat_eq, string_eq, pair_eq}
use grafux_mcp.Exceptions.{exc, exception, ok, thrown}
use grafux_mcp.Json.{str}
use grafux_mcp.Cache.{empty_redis}
use grafux_mcp.Security.{AuthContext, crashed, passed, refused}
use grafux_mcp.Sessions.{
  Backend, Desk, Session, Wanted, create, create_session, end_session, get_session, new_session,
}
use grafux_mcp.Sessions.Lookup.{Lives, create_session-Lives}

abbrev user_of : String → AuthContext
user_of org = record {
  user_id = "u";
  org_id = org;
  project_id = none;
  role = str "member";
  raw = [];
}

abbrev backend : Backend
backend = record { now = 1000; monotonic = 5; dumps = λ v. "session"; new_id = "i"; commit = ok tt }

abbrev wanted : Wanted
wanted = record { project_id = none; server_ids = "s1" ∷ []; ttl_seconds = 60 }

abbrev no_sessions : Desk
no_sessions = record { sessions = []; redis = empty_redis }

no_commit :
    create_session ok
      (record backend { commit = thrown (exc exception "down") })
      (user_of "o")
      wanted
      no_sessions
    ≡ (crashed (exc exception "down"), no_sessions)
unfolding create_session create
no_commit = refl

unknown_session : get_session ok "j" (user_of "o") no_sessions ≡ refused 404 "Session not found"
unfolding get_session grafux_mcp.Sessions.get lookup
unknown_session = refl

create_session-Lives_example :
    ((create_session ok backend (user_of "o") wanted no_sessions).0
      ≡ passed ("i", new_session backend "o" none (some "u") wanted))
    × Lives ok backend "i"
        (new_session backend "o" none (some "u") wanted)
        (user_of "o")
        (user_of "x")
        (create_session ok backend (user_of "o") wanted no_sessions).1
create_session-Lives_example =
    create_session-Lives ok backend backend (user_of "o") (user_of "o") (user_of "x") wanted
      no_sessions "o" "x" none refl refl refl refl refl refl refl
