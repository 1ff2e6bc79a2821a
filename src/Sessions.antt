-- ===== src/Sessions.antt =====
-- services/session_service.py, and the endpoints of api/v1/sessions.py over it. A statement with its
-- commit takes effect or raises and does not.
pub mod Lookup
pub mod Tests
use grafux_mcp.Base.{
  Dict, List, Option, String, [], erase, if◌then◌else◌, insert, lookup, none, some, truthy_text, ℕ,
  ◌+◌, ◌==◌, ◌^^◌, ◌∷◌, nat_eq, string_eq, pair_eq,
}
use grafux_mcp.Exceptions.{Result, ok, thrown}
use grafux_mcp.Json.{Json, dict, null, str}
use grafux_mcp.Cache.{Redis, cache_delete, cache_set}
use grafux_mcp.Security.{AuthContext, Checked, crashed, passed, refused}
use grafux_mcp.Security.Permissions.{Uuid, with_uuid}

-- A row of mcp_sessions beside its id.
pub record Session : Type 0 where
  pub org_id : String
  pub project_id : Option String
  pub user_id : Option String
  pub server_ids : List String
  pub expires_at : ℕ

-- mcp_sessions by id, and the cache.
pub record Desk : Type 0 where
  pub sessions : Dict String Session
  pub redis : Redis

-- The clock, the cache's clock, json.dumps, the id of a new row, and how a commit ends.
pub record Backend : Type 0 where
  pub now : ℕ
  pub monotonic : ℕ
  pub dumps : Json → String
  pub new_id : String
  pub commit : Result (Unit {0})

-- MCPKeys.session
abbrev pub session_key : String → String
session_key session_id = "mcp:session:" ^^ session_id

abbrev text_or_null : Option String → Json
text_or_null none = null
text_or_null (some s) = str s

-- What a request for a session asks for.
pub record Wanted : Type 0 where
  pub project_id : Option String
  pub server_ids : List String
  pub ttl_seconds : ℕ

abbrev pub new_session : Backend → String → Option String → Option String → Wanted → Session
new_session b org_id project_id user_id wanted = record {
  org_id = org_id;
  project_id = project_id;
  user_id = user_id;
  server_ids = wanted.server_ids;
  expires_at = b.now + wanted.ttl_seconds;
}

abbrev pub session_json : String → Session → Json
session_json id s =
    dict
      (("session_id", str id) ∷ ("org_id", str s.org_id) ∷ ("user_id", text_or_null s.user_id) ∷ [])

-- SessionService.create: the row is committed, and then its entry of the cache is written.
unfoldable pub create :
    Backend
    → (org_id : String) → (project_id user_id : Option String) → Wanted
    → Desk
    → Result (String × Session) × Desk
unfolding insert cache_set
create b org_id project_id user_id wanted w =
    let s = new_session b org_id project_id user_id wanted in
    elim b.commit [
      | thrown e ↦ (thrown e, w)
      | ok _ ↦ (
        ok (b.new_id, s),
        record {
          sessions = insert b.new_id s w.sessions;
          redis =
              cache_set b.monotonic (session_key b.new_id) (b.dumps (session_json b.new_id s))
                (some wanted.ttl_seconds) w.redis;
        },
      )
    ]

abbrev pub of_org : (org_id : String) → Option Session → Option Session
of_org org_id none = none
of_org org_id (some s) = if s.org_id == org_id then some s else none

-- SessionService.get
unfoldable pub get : (session_id org_id : String) → Desk → Option Session
unfolding lookup
get session_id org_id w = of_org org_id (lookup session_id w.sessions)

-- SessionService.end
unfoldable pub end_row : Backend → (session_id : String) → Desk → Result (Unit {0}) × Desk
unfolding erase cache_delete
end_row b session_id w = elim b.commit [
  | thrown e ↦ (thrown e, w)
  | ok _ ↦ (
    ok tt,
    record {
      sessions = erase session_id w.sessions;
      redis = cache_delete (session_key session_id) w.redis;
    },
  )
]

abbrev pub checked_of {ℓ} : {A : Type ℓ} → Result A → Checked A
checked_of (thrown e) = crashed e
checked_of (ok a) = passed a

-- The organisation's own session is found, or the answer is 404.
abbrev pub session_or_404 : Option Session → Checked Session
session_or_404 none = refused 404 "Session not found"
session_or_404 (some s) = passed s

-- body.project_id, or the one of the context
abbrev pub project_of : Uuid → AuthContext → Option String → Result (Option String)
project_of uuid auth (some project) = ok (some project)
project_of uuid auth none = elim auth.project_id [
  | none ↦ ok none
  | some text ↦
      if truthy_text text
      then (elim (uuid text) [ ok id ↦ ok (some id) | thrown e ↦ thrown e ])
      else ok none
]

-- create_session
unfoldable pub create_session :
    Uuid → Backend → AuthContext → Wanted → Desk → Checked (String × Session) × Desk
unfolding create truthy_text
create_session uuid b auth wanted w = elim (uuid auth.org_id) [
  | thrown e ↦ (crashed e, w)
  | ok org ↦ elim (project_of uuid auth wanted.project_id) [
    | thrown e ↦ (crashed e, w)
    | ok project ↦
        let o = create b org project (some auth.user_id) wanted w in (checked_of o.0, o.1)
  ]
]

unfoldable pub get_session : Uuid → (session_id : String) → AuthContext → Desk → Checked Session
unfolding get
get_session uuid session_id auth w =
    with_uuid (uuid auth.org_id) (λ org. session_or_404 (get session_id org w))

abbrev pub end_found : Backend → String → Option Session → Desk → Checked (Unit {0}) × Desk
end_found b session_id none w = (refused 404 "Session not found", w)
end_found b session_id (some s) w = let o = end_row b session_id w in (checked_of o.0, o.1)

unfoldable pub end_session :
    Uuid → Backend → (session_id : String) → AuthContext → Desk → Checked (Unit {0}) × Desk
unfolding get end_row
end_session uuid b session_id auth w = elim (uuid auth.org_id) [
  | thrown e ↦ (crashed e, w)
  | ok org ↦ end_found b session_id (get session_id org w) w
]
