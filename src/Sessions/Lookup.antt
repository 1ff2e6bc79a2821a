-- ===== src/Sessions/Lookup.antt =====
-- services/session_service.py and api/v1/sessions.py: who finds and ends a session.
use grafux_mcp.Base.{
  Option, String, false, insert, erase, lookup, none, refl, some, subst, sym, ==_refl,
  lookup-insert_self, lookup-erase_self, ◌==◌, ◌≡◌, nat_eq, string_eq, pair_eq,
}
use grafux_mcp.Exceptions.{ok}
use grafux_mcp.Cache.{cache_delete, cache_set}
use grafux_mcp.Security.{AuthContext, Checked, passed, refused}
use grafux_mcp.Security.Permissions.{Uuid}
use grafux_mcp.Sessions.{
  Backend, Desk, Session, Wanted, create, create_session, new_session, project_of, get_session,
  end_session, end_row, get, session_json, session_key,
}

-- Where a session is there: who finds it and who ends it.
module _ (uuid : Uuid) (id : String) (s : Session) (w : Desk)
    (there : lookup id w.sessions ≡ some s) where
  get_session_own :
      (a : AuthContext) → uuid a.org_id ≡ ok s.org_id → get_session uuid id a w ≡ passed s
  unfolding get_session get
  get_session_own a own = rw own (rw there (rw (==_refl s.org_id) refl))

  get_session_foreign :
      (a : AuthContext) (org : String)
      → uuid a.org_id ≡ ok org
      → (s.org_id == org) ≡ false
      → get_session uuid id a w ≡ refused 404 "Session not found"
  unfolding get_session get
  get_session_foreign a org named apart = rw named (rw there (rw apart refl))

  end_session_foreign :
      (b : Backend) (a : AuthContext) (org : String)
      → uuid a.org_id ≡ ok org
      → (s.org_id == org) ≡ false
      → end_session uuid b id a w ≡ (refused 404 "Session not found", w)
  unfolding end_session get
  end_session_foreign b a org named apart = rw (named, end_session) (rw there (rw apart refl))

  -- The desk after the session has ended.
  abbrev without : Desk
  without = record { sessions = erase id w.sessions; redis = cache_delete (session_key id) w.redis }

  end_session_own :
      (b : Backend) (a : AuthContext)
      → uuid a.org_id ≡ ok s.org_id
      → b.commit ≡ ok tt
      → end_session uuid b id a w ≡ (passed tt, without)
  unfolding end_session get end_row
  end_session_own b a own kept =
      rw (own, end_session) (rw there (rw (==_refl s.org_id) (rw kept refl)))

get_session_missing :
    (uuid : Uuid) (id org : String) (a : AuthContext) (w : Desk)
    → uuid a.org_id ≡ ok org
    → lookup id w.sessions ≡ none
    → get_session uuid id a w ≡ refused 404 "Session not found"
unfolding get_session get
get_session_missing uuid id org a w named gone = rw named (rw gone refl)

-- What is found while the session is there, and after it has ended.
abbrev pub Lives :
    Uuid → Backend → (session_id : String) → Session → (member other : AuthContext) → Desk → Type 0
Lives uuid later id s member other w =
    let ended = end_session uuid later id member w in
    (get_session uuid id member w ≡ passed s)
    × (get_session uuid id other w ≡ refused 404 "Session not found")
    × (end_session uuid later id other w ≡ (refused 404 "Session not found", w))
    × (ended.0 ≡ passed tt)
    × (get_session uuid id member ended.1 ≡ refused 404 "Session not found")

lives :
    (uuid : Uuid) (later : Backend) (id : String) (s : Session) (member other : AuthContext)
    (w : Desk) (foreign : String)
    → lookup id w.sessions ≡ some s
    → uuid member.org_id ≡ ok s.org_id
    → uuid other.org_id ≡ ok foreign
    → (s.org_id == foreign) ≡ false
    → later.commit ≡ ok tt
    → Lives uuid later id s member other w
lives uuid later id s member other w foreign there own named apart kept =
    let done = end_session_own uuid id s w there later member own kept in
    (
      get_session_own uuid id s w there member own,
      get_session_foreign uuid id s w there other foreign named apart,
      end_session_foreign uuid id s w there later other foreign named apart,
      rw done refl,
      rw done (
          get_session_missing uuid id s.org_id member (without uuid id s w there) own
            (lookup-erase_self id w.sessions)),
    )

-- A session that an organisation has created is found by everybody of the organisation, whenever they
-- ask, also after it has expired; all others get a 404 for it, and where they try to end it too, which
-- changes nothing. When the organisation has ended it, nobody finds it. (The commits succeed.)
pub create_session-Lives :
    (uuid : Uuid) (b later : Backend) (auth member other : AuthContext) (wanted : Wanted) (w : Desk)
    (org foreign : String) (project : Option String)
    → uuid auth.org_id ≡ ok org
    → project_of uuid auth wanted.project_id ≡ ok project
    → uuid member.org_id ≡ ok org
    → uuid other.org_id ≡ ok foreign
    → (org == foreign) ≡ false
    → b.commit ≡ ok tt
    → later.commit ≡ ok tt
    → ((create_session uuid b auth wanted w).0
        ≡ passed (b.new_id, new_session b org project (some auth.user_id) wanted))
      × Lives uuid later b.new_id
          (new_session b org project (some auth.user_id) wanted)
          member
          other
          (create_session uuid b auth wanted w).1
unfolding create_session create
create_session-Lives uuid b later auth member other wanted w org foreign project org_ok project_ok
      own named apart kept gone =
    let s = new_session b org project (some auth.user_id) wanted in
    let w' : Desk = record {
      sessions = insert b.new_id s w.sessions;
      redis =
          cache_set b.monotonic (session_key b.new_id) (b.dumps (session_json b.new_id s))
            (some wanted.ttl_seconds) w.redis;
    } in
    let made : create_session uuid b auth wanted w ≡ (passed (b.new_id, s), w') =
      rw (org_ok, create_session) (rw project_ok (rw kept refl)) in
    subst
      (λ (o : Checked (String × Session) × Desk).
        (o.0 ≡ passed (b.new_id, s)) × Lives uuid later b.new_id s member other o.1)
      (sym made)
      (
        refl,
        lives uuid later b.new_id s member other w' foreign
            (lookup-insert_self b.new_id s w.sessions) own named apart gone,
      )
