-- ===== src/Sandbox/Reuse.antt =====
-- integrations/e2b/sandbox.py: a persistent sandbox is used again.
use grafux_mcp.Base.{
  ==_refl, All, Bool-cases, List, String, [], arith, false, inl, inr, ltb, lt→ltb, none, refl, some,
  subst, sym, true, truthy_text, ℕ, ◌++◌, ◌+◌, ◌<◌, ◌∷◌, ◌≡◌, nat_eq, string_eq, pair_eq,
}
use grafux_mcp.Exceptions.{ok}
use grafux_mcp.Sandbox.{
  Acquired, SandboxSession, Sandboxes, Service, get_active_session, get_or_create_sandbox,
  is_active, keep_session, new_session, reuse_session,
}

module _ (later : ℕ) (org : String) (fresh : SandboxSession)
    (active : is_active later org fresh ≡ true) where
  newest :
      (ss : List SandboxSession)
      → All (λ s. ltb s.created_at fresh.created_at ≡ true) ss
      → get_active_session later org (ss ++ fresh ∷ []) ≡ some fresh
  unfolding get_active_session
  newest [] h = rw active refl
  newest (s ∷ ss) h = elim (Bool-cases (is_active later org s)) [
    | inl q ↦ rw q (rw (newest ss h.1) (rw h.0 refl))
    | inr q ↦ rw q (newest ss h.1)
  ]

-- A sandbox that is created for an organisation has its row.
created :
    (v : Service) (org id : String) (w : Sandboxes)
    → truthy_text v.api_key ≡ true
    → get_active_session v.now org w.sessions ≡ none
    → v.create ≡ ok id
    → v.commit ≡ ok tt
    → get_or_create_sandbox v org true w
      ≡ (ok (id, true), record w { sessions = w.sessions ++ new_session v org id ∷ [] })
unfolding get_or_create_sandbox reuse_session
created v org id w key unused new kept =
    rw (key) (rw (unused, reuse_session) (rw (new, keep_session) (rw (kept, keep_session) refl)))

reused :
    (v : Service) (org id : String) (s : SandboxSession) (w : Sandboxes)
    → truthy_text v.api_key ≡ true
    → get_active_session v.now org w.sessions ≡ some s
    → v.reconnect s.sandbox_id ≡ ok id
    → get_or_create_sandbox v org true w ≡ (ok (id, false), w)
unfolding get_or_create_sandbox reuse_session
reused v org id s w key found again =
    rw key (rw (found, reuse_session) (rw (again, reuse_session) refl))

-- A persistent sandbox that has been created for an organisation is the one that the next call for it
-- reconnects to, for three hundred seconds, and that call creates nothing. (The sessions of the table
-- are older, and the service and the database answer.)
pub get_or_create_sandbox-reused :
    (v later : Service) (org id again : String) (w : Sandboxes)
    → truthy_text v.api_key ≡ true
    → truthy_text later.api_key ≡ true
    → get_active_session v.now org w.sessions ≡ none
    → v.create ≡ ok id
    → v.commit ≡ ok tt
    → All (λ s. ltb s.created_at v.now ≡ true) w.sessions
    → later.now < v.now + 300
    → later.reconnect id ≡ ok again
    → get_or_create_sandbox later org true (get_or_create_sandbox v org true w).1
      ≡ (ok (again, false), (get_or_create_sandbox v org true w).1)
unfolding is_active
get_or_create_sandbox-reused v later org id again w key later_key unused new kept older in_time
      back =
    let w' : Sandboxes = record w { sessions = w.sessions ++ new_session v org id ∷ [] } in
    let active : is_active later.now org (new_session v org id) ≡ true =
      ground (arith, ==_refl org, lt→ltb later.now (v.now + 300) in_time) in
    subst
      (λ (r : Acquired × Sandboxes).
        get_or_create_sandbox later org true r.1 ≡ (ok (again, false), r.1))
      (sym (created v org id w key unused new kept))
      (reused later org again (new_session v org id) w' later_key
        (newest later.now org (new_session v org id) active w.sessions older) back)
