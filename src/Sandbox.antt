-- ===== src/Sandbox.antt =====
-- integrations/e2b: the sandboxes that code is run in. The E2B service is known by what it answers.
pub mod Executor
pub mod Teardown
pub mod Reuse
pub mod Tests
use grafux_mcp.Base.{
  Bool, List, Option, String, [], false, if◌then◌else◌, ltb, none, not, some, true, truthy_text, ℕ,
  ◌&&◌, ◌++◌, ◌+◌, ◌==◌, ◌∷◌, nat_eq, string_eq, pair_eq,
}
use grafux_mcp.Exceptions.{Result, exc, exception, is_instance, ok, runtime, thrown, ◌>>=◌}

-- A row of sandbox_sessions.
pub record SandboxSession : Type 0 where
  pub org_id : String
  pub sandbox_id : String
  pub status : String
  pub expires_at : ℕ
  pub created_at : ℕ

-- The rows, the log events that have been published, and the sandboxes that have been told to close.
pub record Sandboxes : Type 0 where
  pub sessions : List SandboxSession
  pub logs : List (String × String)
  pub closed : List String

-- What the service and the database answer: the id of a new sandbox, the one that is reconnected to,
-- and how a commit ends.
pub record Service : Type 0 where
  pub api_key : String
  pub now : ℕ
  pub create : Result String
  pub reconnect : String → Result String
  pub commit : Result (Unit {0})

abbrev pub default_timeout : ℕ
default_timeout = 300

unfoldable pub is_active : ℕ → String → SandboxSession → Bool
is_active now org_id s = s.org_id == org_id && s.status == "active" && ltb now s.expires_at

-- _get_active_session: the one that was created last
unfoldable pub get_active_session : ℕ → String → List SandboxSession → Option SandboxSession
unfolding is_active
get_active_session now org_id [] = none
get_active_session now org_id (s ∷ ss) =
    let rest = get_active_session now org_id ss in
    if is_active now org_id s
    then (elim rest [
      | none ↦ some s
      | some t ↦ if ltb s.created_at t.created_at then some t else some s
    ])
    else rest

unfoldable pub expire_row : String → List SandboxSession → List SandboxSession
expire_row sandbox_id [] = []
expire_row sandbox_id (s ∷ ss) =
    let rest = expire_row sandbox_id ss in
    if s.sandbox_id == sandbox_id then record s { status = "expired" } ∷ rest else s ∷ rest

abbrev pub new_session : Service → String → String → SandboxSession
new_session v org_id sandbox_id = record {
  org_id = org_id;
  sandbox_id = sandbox_id;
  status = "active";
  expires_at = v.now + default_timeout;
  created_at = v.now;
}

abbrev pub Acquired : Type 0
Acquired = Result (String × Bool)

-- The row of a persistent sandbox is committed before the sandbox is given back.
abbrev pub keep_session : Service → String → Bool → Result String → Sandboxes → Acquired × Sandboxes
keep_session v org_id persistent (thrown e) w = (thrown e, w)
keep_session v org_id false (ok id) w = (ok (id, true), w)
keep_session v org_id true (ok id) w = elim v.commit [
  | thrown e ↦ (thrown e, w)
  | ok _ ↦ (ok (id, true), record w { sessions = w.sessions ++ new_session v org_id id ∷ [] })
]

-- A session that cannot be reconnected to expires, and a new sandbox is created.
unfoldable pub replace_session :
    Service → String → SandboxSession → Sandboxes → Acquired × Sandboxes
unfolding expire_row
replace_session v org_id s w = elim v.commit [
  | thrown e ↦ (thrown e, w)
  | ok _ ↦
      keep_session v org_id true v.create
        (record w { sessions = expire_row s.sandbox_id w.sessions })
]

unfoldable pub reuse_session :
    Service → String → Option SandboxSession → Sandboxes → Acquired × Sandboxes
unfolding replace_session is_instance
reuse_session v org_id none w = keep_session v org_id true v.create w
reuse_session v org_id (some s) w = elim (v.reconnect s.sandbox_id) [
  | ok id ↦ (ok (id, false), w)
  | thrown e ↦ if is_instance e exception then replace_session v org_id s w else (thrown e, w)
]

unfoldable pub get_or_create_sandbox :
    Service → (org_id : String) → (persistent : Bool) → Sandboxes → Acquired × Sandboxes
unfolding truthy_text reuse_session get_active_session
get_or_create_sandbox v org_id persistent w =
    let session = get_active_session v.now org_id w.sessions in
    if not (truthy_text v.api_key)
    then (thrown (exc runtime "E2B_API_KEY not configured"), w)
    else if persistent
    then reuse_session v org_id session w
    else keep_session v org_id false v.create w
