-- ===== src/Servers/Changes.antt =====
-- core/lifecycle/server_manager.py: what the phases are after a change.
use grafux_mcp.Base.{
  Bool, Bool-cases, Option, String, ap, arith, eq_of_==, erase, false, has, has-erase_key,
  has-insert, if◌then◌else◌, inl, inr, insert, refl, some, sym, true, ◌==◌, ◌∙◌, ◌≡◌, ◌≢◌, ◌⊎◌,
  nat_eq, string_eq, pair_eq,
}
use grafux_mcp.Exceptions.{Result, ok, thrown}
use grafux_mcp.Router.{ServerType, composio, device, e2b, local_plugin, remote_http, remote_sse}
use grafux_mcp.Client.{Wrapper}
use grafux_mcp.Servers.{ConnectReply, Env, Fleet, Server, ServerStatus, active, replying}
use grafux_mcp.Servers.Manager.{Recorded, Sets}
use grafux_mcp.Servers.Phases.{Phase, phase}

pub phase_path :
    {a c : Option ServerStatus} {b d : Bool} → a ≡ c → b ≡ d → ◌≡◌ {A = Phase} (a, b) (c, d)
phase_path {a} {c} {b} {d} p q = ap {B = Phase} (λ x. (x, b)) p ∙ ap {B = Phase} (λ y. (c, y)) q

-- The phases after a change of one server's status and client.
module _ (id : String) (status : ServerStatus) (w w' : Fleet) (sets : Sets id status w w') where
  abbrev pub Becomes : Bool → Type 0
  Becomes b =
      (other : String) → phase other w' ≡ (if id == other then (some status, b) else phase other w)

  pub phases_kept :
      has id w.active_connections ≡ false
      → w'.active_connections ≡ w.active_connections
      → Becomes false
  phases_kept new clients other = elim (Bool-cases (id == other)) [
    | inl q ↦ rw q (
        phase_path (sets other ∙ rw q) (
          ap (has other) clients
          ∙ ap (λ j. has j w.active_connections) (sym (eq_of_== id other q))
          ∙ new))
    | inr q ↦ rw q (phase_path (sets other ∙ rw q) (ap (has other) clients))
  ]

  pub phases_opened :
      (client : Wrapper)
      → w'.active_connections ≡ insert id client w.active_connections
      → Becomes true
  phases_opened client clients other =
      let opened = ap (has other) clients ∙ has-insert id other client w.active_connections in
      elim (Bool-cases (id == other)) [
        | inl q ↦ rw q (phase_path (sets other ∙ rw q) (opened ∙ ground (arith, q)))
        | inr q ↦ rw q (phase_path (sets other ∙ rw q) (opened ∙ ground (arith, q)))
      ]

  pub phases_closed : w'.active_connections ≡ erase id w.active_connections → Becomes false
  phases_closed clients other =
      let closed = ap (has other) clients ∙ has-erase_key id other w.active_connections in
      elim (Bool-cases (id == other)) [
        | inl q ↦ rw q (phase_path (sets other ∙ rw q) (closed ∙ ground (arith, q)))
        | inr q ↦ rw q (phase_path (sets other ∙ rw q) (closed ∙ ground (arith, q)))
      ]

pub plugin-cases : (t : ServerType) → (t ≡ local_plugin) ⊎ (t ≢ local_plugin)
plugin-cases local_plugin = inl refl
plugin-cases remote_sse = inr (λ q. cc)
plugin-cases remote_http = inr (λ q. cc)
plugin-cases composio = inr (λ q. cc)
plugin-cases e2b = inr (λ q. cc)
plugin-cases device = inr (λ q. cc)

pub replying_world :
    (reply : ConnectReply) (r : Result (Unit {0}) × Fleet) → (replying reply r).1 ≡ r.1
replying_world reply (ok u, w) = refl
replying_world reply (thrown e, w) = refl

pub Recorded-Sets :
    (env : Env) (s : Server) (w : Fleet) (r : Result (Unit {0}) × Fleet)
    → r.0 ≡ ok tt
    → Recorded env s w r
    → Sets s.id active w r.1
Recorded-Sets env s w (ok u, w') h k = k
Recorded-Sets env s w (thrown e, w') h k = cc

pub stays {ℓ} :
    {A : Type ℓ} (b c : Bool) (x y : A)
    → (b ≡ true → c ≡ true)
    → x ≡ (if b then (if c then x else y) else x)
stays false c x y h = refl
stays true c x y h = rw (h refl)

pub moves {ℓ} :
    {A : Type ℓ} (b c : Bool) (x y z : A)
    → (b ≡ true → c ≡ false)
    → (if b then y else z) ≡ (if b then (if c then x else y) else z)
moves false c x y z h = refl
moves true c x y z h = rw (h refl)
