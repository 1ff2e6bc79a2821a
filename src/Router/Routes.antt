-- ===== src/Router/Routes.antt =====
-- What the router refuses, and the clients that it builds.
use grafux_mcp.Base.{
  Bool, Bool-cases, List, Option-cases, String, [], ap, arith, false, if_elim, inl, inr, none, refl,
  some, true, ℕ, ◌+◌, ◌∷◌, ◌≡◌, ◌≤◌, ◌⊎◌, nat_eq, string_eq, pair_eq,
}
use grafux_mcp.Json.{Json, given}
use grafux_mcp.Exceptions.{Exc, Result, thrown}
use grafux_mcp.Execution.{is_transient}
use grafux_mcp.Router.{
  Backends, RouteCtx, ServerType, State, composio, count_new, device, e2b, handler_of, local_plugin,
  remote_http, remote_sse, route, run_device, run_e2b, run_handler, run_remote,
}

-- A call that no backend can take: its server type is unknown, or it is remote without an address.
pub data IsUnroutable (server_type : String) (ctx : RouteCtx) : Type 0 where
  unknown_type : handler_of server_type ≡ none → IsUnroutable server_type ctx
  no_address :
      (t : ServerType)
      → handler_of server_type ≡ some t
      → (t ≡ remote_sse) ⊎ (t ≡ remote_http)
      → given ctx.endpoint_url ≡ false
      → IsUnroutable server_type ctx

-- The call raises an error that is not retried, and changes nothing.
pub record IsRefused (r : Result Json × State) (s : State) : Type 0 where
  pub error : Exc
  pub raised : r ≡ (thrown error, s)
  pub final : is_transient error ≡ false

abbrev one_if : Bool → ℕ
one_if true = 1
one_if false = 0

abbrev IsCounted : State → Type 0
IsCounted s = s.built ≡ one_if s.devices_client + one_if s.e2b_executor

run_remote-IsCounted :
    (b : Backends) (t : ServerType) (ctx : RouteCtx) (s : State)
    → IsCounted s
    → IsCounted (run_remote b t ctx s).1
unfolding run_remote
run_remote-IsCounted b t ctx s c =
    if_elim (λ (r : Result Json × State). IsCounted r.1) (given ctx.endpoint_url) _ _ (λ q. c)
      (λ q. c)

run_e2b-IsCounted :
    (b : Backends) (ctx : RouteCtx) (s : State) → IsCounted s → IsCounted (run_e2b b ctx s).1
unfolding run_e2b
run_e2b-IsCounted b ctx s c = elim (Bool-cases s.e2b_executor) [
  | inl q ↦ omega (arith, c, ap one_if q, ap count_new q)
  | inr q ↦ omega (arith, c, ap one_if q, ap count_new q)
]

run_device-IsCounted :
    (b : Backends) (ctx : RouteCtx) (s : State) → IsCounted s → IsCounted (run_device b ctx s).1
unfolding run_device
run_device-IsCounted b ctx s c = elim (Bool-cases s.devices_client) [
  | inl q ↦ omega (arith, c, ap one_if q, ap count_new q)
  | inr q ↦ omega (arith, c, ap one_if q, ap count_new q)
]

handler-IsCounted :
    (b : Backends) (t : ServerType) (ctx : RouteCtx) (s : State)
    → IsCounted s
    → IsCounted (run_handler b t ctx s).1
handler-IsCounted b local_plugin ctx s c = c
handler-IsCounted b remote_sse ctx s c = run_remote-IsCounted b remote_sse ctx s c
handler-IsCounted b remote_http ctx s c = run_remote-IsCounted b remote_http ctx s c
handler-IsCounted b composio ctx s c = c
handler-IsCounted b e2b ctx s c = run_e2b-IsCounted b ctx s c
handler-IsCounted b device ctx s c = run_device-IsCounted b ctx s c

route-IsCounted :
    (b : Backends) (server_type : String) (ctx : RouteCtx) (s : State)
    → IsCounted s
    → IsCounted (route b server_type ctx s).1
unfolding route
route-IsCounted b server_type ctx s c = elim (Option-cases (handler_of server_type)) [
  | inl q ↦ rw (q, route) c
  | inr (t, q) ↦ rw (q, route) (handler-IsCounted b t ctx s c)
]

-- Calls one after the other.
unfoldable pub route_all : List (Backends × String × RouteCtx) → State → State
route_all [] s = s
route_all ((b, t, ctx) ∷ calls) s = route_all calls (route b t ctx s).1

abbrev pub new_router : State → State
new_router s = record s { devices_client = false; e2b_executor = false; built = 0 }

route_all-IsCounted :
    (calls : List (Backends × String × RouteCtx)) (s : State)
    → IsCounted s
    → IsCounted (route_all calls s)
unfolding route_all
route_all-IsCounted [] s c = c
route_all-IsCounted ((b, t, ctx) ∷ calls) s c =
    route_all-IsCounted calls (route b t ctx s).1 (route-IsCounted b t ctx s c)

-- However many calls a router serves, it builds the devices client and the sandbox executor at most
-- once each.
pub route_all_bound :
    (calls : List (Backends × String × RouteCtx)) (s : State)
    → (route_all calls (new_router s)).built ≤ 2
route_all_bound calls s =
    let r = route_all calls (new_router s) in
    let c : IsCounted r = route_all-IsCounted calls (new_router s) refl in
    omega (arith, c, small r.devices_client, small r.e2b_executor)
  where
    small : (b : Bool) → one_if b ≤ 1
    small true = omega arith
    small false = omega arith
