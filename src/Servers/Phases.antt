-- ===== src/Servers/Phases.antt =====
-- core/lifecycle/server_manager.py: the manager against the phases that a server goes through.
use grafux_mcp.Base.{
  Bool, List, Option, String, [], false, has, if◌then◌else◌, inl, inr, lookup, none, refl, some,
  true, ◌++◌, ◌==◌, ◌∷◌, ◌≡◌, nat_eq, string_eq, pair_eq,
}
use grafux_mcp.Exceptions.{Exc, Result, Result-cases, ok, thrown}
use grafux_mcp.Json.{Json, given}
use grafux_mcp.Router.{ServerType, local_plugin}
use grafux_mcp.Client.{Wrapper}
use grafux_mcp.Servers.{
  Env, ConnectReply, Server, ServerStatus, Fleet, active, cache_write, connect, connect_client_of,
  connected, disconnect, error, inactive, new_connection, or_record, raise_recorded,
  record_connected, record_error, register_client, replying, set_status, then_write, write_health,
}
use grafux_mcp.Servers.Manager.{status_after}
use grafux_mcp.Servers.Clients.{}

-- The operations of the manager, each with what it finds around it.
pub data Op : Type 0 where
  connecting_to disconnecting_from : Env → Server → Op

abbrev pub perform : Op → Fleet → Fleet
perform (connecting_to env s) w = (connect env s w).1
perform (disconnecting_from env s) w = (disconnect env s w).1

abbrev pub perform_all : List Op → Fleet → Fleet
perform_all [] w = w
perform_all (op ∷ ops) w = perform_all ops (perform op w)

-- The transactions and the writes to the cache succeed.
pub record IsFine (env : Env) : Type 0 where
  pub marking : env.marking ≡ ok tt
  pub recording : env.recording ≡ ok tt
  pub failing : env.failing ≡ ok tt
  pub closing : env.closing ≡ ok tt
  pub caching_capabilities : env.caching_capabilities ≡ ok tt
  pub caching_health : env.caching_health ≡ ok tt

abbrev pub IsFineOp : Op → Type 0
IsFineOp (connecting_to env s) = IsFine env
IsFineOp (disconnecting_from env s) = IsFine env

-- What is seen of a server: its status, and whether it has a client.
abbrev pub Phase : Type 0
Phase = Option ServerStatus × Bool

abbrev pub phase : String → Fleet → Phase
phase id w = (lookup id w.statuses, has id w.active_connections)

abbrev pub outcome : Result Json → Phase
outcome (ok caps) = (some active, true)
outcome (thrown e) = (some error, false)

-- The phase that an attempt to connect ends in.
abbrev pub attempt_phase : Env → Server → ServerType → Phase
attempt_phase env s local_plugin = (some active, false)
attempt_phase env s _ =
    if given s.endpoint_url then outcome (connect_client_of env s).0 else (some error, false)

-- The specification: a server with a client stays; another one is attempted; a disconnection makes
-- any of them inactive.
abbrev pub next_phase : Op → String → Phase → Phase
next_phase (connecting_to env s) id p =
    if s.id == id then (if p.1 then p else attempt_phase env s s.server_type) else p
next_phase (disconnecting_from env s) id p = if s.id == id then (some inactive, false) else p

abbrev pub phases : List Op → String → Phase → Phase
phases [] id p = p
phases (op ∷ ops) id p = phases ops id (next_phase op id p)

module _ (env : Env) (s : Server) (fine : IsFine env) where
  pub write_health_returns :
      (org_id id status : String) (e : Option String) (w : Fleet)
      → (write_health env org_id id status e w).0 ≡ ok tt
  unfolding write_health cache_write
  write_health_returns org_id id status e w = rw (fine.caching_health, cache_write) refl

  pub record_connected_returns : (w : Fleet) → (record_connected env s w).0 ≡ ok tt
  unfolding record_connected
  record_connected_returns w =
      rw (fine.recording, then_write)
        (write_health_returns s.org_id s.id "connected" none (record (set_status s.id active w) {
          connections = w.connections ++ new_connection env s ∷ [];
        }))

  pub replying_returns :
      (reply : ConnectReply) (r : Result (Unit {0}) × Fleet)
      → r.0 ≡ ok tt
      → (replying reply r).0 ≡ ok reply
  replying_returns reply (ok u, w) h = refl
  replying_returns reply (thrown e, w) h = cc

  pub raise_recorded_status :
      (e : Exc) (w : Fleet) → status_after (raise_recorded env s e w).0 ≡ error
  unfolding raise_recorded
  raise_recorded_status e w = elim (Result-cases (record_error env s e.message w).0) [
    | inl (u, q) ↦ rw (q, raise_recorded) refl
    | inr (x, q) ↦ rw (q, raise_recorded) refl
  ]

  pub or_record_status :
      (r : Result ConnectReply × Fleet) → status_after (or_record env s r).0 ≡ status_after r.0
  or_record_status (ok reply, w) = refl
  or_record_status (thrown e, w) = raise_recorded_status e w

  pub register_client_returns :
      (caps : Json) (client : Wrapper) (w : Fleet)
      → (register_client env s (ok caps, client) w).0 ≡ ok (connected caps)
  unfolding register_client cache_write
  register_client_returns caps client w =
      rw (fine.caching_capabilities, cache_write)
        (replying_returns (connected caps) _ (record_connected_returns _))
