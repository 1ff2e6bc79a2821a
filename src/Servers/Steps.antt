-- ===== src/Servers/Steps.antt =====
-- core/lifecycle/server_manager.py: every operation is a step of the phases.
use grafux_mcp.Base.{String, false, has, if◌then◌else◌, ◌==◌, ◌≡◌, nat_eq, string_eq, pair_eq}
use grafux_mcp.Exceptions.{Result}
use grafux_mcp.Json.{Json}
use grafux_mcp.Servers.{ConnectReply, Env, Fleet, Server, connect, connecting, error, set_status}
use grafux_mcp.Servers.Manager.{status_after}
use grafux_mcp.Servers.Phases.{IsFine, Phase, phase}

module _ (env : Env) (s : Server) (fine : IsFine env) where
  -- An attempt that opens no client.
  abbrev Fails : Fleet → Result ConnectReply × Fleet → Type 0
  Fails w r = (status_after r.0 ≡ error) × (r.1.active_connections ≡ w.active_connections)

  module _ (w : Fleet) (new : has s.id w.active_connections ≡ false) where
    abbrev marked : Fleet
    marked = set_status s.id connecting w

    -- The server gets to this phase, and the others stay in theirs.
    abbrev Arrives : Phase → Type 0
    Arrives p =
        (other : String)
        → phase other (connect env s w).1 ≡ (if s.id == other then p else phase other w)
