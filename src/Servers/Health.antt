-- ===== src/Servers/Health.antt =====
-- core/lifecycle: how long the health that the manager writes is seen.
use grafux_mcp.Base.{
  All, Dict, List, String, [], false, ℕ, ◌==◌, ◌∷◌, ◌≡◌, nat_eq, string_eq, pair_eq,
}
use grafux_mcp.Cache.{Redis}
use grafux_mcp.Client.{Wrapper}
use grafux_mcp.Pool.{Pool}
use grafux_mcp.Servers.Monitor.{Check, health_key, turn}

-- A key that the monitor does not write.
abbrev pub IsElsewhere : String → Dict String Wrapper → Type 0
IsElsewhere key clients = All (λ kv. (health_key kv.0 == key) ≡ false) clients

-- The turns of the monitor, each with what it finds.
abbrev pub turns :
    List Check → (idle_seconds : ℕ) → Dict String Wrapper → Redis × Pool → Redis × Pool
turns [] idle_seconds clients s = s
turns (c ∷ cs) idle_seconds clients s =
    turns cs idle_seconds clients (turn c idle_seconds clients s)
