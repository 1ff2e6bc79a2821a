-- ===== src/Servers/Monitor.antt =====
-- core/lifecycle/health_monitor.py. A turn of the loop is a function; the pause between two turns is
-- not modelled.
use grafux_mcp.Base.{
  Bool, Dict, Option, String, [], false, if◌then◌else◌, none, some, true, ℕ, ◌+◌, ◌^^◌, ◌∷◌, nat_eq,
  string_eq, pair_eq,
}
use grafux_mcp.Exceptions.{Result, is_instance, ok, thrown, timeout}
use grafux_mcp.Json.{Json, dict, given, int, pos, str}
use grafux_mcp.Cache.{Redis, cache_set}
use grafux_mcp.Client.{Remote, Wrapper, list_tools}
use grafux_mcp.Pool.{Pool, evict_idle}

-- What a check finds: the clock, json.dumps, and for each server its remote side, whether the ten
-- seconds pass first, the latency, and how the write to the cache ends.
pub record Check : Type 0 where
  pub now : ℕ
  pub dumps : Json → String
  pub remote : String → Remote
  pub times_out : String → Bool
  pub latency : String → Json
  pub caching : String → Result (Unit {0})

abbrev pub health_key : String → String
health_key server_id = "mcp:health:" ^^ server_id

-- TTL_HEALTH * 3
abbrev pub health_ttl : ℕ
health_ttl = 90

-- status, latency_ms and error
abbrev pub Found : Type 0
Found = (String × Json) × Option String

abbrev pub timeout_found : Found
timeout_found = (("timeout", int (pos 10000)), some "Health check timed out")

unfoldable pub probe_found : Json → Result Json → Found
unfolding is_instance
probe_found latency (ok tools) = (("healthy", latency), none)
probe_found latency (thrown e) =
    if is_instance e timeout then timeout_found else (("error", latency), some e.message)

unfoldable pub probe : Check → (server_id : String) → Wrapper → Found
unfolding probe_found list_tools
probe c server_id client =
    if c.times_out server_id
    then timeout_found
    else probe_found (c.latency server_id) (list_tools (c.remote server_id) client)

abbrev error_field : Option String → Dict String Json
error_field e = elim e [ none ↦ [] | some text ↦ ("error", str text) ∷ [] ]

unfoldable pub payload : (server_id : String) → Found → Json
unfolding given
payload server_id ((status, latency), e) = dict (
    ("server_id", str server_id)
    ∷ ("status", str status)
    ∷ ("latency_ms", latency)
    ∷ (if given e then error_field e else []))

abbrev pub checked : Check → String → Wrapper → Redis → Redis
checked c server_id client r =
    cache_set c.now (health_key server_id) (c.dumps (payload server_id (probe c server_id client)))
      (some health_ttl) r

abbrev pub then_check :
    (Redis → Result (Unit {0}) × Redis)
    → Result (Unit {0})
    → (Redis → Redis)
    → Redis
    → Result (Unit {0}) × Redis
then_check next (thrown e) write r = (thrown e, r)
then_check next (ok _) write r = next (write r)

-- _check_all, over the connections that there were at its start
unfoldable pub check_all : Check → Dict String Wrapper → Redis → Result (Unit {0}) × Redis
unfolding cache_set probe payload
check_all c [] r = (ok tt, r)
check_all c ((server_id, client) ∷ clients) r =
    then_check (check_all c clients) (c.caching server_id) (checked c server_id client) r

-- A turn of the loop: whatever raises is logged.
unfoldable pub turn : Check → (idle_seconds : ℕ) → Dict String Wrapper → Redis × Pool → Redis × Pool
unfolding check_all evict_idle
turn c idle_seconds clients (r, p) = ((check_all c clients r).1, evict_idle c.now idle_seconds p)

-- _running, and the loops that have been started and not stopped
pub record Loop : Type 0 where
  pub running : Bool
  pub loops : ℕ

unfoldable pub start_loop : Loop → Loop
start_loop m = if m.running then m else record m { running = true; loops = m.loops + 1 }

unfoldable pub stop_loop : Loop → Loop
stop_loop m = record m { running = false; loops = 0 }
