-- ===== src/Servers.antt =====
-- core/lifecycle/server_manager.py: connecting to a server and disconnecting from it, and
-- core/lifecycle/health_monitor.py. A statement with its commit is one transaction: it takes effect,
-- or it raises and does not.
pub mod Manager
pub mod Clients
pub mod Phases
pub mod Changes
pub mod Steps
pub mod Monitor
pub mod Health
pub mod Tests
use grafux_mcp.Base.{
  Dict, List, Option, String, [], erase, has, if◌then◌else◌, insert, keys, lookup, ltb, none, some,
  ℕ, ◌&&◌, ◌++◌, ◌==◌, ◌^^◌, ◌∷◌, nat_eq, string_eq, pair_eq,
}
use grafux_mcp.Exceptions.{Exc, Result, exc, ok, thrown, value_error}
use grafux_mcp.Json.{Json, dict, given, str}
use grafux_mcp.Router.{ServerType, local_plugin, remote_sse}
use grafux_mcp.Cache.{Redis, cache_set}
use grafux_mcp.Client.{Remote, Wrapper, connect as connect_client, new_wrapper}

-- models/mcp_server.py: ServerStatus
pub data ServerStatus : Type 0 where
  active inactive connecting error : ServerStatus

-- The columns of an MCPServer row that the manager reads.
pub record Server : Type 0 where
  pub id : String
  pub org_id : String
  pub server_type : ServerType
  pub endpoint_url : Option String

-- An MCPConnection row.
pub record ConnectionRow : Type 0 where
  pub id : String
  pub server_id : String
  pub status : String
  pub connected_at : ℕ
  pub disconnected_at : Option ℕ

-- The status column of mcp_servers by id, mcp_connections, _active_connections, and the cache.
pub record Fleet : Type 0 where
  pub statuses : Dict String ServerStatus
  pub connections : List ConnectionRow
  pub active_connections : Dict String Wrapper
  pub redis : Redis

-- The clocks, json.dumps, the id of a new row, the remote server, and how the transactions and the
-- writes to the cache end: of the status `connecting`, of the connection, of the error, of the
-- disconnection, of the capabilities and of the health.
pub record Env : Type 0 where
  pub now : ℕ
  pub clock : String
  pub dumps : Json → String
  pub new_id : String
  pub remote : Remote
  pub marking : Result (Unit {0})
  pub recording : Result (Unit {0})
  pub failing : Result (Unit {0})
  pub closing : Result (Unit {0})
  pub caching_capabilities : Result (Unit {0})
  pub caching_health : Result (Unit {0})

abbrev pub ttl_health : ℕ
ttl_health = 30

abbrev pub ttl_capabilities : ℕ
ttl_capabilities = 600

-- MCPKeys.server_health and MCPKeys.server_capabilities
abbrev pub server_health : (org_id server_id : String) → String
server_health org_id server_id = "mcp:" ^^ org_id ^^ ":server:" ^^ server_id ^^ ":health"

abbrev pub server_capabilities : String → String
server_capabilities server_id = "mcp:capabilities:" ^^ server_id

abbrev pub set_status : String → ServerStatus → Fleet → Fleet
set_status id status w = record w { statuses = insert id status w.statuses }

abbrev pub error_field : Option String → Dict String Json
error_field e = elim e [ none ↦ [] | some text ↦ ("error", str text) ∷ [] ]

abbrev pub health_payload : Env → (server_id status : String) → Option String → Json
health_payload env server_id status e = dict (
    ("server_id", str server_id)
    ∷ ("status", str status)
    ∷ ("checked_at", str env.clock)
    ∷ (if given e then error_field e else []))

-- A write to the cache that succeeds or raises.
unfoldable pub cache_write :
    Env → Result (Unit {0}) → (key : String) → Json → (ttl : ℕ) → Fleet → Result (Unit {0}) × Fleet
unfolding cache_set
cache_write env (thrown e) key v ttl w = (thrown e, w)
cache_write env (ok _) key v ttl w =
    (ok tt, record w { redis = cache_set env.now key (env.dumps v) (some ttl) w.redis })

unfoldable pub write_health :
    Env → (org_id server_id status : String) → Option String → Fleet → Result (Unit {0}) × Fleet
unfolding cache_write given
write_health env org_id server_id status e w =
    cache_write env env.caching_health (server_health org_id server_id)
      (health_payload env server_id status e) ttl_health w

abbrev pub then_write :
    (Fleet → Result (Unit {0}) × Fleet)
    → Result (Unit {0})
    → Fleet
    → (Fleet → Fleet)
    → Result (Unit {0}) × Fleet
then_write next (thrown e) w commit = (thrown e, w)
then_write next (ok _) w commit = next (commit w)

abbrev pub new_connection : Env → Server → ConnectionRow
new_connection env s = record {
  id = env.new_id;
  server_id = s.id;
  status = "connected";
  connected_at = env.now;
  disconnected_at = none;
}

unfoldable pub record_connected : Env → Server → Fleet → Result (Unit {0}) × Fleet
unfolding write_health
record_connected env s w =
    then_write (write_health env s.org_id s.id "connected" none) env.recording w (λ v.
      record (set_status s.id active v) {
        connections = v.connections ++ new_connection env s ∷ [];
      })

unfoldable pub record_error : Env → Server → String → Fleet → Result (Unit {0}) × Fleet
unfolding write_health
record_error env s message w =
    then_write (write_health env s.org_id s.id "error" (some message)) env.failing w
      (set_status s.id error)

-- The dict that connect returns.
pub data ConnectReply : Type 0 where
  already_connected connected_plugin : ConnectReply
  connected : Json → ConnectReply

-- An exception is raised after the error has been recorded; or recording it raises.
unfoldable pub raise_recorded : Env → Server → Exc → Fleet → Result ConnectReply × Fleet
unfolding record_error
raise_recorded env s e w = elim (record_error env s e.message w).0 [
  | ok _ ↦ (thrown e, (record_error env s e.message w).1)
  | thrown e' ↦ (thrown e', (record_error env s e.message w).1)
]

unfoldable pub no_endpoint : Env → Server → Fleet → Result ConnectReply × Fleet
unfolding record_error
no_endpoint env s w =
    let r = record_error env s "No endpoint URL configured" w in
    elim r.0 [
      | ok _ ↦ (thrown (exc value_error ("Server " ^^ s.id ^^ " has no endpoint_url")), r.1)
      | thrown e ↦ (thrown e, r.1)
    ]

abbrev pub replying : ConnectReply → Result (Unit {0}) × Fleet → Result ConnectReply × Fleet
replying reply (ok _, w) = (ok reply, w)
replying reply (thrown e, w) = (thrown e, w)

-- In the try block, an exception goes on to its handler.
abbrev pub or_record : Env → Server → Result ConnectReply × Fleet → Result ConnectReply × Fleet
or_record env s (ok reply, w) = (ok reply, w)
or_record env s (thrown e, w) = raise_recorded env s e w

abbrev pub then_record :
    Env → Server → Json → Result (Unit {0}) × Fleet → Result ConnectReply × Fleet
then_record env s caps (thrown e, w) = (thrown e, w)
then_record env s caps (ok _, w) = replying (connected caps) (record_connected env s w)

-- From the client that has connected to the end of the try block.
unfoldable pub register_client :
    Env → Server → Result Json × Wrapper → Fleet → Result ConnectReply × Fleet
unfolding cache_write record_connected
register_client env s (thrown e, client) w = (thrown e, w)
register_client env s (ok caps, client) w = then_record env s caps (
    cache_write env env.caching_capabilities (server_capabilities s.id) caps ttl_capabilities
      (record w { active_connections = insert s.id client w.active_connections }))

abbrev pub client_transport : ServerType → String
client_transport remote_sse = "sse"
client_transport _ = "http"

unfoldable pub connect_client_of : Env → Server → Result Json × Wrapper
unfolding connect_client
connect_client_of env s = connect_client env.remote (new_wrapper (client_transport s.server_type))

unfoldable pub connect_remote : Env → Server → Fleet → Result ConnectReply × Fleet
unfolding no_endpoint register_client raise_recorded given connect_client_of
connect_remote env s w =
    if given s.endpoint_url
    then or_record env s (register_client env s (connect_client_of env s) w)
    else no_endpoint env s w

unfoldable pub connect_by_type : Env → Server → ServerType → Fleet → Result ConnectReply × Fleet
unfolding record_connected connect_remote
connect_by_type env s local_plugin w = replying connected_plugin (record_connected env s w)
connect_by_type env s _ w = connect_remote env s w

abbrev pub then_connect : Env → Server → Result (Unit {0}) → Fleet → Result ConnectReply × Fleet
then_connect env s (thrown e) w = (thrown e, w)
then_connect env s (ok _) w = connect_by_type env s s.server_type (set_status s.id connecting w)

unfoldable pub connect : Env → Server → Fleet → Result ConnectReply × Fleet
unfolding has connect_by_type
connect env s w =
    if has s.id w.active_connections
    then (ok already_connected, w)
    else then_connect env s env.marking w

-- The open connection of the server that was made last.
unfoldable pub latest : String → List ConnectionRow → Option ConnectionRow
latest server_id [] = none
latest server_id (c ∷ cs) =
    let rest = latest server_id cs in
    if c.server_id == server_id && c.status == "connected"
    then (elim rest [
      | none ↦ some c
      | some d ↦ if ltb c.connected_at d.connected_at then some d else some c
    ])
    else rest

-- conn.status = "disconnected"
unfoldable pub close_row : ℕ → String → List ConnectionRow → List ConnectionRow
close_row now id [] = []
close_row now id (c ∷ cs) =
    let rest = close_row now id cs in
    if c.id == id
    then record c { status = "disconnected"; disconnected_at = some now } ∷ rest
    else c ∷ rest

unfoldable pub close_latest : ℕ → String → List ConnectionRow → List ConnectionRow
unfolding latest close_row
close_latest now server_id cs = elim (latest server_id cs) [
  | none ↦ cs
  | some c ↦ close_row now c.id cs
]

-- Whatever leaving the client's session raises is dropped.
unfoldable pub disconnect : Env → Server → Fleet → Result (Unit {0}) × Fleet
unfolding erase close_latest write_health
disconnect env s w =
    then_write (write_health env s.org_id s.id "disconnected" none) env.closing
      (record w { active_connections = erase s.id w.active_connections })
      (λ v. record (set_status s.id inactive v) {
        connections = close_latest env.now s.id v.connections;
      })

-- get_client
unfoldable pub get_client : Fleet → String → Option Wrapper
unfolding lookup
get_client w server_id = lookup server_id w.active_connections

-- active_server_ids
abbrev pub active_server_ids : Fleet → List String
active_server_ids w = keys w.active_connections
