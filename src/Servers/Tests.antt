-- ===== src/Servers/Tests.antt =====
-- The server manager and the health monitor at concrete inputs, and their theorems at them.
use grafux_mcp.Base.{
  List, [], false, has, insert, lookup, none, refl, some, true, ◌∷◌, ◌≡◌, nat_eq, string_eq,
  pair_eq,
}
use grafux_mcp.Exceptions.{connection, exc, ok, thrown}
use grafux_mcp.Json.{Json, dict, given, int, pos, str}
use grafux_mcp.Router.{remote_sse}
use grafux_mcp.Cache.{empty_redis, setex}
use grafux_mcp.Cache.Expiry.{seen}
use grafux_mcp.Client.{Remote, Wrapper, hello}
use grafux_mcp.Pool.{Pool}
use grafux_mcp.Servers.{
  Env, Server, Fleet, active, active_server_ids, already_connected, connect, connect_client_of,
  connected, disconnect, error, get_client, inactive,
}
use grafux_mcp.Servers.Clients.{connect-stays}
use grafux_mcp.Servers.Phases.{Op, connecting_to, disconnecting_from}
use grafux_mcp.Servers.Monitor.{Check, turn}

abbrev remote : Remote
remote = record {
  endpoint_url = "https://remote";
  initialize = λ transport. ok (record { name = "r"; version = "1"; capabilities = none });
  sdk_list_tools = ok [];
  sdk_call_tool = λ name arguments. thrown (exc connection "gone");
  probe = thrown (exc connection "gone");
  http_list_tools = thrown (exc connection "gone");
  http_call_tool = λ name arguments. thrown (exc connection "gone");
}

abbrev fine_env : Env
fine_env = record {
  now = 100;
  clock = "2025-01-01T00:00:00+00:00";
  dumps = λ v. "payload";
  new_id = "c1";
  remote = remote;
  marking = ok tt;
  recording = ok tt;
  failing = ok tt;
  closing = ok tt;
  caching_capabilities = ok tt;
  caching_health = ok tt;
}

-- The cache cannot be written.
abbrev no_cache : Env
no_cache = record fine_env { caching_capabilities = thrown (exc connection "redis") }

abbrev server : Server
server = record {
  id = "s1";
  org_id = "o1";
  server_type = remote_sse;
  endpoint_url = some "https://remote";
}

abbrev world : Fleet
world = record {
  statuses = ("s1", inactive) ∷ ("s2", inactive) ∷ [];
  connections = [];
  active_connections = [];
  redis = empty_redis;
}

abbrev client : Wrapper
client = record { transport = "sse"; session = true; sent = [] }

abbrev caps : Json
caps = hello (str "r") (str "1") (dict [])

connects :
    ((connect fine_env server world).0 ≡ ok (connected caps))
    × ((connect fine_env server world).1.statuses ≡ ("s1", active) ∷ ("s2", inactive) ∷ [])
    × (active_server_ids (connect fine_env server world).1 ≡ "s1" ∷ [])
unfolding connect insert
connects = (refl, refl, refl)

-- The status says error, and the client is registered.
half_connected :
    ((connect no_cache server world).0 ≡ thrown (exc connection "redis"))
    × ((connect no_cache server world).1.statuses ≡ ("s1", error) ∷ ("s2", inactive) ∷ [])
    × (active_server_ids (connect no_cache server world).1 ≡ "s1" ∷ [])
unfolding connect insert
half_connected = (refl, refl, refl)

disconnects :
    (disconnect fine_env server (connect fine_env server world).1).1.connections
    ≡ record {
      id = "c1";
      server_id = "s1";
      status = "disconnected";
      connected_at = 100;
      disconnected_at = some 100;
    }
      ∷ []
unfolding connect disconnect insert
disconnects = refl

connect-stays_example :
    (get_client (connect no_cache server world).1 "s1" ≡ some client)
    × (connect fine_env server (connect no_cache server world).1
        ≡ (ok already_connected, (connect no_cache server world).1))
unfolding has given connect_client_of
connect-stays_example =
    connect-stays no_cache fine_env server world caps client refl refl refl (λ q. cc) refl refl

abbrev there_and_back : List Op
there_and_back = connecting_to fine_env server ∷ disconnecting_from fine_env server ∷ []

abbrev pool : Pool
pool = record { entries = []; opened = 0; shut = 0 }

abbrev check : Check
check = record {
  now = 120;
  dumps = λ v. "health";
  remote = λ id. remote;
  times_out = λ id. false;
  latency = λ id. int (pos 3);
  caching = λ id. ok tt;
}

monitored :
    seen 150
      (lookup "mcp:health:s1" (turn check 300 (("s1", client) ∷ []) (empty_redis, pool)).0.store)
    ≡ some "health"
unfolding turn seen setex insert
monitored = refl
