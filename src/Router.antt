-- ===== src/Router.antt =====
-- core/runtime/router.py: the table of handlers, and the checks and the limit of each runner.
pub mod Routes
pub mod Tests
use grafux_mcp.Base.{
  Bool, Dict, Option, String, [], false, if◌then◌else◌, lookup, none, some, true, ℕ, ◌+◌, ◌^^◌, ◌∷◌,
  nat_eq, string_eq, pair_eq,
}
use grafux_mcp.Json.{Json, given, str}
use grafux_mcp.Exceptions.{Result, cancelled, exc, routing, runtime, thrown, timeout}
use grafux_mcp.Plugins.{Registry, text_of}
use grafux_mcp.Pool.{Env, Pool}
use grafux_mcp.Pool.Calls.{Trip, call_tool}
use grafux_mcp.Tools.{Caller}
use grafux_mcp.Tools.Executor.{Runtime, call_tool_direct}

-- models/mcp_server.py: ServerType
pub data ServerType : Type 0 where
  local_plugin remote_sse remote_http composio e2b device : ServerType

abbrev server_types : Dict String ServerType
server_types =
    ("local_plugin", local_plugin)
    ∷ ("remote_sse", remote_sse)
    ∷ ("remote_http", remote_http)
    ∷ ("composio", composio)
    ∷ ("e2b", e2b)
    ∷ ("device", device)
    ∷ []

-- self._handlers.get(server_type)
unfoldable pub handler_of : String → Option ServerType
unfolding lookup
handler_of name = lookup name server_types

-- _RouteCtx
pub record RouteCtx : Type 0 where
  pub tool_name : String
  pub arguments : Dict String Json
  pub caller : Caller
  pub server_config : Dict String Json
  pub endpoint_url : Option String
  pub code : Option String

-- A call's script: whether the time limit ends it, and what the backend gives otherwise. Remote
-- calls go through the connection pool, with its two round trips.
pub record Backends : Type 0 where
  pub runtime : Runtime
  pub registry : Registry
  pub env : Env
  pub first : Trip Json
  pub second : Trip Json
  pub composio_call : Dict String Json → String → Dict String Json → Result Json
  pub e2b_execute : String → Dict String Json → Result Json
  pub device_call : String → Dict String Json → Dict String Json → Result Json
  pub times_out : Bool

-- The router's clients that are built at their first use, with the pool of connections. How often a
-- client was built is counted.
pub record State : Type 0 where
  pub devices_client : Bool
  pub e2b_executor : Bool
  pub built : ℕ
  pub pool : Pool

-- asyncio.wait_for(..., timeout=ctx.timeout)
unfoldable pub wait_for : Backends → Result Json → Result Json
wait_for b r = if b.times_out then thrown (exc timeout "") else r

unfoldable pub run_local : Backends → RouteCtx → Result Json
unfolding wait_for
run_local b ctx =
    wait_for b (call_tool_direct b.runtime ctx.tool_name ctx.arguments ctx.caller b.registry)

abbrev pub transport_of : ServerType → String
transport_of remote_sse = "sse"
transport_of _ = "http"

abbrev pub through_pool : Backends → State → Result Json × Pool → Result Json × State
through_pool b s (r, p) = (wait_for b r, record s { pool = p })

-- A call that the limit ends is cancelled in its first round trip, and not tried again.
abbrev pub first_trip : Backends → Trip Json
first_trip b =
    if b.times_out then record b.first { answer = thrown (exc cancelled "") } else b.first

unfoldable pub run_remote : Backends → ServerType → RouteCtx → State → Result Json × State
unfolding given
run_remote b t ctx s =
    if given ctx.endpoint_url
    then through_pool b s
        (call_tool b.env (text_of ctx.endpoint_url, transport_of t) (first_trip b) b.second s.pool)
    else (thrown (exc routing "Remote MCP server requires endpoint_url"), s)

unfoldable pub run_composio : Backends → RouteCtx → Result Json
run_composio b ctx = wait_for b (b.composio_call ctx.server_config ctx.tool_name ctx.arguments)

-- ctx.code or ctx.arguments.get("code", ""), for code that is a text
unfoldable pub code_of : RouteCtx → String
unfolding given lookup
code_of ctx =
    if given ctx.code
    then text_of ctx.code
    else (elim (lookup "code" ctx.arguments) [ none ↦ "" | some v ↦ elim v [ str c ↦ c | w ↦ "" ] ])

abbrev pub count_new : Bool → ℕ
count_new true = 0
count_new false = 1

unfoldable pub run_e2b : Backends → RouteCtx → State → Result Json × State
unfolding code_of
run_e2b b ctx s = (
  wait_for b (b.e2b_execute (code_of ctx) ctx.arguments),
  record s { e2b_executor = true; built = s.built + count_new s.e2b_executor },
)

unfoldable pub run_device : Backends → RouteCtx → State → Result Json × State
run_device b ctx s = (
  wait_for b (b.device_call ctx.tool_name ctx.arguments ctx.server_config),
  record s { devices_client = true; built = s.built + count_new s.devices_client },
)

abbrev pub run_handler : Backends → ServerType → RouteCtx → State → Result Json × State
run_handler b local_plugin ctx s = (run_local b ctx, s)
run_handler b remote_sse ctx s = run_remote b remote_sse ctx s
run_handler b remote_http ctx s = run_remote b remote_http ctx s
run_handler b composio ctx s = (run_composio b ctx, s)
run_handler b e2b ctx s = run_e2b b ctx s
run_handler b device ctx s = run_device b ctx s

unfoldable pub route : Backends → String → RouteCtx → State → Result Json × State
route b server_type ctx s = elim (handler_of server_type) [
  | none ↦ (thrown (exc routing ("Unknown server type: " ^^ server_type)), s)
  | some t ↦ run_handler b t ctx s
]
