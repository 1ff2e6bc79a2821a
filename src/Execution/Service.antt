-- ===== src/Execution/Service.antt =====
-- services/execution_service.py: the public operations around a run.
use grafux_mcp.Base.{
  Bool, Dict, Option, String, add, discard, if◌then◌else◌, insert, lookup, none, some, ℕ, ◌==◌,
  nat_eq, string_eq, pair_eq,
}
use grafux_mcp.Json.{Json}
use grafux_mcp.Exceptions.{Result}
use grafux_mcp.Cancellation
use grafux_mcp.Cancellation.{Events, cancel, register, unregister}
use grafux_mcp.Execution.{Invocation, Ref, Turn, World, pending}
use grafux_mcp.Execution.Run.{run}

-- RoutingInfo
pub record RoutingInfo : Type 0 where
  pub server_type : String
  pub endpoint_url : Option String
  pub server_config : Option (Dict String Json)

-- The rows of MCPTool joined with their server, by the tool's id: `some none` is a tool whose
-- server is missing.
abbrev pub ToolRows : Type 0
ToolRows = Dict String (Option RoutingInfo)

abbrev pub local_plugin : RoutingInfo
local_plugin = record { server_type = "local_plugin"; endpoint_url = none; server_config = none }

-- _resolve_tool_routing
unfoldable pub resolve_tool_routing : Option String → ToolRows → RoutingInfo
unfolding lookup
resolve_tool_routing none tools = local_plugin
resolve_tool_routing (some tool_id) tools = elim (lookup tool_id tools) [
  | none ↦ local_plugin
  | some server ↦ elim server [ none ↦ local_plugin | some info ↦ info ]
]

-- What the caller of invoke and invoke_async gives.
pub record Request : Type 0 where
  pub tool_name : String
  pub arguments : Dict String Json
  pub org_id : String
  pub project_id : Option String
  pub user_id : Option String
  pub session_id : Option String
  pub tool_id : Option String

abbrev pub ref_of : String → Request → Ref
ref_of id r = record {
  id = id;
  tool_name = r.tool_name;
  org_id = r.org_id;
  project_id = r.project_id;
}

abbrev pub new_row : Request → String → ℕ → Invocation
new_row r server_type now = record {
  org_id = r.org_id;
  project_id = r.project_id;
  user_id = r.user_id;
  session_id = r.session_id;
  tool_id = r.tool_id;
  tool_name = r.tool_name;
  server_type = server_type;
  status = pending;
  input = r.arguments;
  output = none;
  error_message = none;
  started_at = now;
  completed_at = none;
}

-- _create_invocation, with the identifier that uuid4 draws
unfoldable pub create_invocation : String → Request → String → World → World
unfolding insert
create_invocation id r server_type w = record w {
  rows = insert id (new_row r server_type w.clock) w.rows;
}

abbrev pub with_event : (Events → Events) → World → World
with_event f w = record w { events = f w.events }

-- Register, run, and unregister in `finally`.
unfoldable pub run_registered : Ref → String → (ℕ → Turn) → World → Result Json × World
run_registered ref seconds turns w =
    let (r, w') = run ref seconds turns (with_event (register ref.id) w) in
    (r, with_event (unregister ref.id) w')

-- invoke
unfoldable pub invoke :
    String → Request → ToolRows → String → (ℕ → Turn) → World → Result Json × World
unfolding run_registered
invoke id r tools seconds turns w =
    let routing = resolve_tool_routing r.tool_id tools in
    run_registered (ref_of id r) seconds turns (create_invocation id r routing.server_type w)

-- invoke_async: the row is there when the id is returned, and the task is tracked.
unfoldable pub invoke_async : String → Request → ToolRows → World → String × World
unfolding add
invoke_async id r tools w =
    let w' = create_invocation id r (resolve_tool_routing r.tool_id tools).server_type w in
    (id, record w' { tasks = add id w'.tasks })

-- _run_background, and the done callback: an exception of the run is logged and goes no further,
-- a CancelledError ends the task.
unfoldable pub run_background : Ref → String → (ℕ → Turn) → World → World
unfolding run_registered discard
run_background ref seconds turns w =
    let (r, w') = run_registered ref seconds turns w in
    record w' { tasks = discard ref.id w'.tasks }

-- cancel
unfoldable pub cancel_invocation : String → World → Bool × World
cancel_invocation id w =
    let (found, ev) = Cancellation.cancel id w.events in (found, record w { events = ev })

-- get_invocation
unfoldable pub get_invocation : String → String → World → Option Invocation
unfolding lookup
get_invocation id org_id w = elim (lookup id w.rows) [
  | none ↦ none
  | some row ↦ if row.org_id == org_id then some row else none
]
