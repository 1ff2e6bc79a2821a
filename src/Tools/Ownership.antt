-- ===== src/Tools/Ownership.antt =====
-- Which tool a name resolves to, and who may run it.
use grafux_mcp.Base.{
  Dict, Option, String, ap, arith, contains, eq_iff, none, refl, some, true, ◌&&◌, ◌≡◌, ◌⊎◌, nat_eq,
  string_eq, pair_eq,
}
use grafux_mcp.Json.{Json, given}
use grafux_mcp.Exceptions.{ok}
use grafux_mcp.Plugins.{Registry, ToolInfo, index_of}
use grafux_mcp.Tools.{Caller, authorize, candidates, is_callers, resolve, same_text}
use grafux_mcp.Tools.Executor.{Runtime, call_tool_direct, run_resolved}

same_text-eq : (s t : Option String) → same_text s t ≡ true → s ≡ t
unfolding same_text
same_text-eq none none h = refl
same_text-eq none (some t) h = cc
same_text-eq (some s) none h = cc
same_text-eq (some s) (some t) h = ap some ((eq_iff s t).0 h)

-- The tool has an owner.
abbrev pub IsOwned : ToolInfo → Type 0
IsOwned info = (given info.username && given info.project) ≡ true

run_resolved-owner :
    (rt : Runtime) (tool_name : String) (arguments : Dict String Json) (c : Caller)
    (info : ToolInfo) (v : Json)
    → IsOwned info
    → run_resolved rt tool_name arguments c info ≡ ok v
    → (info.username ≡ c.username) × (info.project ≡ c.project)
unfolding run_resolved authorize
run_resolved-owner rt tool_name arguments c info v o h =
    ground (arith, same_text-eq info.username c.username, same_text-eq info.project c.project)

-- A call returns a result from a tool that has an owner only if the caller's user and project are
-- the owner's: to everybody else the call raises.
pub call_tool_direct-owner :
    (rt : Runtime) (tool_name : String) (arguments : Dict String Json) (c : Caller) (reg : Registry)
    (k : String) (info : ToolInfo) (v : Json)
    → resolve c tool_name reg ≡ some (k, info)
    → IsOwned info
    → call_tool_direct rt tool_name arguments c reg ≡ ok v
    → (info.username ≡ c.username) × (info.project ≡ c.project)
unfolding call_tool_direct
call_tool_direct-owner rt tool_name arguments c reg k info v e o h =
    run_resolved-owner rt tool_name arguments c info v o (rw (e, call_tool_direct) at h)

-- How a key was found: under a namespaced key of the caller, directly, or by its display name, and
-- then as a tool of the caller.
abbrev pub FoundBy : Caller → String → Registry → String → ToolInfo → Type 0
FoundBy c tool_name reg k info =
    (contains (candidates c tool_name) k ≡ true)
    ⊎ (k ≡ tool_name)
    ⊎ ((contains (index_of reg.name_index tool_name) k ≡ true) × (is_callers c info ≡ true))

-- The caller that a tool's owner is.
abbrev pub owner_of : ToolInfo → Caller
owner_of info = record {
  username = info.username;
  project = info.project;
  category = info.category;
}
