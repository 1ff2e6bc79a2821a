-- ===== src/Tools/Executor.antt =====
-- core/runtime/tool_executor.py: call_tool_direct and list_local_tools. Waiting for the plugins to
-- load changes no result: the registry is the one that the wait leaves.
use grafux_mcp.Base.{
  Dict, List, Option, String, [], if◌then◌else◌, insert, lookup, map, none, some, truthy_text,
  values, ◌^^◌, ◌∷◌, nat_eq, string_eq, pair_eq,
}
use grafux_mcp.Json.{Fields, Json, dict, entries, obj, str}
use grafux_mcp.Json.Envelope.{has_content, tool_error, tool_text}
use grafux_mcp.Exceptions.{
  Exc, Result, thrown, exc, exception, is_instance, ok, syntax_error, type_error, value_error,
  ◌>>=◌, ◌>>=◌,
}
use grafux_mcp.Plugins.{Registry, ToolFunc, ToolInfo, text_of}
use grafux_mcp.Tools.{Caller, authorize, granted, missing_identity, resolve, unauthorized}
use grafux_mcp.Tools.Editable.{Files, load_editable, resolve_editable}

-- What the interpreter gives: str(v), format_exc(), the report of a SyntaxError, suggest_fix(exc).
pub record Runtime : Type 0 where
  pub files : Files
  pub to_text : Json → String
  pub traceback : Exc → String
  pub syntax_report : Exc → String
  pub hint : Exc → String

-- if not isinstance(result, dict) or "content" not in result: ...
unfoldable pub enveloped : Runtime → Json → Json
unfolding has_content tool_text
enveloped rt v = if has_content v then v else tool_text (rt.to_text v)

abbrev pub improvements : String → Dict String Json
improvements t = ("improvements", str t) ∷ []

-- warned, joined by line ends
abbrev pub join_lines : List String → String
join_lines [] = ""
join_lines (l ∷ []) = l
join_lines (l ∷ m ∷ ls) = l ^^ "\n" ^^ join_lines (m ∷ ls)

abbrev pub not_assignable : Exc
not_assignable = exc type_error "object does not support item assignment"

-- result.setdefault("diagnostics", {})["warnings"] = text, by what "diagnostics" holds
unfoldable pub put_warnings : String → Fields → Option Json → Result Json
unfolding insert
put_warnings text fs none =
    ok (dict (insert "diagnostics" (dict (("warnings", str text) ∷ [])) (entries fs)))
put_warnings text fs (some (obj d)) =
    ok (dict (insert "diagnostics" (dict (insert "warnings" (str text) (entries d))) (entries fs)))
put_warnings text fs (some v) = thrown not_assignable

unfoldable pub attach_warnings : List String → Json → Result Json
unfolding lookup put_warnings
attach_warnings [] v = ok v
attach_warnings (w ∷ ws) (obj fs) =
    put_warnings (join_lines (w ∷ ws)) fs (lookup "diagnostics" (entries fs))
attach_warnings (w ∷ ws) v = thrown not_assignable

-- editable_func or tool_meta["func"]
abbrev pub or_func : Option ToolFunc → ToolFunc → ToolFunc
or_func none f = f
or_func (some g) f = g

-- The body of the `try`.
unfoldable pub attempt : Runtime → ToolInfo → Dict String Json → Result Json
unfolding load_editable enveloped attach_warnings
attempt rt info arguments = do
  editable ← load_editable rt.files arguments
  let ran = or_func editable info.func arguments
  v ← ran.result
  attach_warnings ran.warned (enveloped rt v)

-- except SyntaxError ... except Exception ...
unfoldable pub rescue : Runtime → Result Json → Result Json
unfolding is_instance tool_error
rescue rt (ok v) = ok v
rescue rt (thrown e) =
    if is_instance e syntax_error
    then ok (tool_error (rt.syntax_report e) (improvements "Fix syntax error at indicated line."))
    else if is_instance e exception
    then ok (tool_error (rt.traceback e) (improvements (rt.hint e)))
    else thrown e

abbrev pub unknown_tool : String → Exc
unknown_tool tool_name = exc value_error ("Unknown tool: " ^^ tool_name)

-- Running a function that only the editable code gives.
unfoldable pub run_editable : Runtime → ToolFunc → Dict String Json → Result Json
unfolding enveloped tool_error is_instance
run_editable rt f arguments = elim (f arguments).result [
  | ok v ↦ ok (enveloped rt v)
  | thrown e ↦
      if is_instance e exception
      then ok (tool_error (rt.traceback e) (improvements (rt.hint e)))
      else thrown e
]

abbrev pub regenerate : String
regenerate = "Regenerate the tool so its code includes the @register_tool decorator."

-- The fallback for a name that does not resolve.
unfoldable pub fall_back : Runtime → String → Dict String Json → Result Json
unfolding resolve_editable load_editable run_editable tool_error truthy_text is_instance
fall_back rt tool_name arguments = elim (load_editable rt.files arguments) [
  | ok none ↦ thrown (unknown_tool tool_name)
  | ok (some f) ↦ run_editable rt f arguments
  | thrown e ↦
      if is_instance e exception
      then (if truthy_text e.message
          then ok (tool_error e.message (improvements regenerate))
          else thrown (unknown_tool tool_name))
      else thrown e
]

-- With the tool at hand: the authorization check, then the execution.
unfoldable pub run_resolved : Runtime → String → Dict String Json → Caller → ToolInfo → Result Json
unfolding authorize attempt rescue
run_resolved rt tool_name arguments c info = elim (authorize c info) [
  | missing_identity ↦ thrown (exc value_error "Missing username/project for namespaced tool")
  | unauthorized ↦ thrown (
      exc value_error (
        "Unauthorized: tool '"
        ^^ tool_name
        ^^ "' belongs to "
        ^^ text_of info.username
        ^^ "/"
        ^^ text_of info.project))
  | granted ↦ rescue rt (attempt rt info arguments)
]

unfoldable pub call_tool_direct :
    Runtime → String → Dict String Json → Caller → Registry → Result Json
unfolding resolve fall_back run_resolved
call_tool_direct rt tool_name arguments c reg = elim (resolve c tool_name reg) [
  | none ↦ fall_back rt tool_name arguments
  | some (k, info) ↦ run_resolved rt tool_name arguments c info
]

-- The serializable description of a tool.
pub record ToolSummary : Type 0 where
  pub name : String
  pub description : String
  pub input_schema : Json
  pub category : Option String
  pub username : Option String
  pub project : Option String
  pub source : String

abbrev pub summary : ToolInfo → ToolSummary
summary info = record {
  name = info.name;
  description = info.description;
  input_schema = info.input_schema;
  category = info.category;
  username = info.username;
  project = info.project;
  source = "local_plugin";
}

unfoldable pub list_local_tools : Registry → List ToolSummary
list_local_tools reg = map summary (values reg.tools)
