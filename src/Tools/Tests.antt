-- ===== src/Tools/Tests.antt =====
-- Tool calls at concrete inputs.
use grafux_mcp.Base.{
  Option, String, [], lookup, none, refl, some, true, ◌==◌, ◌∷◌, ◌≡◌, nat_eq, string_eq, pair_eq,
}
use grafux_mcp.Json.{Json, dict, given, int, null, pos, str}
use grafux_mcp.Json.Envelope.{has_content, text_content}
use grafux_mcp.Exceptions.{exc, ok, thrown, value_error}
use grafux_mcp.Plugins.{
  Registry, ToolFunc, ToolInfo, empty_registry, index_of, key_of, register_tool, tool_key,
}
use grafux_mcp.Tools.{Caller, by_name, has_key, is_callers, namespaced, resolve, scan_names}
use grafux_mcp.Tools.Editable.{infer_category}
use grafux_mcp.Tools.Executor.{Runtime, call_tool_direct}
use grafux_mcp.Tools.Ownership.{IsOwned, call_tool_direct-owner}
use grafux_mcp.Tools.Envelopes.{call_tool_direct-has_content}
use grafux_mcp.Tools.Stale.{}

executor : Unit {0}
unfolding call_tool_direct resolve namespaced has_key by_name scan_names is_callers register_tool
executor = tt

abbrev answer : ToolFunc
answer arguments = record { result = ok (int (pos 42)); warned = "t.py:1: UserWarning: odd" ∷ [] }

abbrev tool_of : Option String → String → ToolInfo
tool_of category name = record {
  func = answer;
  name = name;
  description = "";
  input_schema = null;
  username = some "ann";
  project = some "poli";
  category = category;
}

abbrev one_tool : Registry
one_tool = register_tool (tool_of (some "general") "add1") empty_registry

abbrev no_files : Runtime
no_files = record {
  files = record { root = "/srv"; is_blank = λ s. s == ""; source = λ p. none };
  to_text = λ v. "42";
  traceback = λ e. e.message;
  syntax_report = λ e. e.message;
  hint = λ e. "";
}

abbrev ann : Caller
ann = record { username = some "ann"; project = some "poli"; category = none }

abbrev bob : Caller
bob = record ann { username = some "bob" }

abbrev answered : Json
answered = dict (
    ("content", text_content "42")
    ∷ ("diagnostics", dict (("warnings", str "t.py:1: UserWarning: odd") ∷ []))
    ∷ [])

-- found by its display name: the caller gives no category
answers : call_tool_direct no_files "add1" [] ann one_tool ≡ ok answered
unfolding executor
answers = refl

other_user :
    (call_tool_direct no_files "ann/poli/general/add1" [] bob one_tool
      ≡ thrown (exc value_error "Unauthorized: tool 'ann/poli/general/add1' belongs to ann/poli"))
    × (call_tool_direct no_files "add1" [] bob one_tool
        ≡ thrown (exc value_error "Unknown tool: add1"))
unfolding executor
other_user = (refl, refl)

category_test :
    infer_category (null ∷ str "data\\ann\\poli\\tools\\general\\add1\\inputs\\a.txt" ∷ [])
    ≡ some "general"
unfolding infer_category
category_test = refl

resolves :
    resolve ann "add1" one_tool ≡ some ("ann/poli/general/add1", tool_of (some "general") "add1")
unfolding executor
resolves = refl

owned : IsOwned (tool_of (some "general") "add1")
unfolding given
owned = refl

same_key : key_of (tool_of none "x/add1") ≡ key_of (tool_of (some "x") "add1")
unfolding tool_key
same_key = refl

unused_name :
    (lookup "x/add1" empty_registry.tools ≡ none)
    × (index_of empty_registry.name_index "x/add1" ≡ [])
unfolding lookup index_of
unused_name = (refl, refl)

call_tool_direct-owner_example : ◌≡◌ {A = Option String} (some "ann") ann.username
call_tool_direct-owner_example =
    (call_tool_direct-owner no_files "add1" [] ann one_tool "ann/poli/general/add1"
      (tool_of (some "general") "add1") answered resolves owned answers).0

call_tool_direct-has_content_example : has_content answered ≡ true
call_tool_direct-has_content_example =
    call_tool_direct-has_content no_files "add1" [] ann one_tool answered answers
