-- ===== src/Tools.antt =====
-- core/runtime/tool_executor.py: resolving and running an in-process tool.
pub mod Editable
pub mod Diagnostics
pub mod Executor
pub mod Ownership
pub mod Stale
pub mod Envelopes
pub mod Tests
use grafux_mcp.Base.{
  Bool, Dict, List, Option, String, [], false, if◌then◌else◌, lookup, none, not, some, true,
  truthy_text, ◌&&◌, ◌==◌, ◌∷◌, nat_eq, string_eq, pair_eq,
}
use grafux_mcp.Json.{Json, given}
use grafux_mcp.Plugins.{Registry, ToolInfo, index_of, path2, path3, text_of}

-- Who calls: caller_username, caller_project, caller_category.
pub record Caller : Type 0 where
  pub username : Option String
  pub project : Option String
  pub category : Option String

abbrev pub Resolved : Type 0
Resolved = Option (String × ToolInfo)

-- caller_username and caller_project
unfoldable pub is_named : Caller → Bool
unfolding given
is_named c = given c.username && given c.project

-- The namespaced keys to try, the one with the category first.
unfoldable pub candidates : Caller → String → List String
unfolding given
candidates c tool_name =
    let short = path2 (text_of c.username) (text_of c.project) tool_name ∷ [] in
    if given c.category
    then path3 (text_of c.username) (text_of c.project) (text_of c.category) tool_name ∷ short
    else short

-- for k in candidates: if k in TOOLS: ...; break
unfoldable pub first_registered : List String → Dict String ToolInfo → Resolved
unfolding lookup
first_registered [] tools = none
first_registered (k ∷ ks) tools = elim (lookup k tools) [
  | some info ↦ some (k, info)
  | none ↦ first_registered ks tools
]

-- a == b for two `str | None`
unfoldable pub same_text : Option String → Option String → Bool
same_text none none = true
same_text none (some t) = false
same_text (some s) none = false
same_text (some s) (some t) = s == t

-- The tests that a tool found by its display name has to pass.
unfoldable pub is_callers : Caller → ToolInfo → Bool
unfolding is_named given same_text
is_callers c info =
    if is_named c
    then same_text info.username c.username
      && same_text info.project c.project
      && not (given c.category && not (same_text info.category c.category))
    else true

-- for k in NAME_INDEX.get(tool_name, []): ...
unfoldable pub scan_names : Caller → List String → Dict String ToolInfo → Resolved
scan_names c [] tools = none
scan_names c (k ∷ ks) tools = elim (lookup k tools) [
  | none ↦ scan_names c ks tools
  | some info ↦ elim (is_callers c info) [ true ↦ some (k, info) | false ↦ scan_names c ks tools ]
]

-- `if tool_name in TOOLS` ... `else` the scan
unfoldable pub by_name : Caller → String → Registry → Resolved
unfolding lookup scan_names index_of
by_name c tool_name reg = elim (lookup tool_name reg.tools) [
  | some info ↦ some (tool_name, info)
  | none ↦ scan_names c (index_of reg.name_index tool_name) reg.tools
]

-- Since `if not tool_key` follows, a found key that is the empty text counts as not found: the
-- direct lookup then finds it again under the name "".
unfoldable pub has_key : Resolved → Bool
unfolding truthy_text
has_key none = false
has_key (some (k, info)) = truthy_text k

unfoldable pub namespaced : Caller → String → Registry → Resolved
unfolding is_named candidates first_registered
namespaced c tool_name reg =
    if is_named c then first_registered (candidates c tool_name) reg.tools else none

-- Key resolution: namespaced, then direct, then by display name. `none` stands for a falsy key.
unfoldable pub resolve : Caller → String → Registry → Resolved
resolve c tool_name reg =
    let found = namespaced c tool_name reg in
    let named = by_name c tool_name reg in
    if has_key found then found else if has_key named then named else none

-- The authorization check: a tool with an owner is for that owner alone.
pub data Access : Type 0 where
  granted missing_identity unauthorized : Access

unfoldable pub authorize : Caller → ToolInfo → Access
unfolding given same_text is_named
authorize c info =
    if given info.username && given info.project
    then (if not (is_named c)
        then missing_identity
        else if same_text info.username c.username && same_text info.project c.project
        then granted
        else unauthorized)
    else granted
