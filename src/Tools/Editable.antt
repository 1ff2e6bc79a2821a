-- ===== src/Tools/Editable.antt =====
-- core/runtime/tool_executor.py: the editable-code path, and the category that port paths name.
-- The files are what `Path.resolve`, `exists` and `read_text` answer for the text of a path.
use grafux_mcp.Base.{
  Bool, Dict, List, Option, String, [], after, has_text, if◌then◌else◌, lookup, none, not,
  replace_char, some, split, starts_with, ◌&&◌, ◌^^◌, ◌∷◌, nat_eq, string_eq, pair_eq,
}
use grafux_mcp.Json.{Json, bool, int, list, null, obj, str}
use grafux_mcp.Exceptions.{Exc, Result, thrown, exc, ok, value_error}
use grafux_mcp.Plugins.{ToolFunc}

-- A regular file of tool code: what compiling and executing it does, and the functions that it
-- hands to `register_tool`, in order. `none` stands for an object that is not callable.
pub record Source : Type 0 where
  pub compiled : Result (Unit {0})
  pub captured : List (Option ToolFunc)
  pub raised : Option Exc

pub record Files : Type 0 where
  -- the repository's root, with no "/" at its end
  pub root : String
  -- s.strip() is not empty
  pub is_blank : String → Bool
  -- the regular file that the path resolves to, if there is one
  pub source : String → Option Source

-- parts[0] of the text behind "/tools/", if a "/" follows it
unfoldable pub category_in : String → Option String
unfolding has_text after split replace_char
category_in val =
    let norm = replace_char 0x5c "/" val in
    if has_text norm "/tools/"
    then (elim (split (after norm "/tools/") b'/') [
      | [] ↦ none
      | part ∷ rest ↦ elim rest [ [] ↦ none | _ ∷ _ ↦ some part ]
    ])
    else none

-- infer_category_from_arguments, over the values of the dict
unfoldable pub infer_category : List Json → Option String
unfolding category_in
infer_category [] = none
infer_category (str val ∷ vs) = elim (category_in val) [
  | some c ↦ some c
  | none ↦ infer_category vs
]
infer_category (null ∷ vs) = infer_category vs
infer_category (bool b ∷ vs) = infer_category vs
infer_category (int n ∷ vs) = infer_category vs
infer_category (list l ∷ vs) = infer_category vs
infer_category (obj o ∷ vs) = infer_category vs

-- raw_path: the value of "code", where it is a text
abbrev text_value : Option Json → Option String
text_value (some (str s)) = some s
text_value _ = none

-- A relative path below data/ is taken from the repository's root.
unfoldable pub editable_candidate : Files → String → String
unfolding replace_char starts_with
editable_candidate fs raw =
    let path = replace_char 0x5c "/" raw in
    if not (starts_with path "/") && starts_with path "data/" then fs.root ^^ "/" ^^ path else path

-- _resolve_editable_path, with the file that it finds
unfoldable pub resolve_editable : Files → Dict String Json → Option Source
unfolding lookup editable_candidate
resolve_editable fs arguments = elim (text_value (lookup "code" arguments)) [
  | none ↦ none
  | some raw ↦ if fs.is_blank raw then none else fs.source (editable_candidate fs raw)
]

-- captured.update(...): the last registration stays.
unfoldable pub last_captured : Option ToolFunc → List (Option ToolFunc) → Option ToolFunc
last_captured f [] = f
last_captured f (g ∷ gs) = last_captured g gs

abbrev pub malformed : String
malformed =
    "Tool code is not in the required MCP format: it must define a function decorated with @register_tool(name=..., description=..., input_schema=...). Regenerate the tool to produce a correctly-formatted file."

unfoldable pub load_source : Source → Result ToolFunc
unfolding last_captured
load_source s = elim s.compiled [
  | thrown e ↦ thrown e
  | ok _ ↦ elim s.raised [
    | some e ↦ thrown e
    | none ↦ elim (last_captured none s.captured) [
      | some f ↦ ok f
      | none ↦ thrown (exc value_error malformed)
    ]
  ]
]

-- _load_editable_func
unfoldable pub load_editable : Files → Dict String Json → Result (Option ToolFunc)
unfolding resolve_editable load_source
load_editable fs arguments = elim (resolve_editable fs arguments) [
  | none ↦ ok none
  | some s ↦ elim (load_source s) [ ok f ↦ ok (some f) | thrown e ↦ thrown e ]
]
