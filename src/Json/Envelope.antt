-- ===== src/Json/Envelope.antt =====
-- core/errors.py: the MCP result envelope.
use grafux_mcp.Base.{
  Bool, Dict, String, [], false, has, lookup, none, refl, some, true, ◌∷◌, ◌≡◌, nat_eq, string_eq,
  pair_eq,
}
use grafux_mcp.Json.{Json, bool, cons, dict, entries, list, nil, obj, str, truthy}

abbrev pub text_item : String → Json
text_item t = dict (("type", str "text") ∷ ("text", str t) ∷ [])

abbrev pub text_content : String → Json
text_content t = list (cons (text_item t) nil)

-- A successful MCP text result.
unfoldable pub tool_text : String → Json
tool_text t = dict (("content", text_content t) ∷ [])

-- `diagnostics` is the empty dict where the caller gives none.
unfoldable pub tool_error : String → Dict String Json → Json
tool_error message [] = dict (("content", text_content message) ∷ ("isError", bool true) ∷ [])
tool_error message (d ∷ ds) = dict (
    ("content", text_content message)
    ∷ ("isError", bool true)
    ∷ ("diagnostics", dict (d ∷ ds))
    ∷ [])

-- isinstance(v, dict) and "content" in v
unfoldable pub has_content : Json → Bool
unfolding has
has_content (obj fs) = has "content" (entries fs)
has_content v = false

-- bool(v.get("isError"))
unfoldable pub is_error : Json → Bool
unfolding lookup truthy
is_error (obj fs) = elim (lookup "isError" (entries fs)) [ none ↦ false | some v ↦ truthy v ]
is_error v = false

pub tool_error-has_content :
    (m : String) (d : Dict String Json)
    → (has_content (tool_error m d) ≡ true) × (is_error (tool_error m d) ≡ true)
unfolding tool_error has_content is_error
tool_error-has_content m [] = (refl, refl)
tool_error-has_content m (x ∷ d) = (refl, refl)

pub tool_text-has_content :
    (m : String) → (has_content (tool_text m) ≡ true) × (is_error (tool_text m) ≡ false)
unfolding tool_text has_content is_error
tool_text-has_content m = (refl, refl)
