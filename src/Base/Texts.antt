-- ===== src/Base/Texts.antt =====
-- Python's text methods over the native `String`, by its characters.
use Prim.Native.Char.{Char, code}
use Prim.Native.Nat.{ℕ}
use Prim.Native.String
use Prim.Native.String.{String}
use mathlib.Core.Path.{◌≡◌, refl}
use mathlib.Core.Bool.{Bool, true, false, not, ◌&&◌, ◌||◌}
use mathlib.Core.List.{List, [], ◌∷◌}
use grafux_mcp.Base.Tests.{◌==◌, if◌then◌else◌, nat_eq, string_eq}

infixl 65 ◌^^◌
-- s + t
abbrev pub ◌^^◌ : String → String → String
s ^^ t = String.◌++◌ s t

-- the last character appended
abbrev push : String → Char → String
push s c = s ^^ String.◌∷◌ c String.[]

-- bool(s)
unfoldable pub truthy_text : String → Bool
truthy_text String.[] = false
truthy_text (String.◌∷◌ c s) = true

-- s.startswith(t), with the arguments as `starts_with s t`
unfoldable pub starts_with : String → String → Bool
starts_with s String.[] = true
starts_with String.[] (String.◌∷◌ d t) = false
starts_with (String.◌∷◌ c s) (String.◌∷◌ d t) = code c == code d && starts_with s t

-- t in s, with the arguments as `has_text s t`
unfoldable pub has_text : String → String → Bool
unfolding starts_with
has_text String.[] t = starts_with "" t
has_text (String.◌∷◌ c s) t = starts_with (String.◌∷◌ c s) t || has_text s t

split_from : ℕ → String → String → List String
split_from sep cur String.[] = cur ∷ []
split_from sep cur (String.◌∷◌ c s) =
    let closed = cur ∷ split_from sep "" s in
    let longer = split_from sep (push cur c) s in if code c == sep then closed else longer

-- s.split(sep) for a separator of one character, given by its code
unfoldable pub split : String → ℕ → List String
unfolding split_from
split s sep = split_from sep "" s

-- the text after the first `t` in `s`: s.split(t, 1)[1]
unfoldable pub drop_prefix : String → String → String
drop_prefix s String.[] = s
drop_prefix String.[] (String.◌∷◌ d t) = ""
drop_prefix (String.◌∷◌ c s) (String.◌∷◌ d t) = drop_prefix s t

unfoldable pub after : String → String → String
unfolding starts_with drop_prefix
after String.[] t = ""
after (String.◌∷◌ c s) t =
    let rest = after s t in
    if starts_with (String.◌∷◌ c s) t then drop_prefix (String.◌∷◌ c s) t else rest

-- s.replace(a, b) for single characters, given by the codes of `a` and the text of `b`
unfoldable pub replace_char : ℕ → String → String → String
replace_char a b String.[] = ""
replace_char a b (String.◌∷◌ c s) =
    if code c == a then b ^^ replace_char a b s else String.◌∷◌ c (replace_char a b s)

-- "/".join(parts)
unfoldable pub joined : List String → String
joined [] = ""
joined (p ∷ []) = p
joined (p ∷ q ∷ ps) = p ^^ "/" ^^ joined (q ∷ ps)

-- the parts without the last
abbrev pub without_last : List String → List String
without_last [] = []
without_last (p ∷ []) = []
without_last (p ∷ q ∷ ps) = p ∷ without_last (q ∷ ps)

-- s.endswith(t), with the arguments as `ends_with s t`
unfoldable pub ends_with : String → String → Bool
ends_with String.[] t = "" == t
ends_with (String.◌∷◌ c s) t = String.◌∷◌ c s == t || ends_with s t

lstrip_code : ℕ → String → String
lstrip_code a String.[] = ""
lstrip_code a (String.◌∷◌ c s) =
    let rest = lstrip_code a s in if code c == a then rest else String.◌∷◌ c s

rstrip_code : ℕ → String → String
unfolding truthy_text
rstrip_code a String.[] = ""
rstrip_code a (String.◌∷◌ c s) =
    let rest = rstrip_code a s in
    if code c == a && not (truthy_text rest) then "" else String.◌∷◌ c rest

-- s.strip(a) for a single character, given by its code
unfoldable pub strip_code : ℕ → String → String
unfolding lstrip_code rstrip_code
strip_code a s = lstrip_code a (rstrip_code a s)

split_test : split "a/b//c" b'/' ≡ "a" ∷ "b" ∷ "" ∷ "c" ∷ []
unfolding split
split_test = refl

after_test : after "data/x/tools/c/t" "/tools/" ≡ "c/t"
unfolding after
after_test = refl

strip_test : strip_code b'"' "\"a\"b\"" ≡ "a\"b"
unfolding strip_code
strip_test = refl

ends_with_test : (ends_with "a/b/" "/" ≡ true) × (ends_with "a.py" ".pyc" ≡ false)
unfolding ends_with
ends_with_test = (refl, refl)
