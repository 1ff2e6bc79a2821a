-- ===== src/Outputs.antt =====
-- core/runtime/output_files.py: the output port files that are sent back with a result.
pub mod Tests
use grafux_mcp.Base.{
  Dict, List, Option, String, [], contains, if◌then◌else◌, joined, none, replace_char, some, split,
  starts_with, truthy_text, values, without_last, ◌++◌, ◌^^◌, ◌∷◌, nat_eq, string_eq, pair_eq,
}
use grafux_mcp.Json.{Json, bool, dict, int, list, null, obj, str}
use grafux_mcp.Exceptions.{Result, ok}

-- The data directory, by paths relative to the repository's root, and pathlib's text functions.
pub record Disk : Type 0 where
  -- the sorted *.txt files of a directory, if it is one
  pub texts : String → Option (List String)
  -- read_text, for a path that exists
  pub text : String → Option (Result String)
  pub strip : String → String
  -- Path(name).suffix.lower()
  pub suffix : String → String
  -- the bytes, in base64, of the file with this name beside the path, if it exists
  pub sibling : String → String → Option (Result String)

abbrev pub binary_suffixes : List String
binary_suffixes = ".png" ∷ ".jpg" ∷ ".jpeg" ∷ ".webp" ∷ ".pdf" ∷ []

unfoldable pub lstrip_slash : List String → List String
unfolding truthy_text
lstrip_slash [] = []
lstrip_slash (p ∷ ps) = let rest = lstrip_slash ps in if truthy_text p then p ∷ ps else rest

-- rel.replace("\\", "/").lstrip("/"): the empty parts before the first other one are dropped.
unfoldable pub normalize_rel_path : String → String
unfolding replace_char split lstrip_slash joined
normalize_rel_path rel = joined (lstrip_slash (split (replace_char 0x5c "/" rel) b'/'))

-- norm.split("/inputs/", 1)[0], if the text is there
unfoldable pub before : String → String → Option String
unfolding starts_with
before String.[] t = none
before (String.◌∷◌ c s) t =
    let rest = before s t in
    if starts_with (String.◌∷◌ c s) t
    then some ""
    else elim rest [ none ↦ none | some b ↦ some (String.◌∷◌ c b) ]

unfoldable pub tool_base : List Json → Option String
unfolding before normalize_rel_path
tool_base [] = none
tool_base (str val ∷ vs) = elim (before (normalize_rel_path val) "/inputs/") [
  | some b ↦ some b
  | none ↦ tool_base vs
]
tool_base (null ∷ vs) = tool_base vs
tool_base (bool b ∷ vs) = tool_base vs
tool_base (int n ∷ vs) = tool_base vs
tool_base (list l ∷ vs) = tool_base vs
tool_base (obj o ∷ vs) = tool_base vs

unfoldable pub infer_output_port_paths : Disk → Dict String Json → List String
unfolding tool_base truthy_text
infer_output_port_paths disk arguments = elim (tool_base (values arguments)) [
  | none ↦ []
  | some b ↦
      if truthy_text b
      then (elim (disk.texts (b ^^ "/outputs")) [ none ↦ [] | some paths ↦ paths ])
      else []
]

abbrev pub directory_of : List String → List String
directory_of (p ∷ []) = p ∷ []
directory_of ps = without_last ps

abbrev pub text_entry : String → String → Json
text_entry path content = dict (("path", str path) ∷ ("content", str content) ∷ [])

-- The file that the text names, if it is an image or a PDF that can be read.
unfoldable pub binary_entry : Disk → String → String → List Json
unfolding contains split joined
binary_entry disk rel content =
    let name = disk.strip content in
    if contains binary_suffixes (disk.suffix name)
    then (elim (disk.sibling rel name) [
      | some (ok data64) ↦
          dict (
            ("path", str (joined (directory_of (split rel b'/')) ^^ "/" ^^ name))
            ∷ ("content", str data64)
            ∷ ("encoding", str "base64")
            ∷ [])
          ∷ []
      | _ ↦ []
    ])
    else []

unfoldable pub read_one : Disk → String → List Json
unfolding binary_entry
read_one disk rel = elim (disk.text rel) [
  | some (ok content) ↦ text_entry rel content ∷ binary_entry disk rel content
  | _ ↦ []
]

unfoldable pub read_output_files : Disk → List String → List Json
read_output_files disk [] = []
read_output_files disk (rel ∷ paths) =
    read_one disk (normalize_rel_path rel) ++ read_output_files disk paths
