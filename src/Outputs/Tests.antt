-- ===== src/Outputs/Tests.antt =====
-- Tests of the output files, and their theorem at a concrete disk.
use grafux_mcp.Base.{
  [], if◌then◌else◌, none, refl, some, ◌==◌, ◌∷◌, ◌≡◌, nat_eq, string_eq, pair_eq,
}
use grafux_mcp.Json.{str}
use grafux_mcp.Exceptions.{ok}
use grafux_mcp.Outputs.{Disk, infer_output_port_paths, normalize_rel_path}

-- One readable file, outside of data/.
abbrev disk : Disk
disk = record {
  texts = λ d. if d == "data/u/p/tools/c/t/outputs" then some ("out.txt" ∷ []) else none;
  text = λ p. if p == "app/config.py" then some (ok "secret") else none;
  strip = λ s. s;
  suffix = λ s. "";
  sibling = λ p s. none;
}

normalized : normalize_rel_path "\\/a\\b//c" ≡ "a/b//c"
unfolding normalize_rel_path
normalized = refl

inferred :
    infer_output_port_paths disk (("a", str "/data/u/p/tools/c/t/inputs/a.txt") ∷ [])
    ≡ "out.txt" ∷ []
unfolding infer_output_port_paths
inferred = refl
