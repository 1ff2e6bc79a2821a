-- ===== src/ToolRegistry/Tests.antt =====
-- Tests of the tool registry, and its theorem at concrete rows.
use grafux_mcp.Base.{
  String, [], contains, false, insert, lookup, none, refl, some, true, ◌∷◌, ◌≡◌, nat_eq, string_eq,
  pair_eq,
}
use grafux_mcp.Json.{null}
use grafux_mcp.ToolRegistry.{
  Listed, Rows, has_duplicates, listed_status, mark_missing, names, new_row, status_of, unavailable,
  upsert_each, upsert_tools,
}
use grafux_mcp.ToolRegistry.Statuses.{upsert_tools_lem}

abbrev listed : String → Listed
listed n = record {
  name = n;
  description = "";
  input_schema = null;
  tool_type = "generic";
  category = none;
}

abbrev rows : Rows
rows =
    ((("s", "o"), "old"), new_row (listed "old"))
    ∷ ((("s", "o"), "kept"), new_row (listed "kept"))
    ∷ []

vanished :
    status_of (("s", "o"), "old") (upsert_tools "s" "o" (listed "kept" ∷ []) rows).1
    ≡ some unavailable
unfolding status_of upsert_tools upsert_each mark_missing lookup insert contains
vanished = refl

refused_twice : (upsert_tools "s" "o" (listed "kept" ∷ listed "kept" ∷ []) rows).1 ≡ rows
unfolding upsert_tools contains
refused_twice = refl

upsert_tools_lem_example :
    let ts = listed "kept" ∷ listed "new" ∷ [] in
    (has_duplicates (names ts) ≡ false
      → status_of (("s", "o"), "old") (upsert_tools "s" "o" ts rows).1
        ≡ listed_status "s" "o" (names ts) (("s", "o"), "old") (status_of (("s", "o"), "old") rows))
    × ((upsert_tools "s" "o" [] rows).1 ≡ rows)
    × (has_duplicates (names ts) ≡ true → (upsert_tools "s" "o" ts rows).1 ≡ rows)
upsert_tools_lem_example =
    upsert_tools_lem "s" "o" (listed "kept") (listed "new" ∷ []) rows (("s", "o"), "old")
