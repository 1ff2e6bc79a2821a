-- ===== src/ToolRegistry.antt =====
-- core/registry/tool_registry.py: the rows of the tools that a server lists.
pub mod Statuses
pub mod Tests
use grafux_mcp.Base.{
  Bool, Dict, List, Option, String, [], contains, false, if◌then◌else◌, insert, length, lookup,
  none, not, some, true, ℕ, ◌&&◌, ◌==◌, ◌||◌, ◌∷◌, nat_eq, string_eq, pair_eq,
}
use grafux_mcp.Json.{Json}
use grafux_mcp.Exceptions.{Result, exc, exception, ok, thrown}

-- models/mcp_tool.py: ToolStatus
pub data ToolStatus : Type 0 where
  available unavailable deprecated : ToolStatus

-- The columns of MCPTool beside its key.
pub record Row : Type 0 where
  pub description : String
  pub input_schema : Json
  pub tool_type : String
  pub category : Option String
  pub status : ToolStatus

-- The unique key: server, organisation, name.
abbrev pub RowKey : Type 0
RowKey = (String × String) × String

abbrev pub Rows : Type 0
Rows = Dict RowKey Row

-- A tool of the listing, with the defaults of its missing entries filled in.
pub record Listed : Type 0 where
  pub name : String
  pub description : String
  pub input_schema : Json
  pub tool_type : String
  pub category : Option String

abbrev pub names : List Listed → List String
names [] = []
names (t ∷ ts) = t.name ∷ names ts

-- UPDATE ... WHERE server_id = ... AND name NOT IN (...)
unfoldable pub mark_missing : String → List String → Rows → Rows
unfolding contains
mark_missing server incoming [] = []
mark_missing server incoming ((k, row) ∷ rows) =
    let rest = mark_missing server incoming rows in
    if k.0.0 == server && not (contains incoming k.1)
    then (k, record row { status = unavailable }) ∷ rest
    else (k, row) ∷ rest

abbrev pub new_row : Listed → Row
new_row t = record {
  description = t.description;
  input_schema = t.input_schema;
  tool_type = t.tool_type;
  category = t.category;
  status = available;
}

-- ON CONFLICT DO UPDATE: the type and the category of a row that is there stay.
abbrev pub upserted : Listed → Option Row → Row
upserted t none = new_row t
upserted t (some row) = record row {
  description = t.description;
  input_schema = t.input_schema;
  status = available;
}

unfoldable pub upsert_each : String → String → List Listed → Rows → Rows
upsert_each server org [] rows = rows
upsert_each server org (t ∷ ts) rows =
    let k : RowKey = ((server, org), t.name) in
    upsert_each server org ts (insert k (upserted t (lookup k rows)) rows)

unfoldable pub has_duplicates : List String → Bool
unfolding contains
has_duplicates [] = false
has_duplicates (n ∷ ns) = contains ns n || has_duplicates ns

-- PostgreSQL refuses a statement that would update one row twice; nothing is committed then.
abbrev pub run_upsert : Bool → String → String → List Listed → Rows → Result ℕ × Rows
run_upsert true server org tools rows =
    (thrown (exc exception "ON CONFLICT DO UPDATE command cannot affect row a second time"), rows)
run_upsert false server org tools rows =
    (ok (length tools), upsert_each server org tools (mark_missing server (names tools) rows))

unfoldable pub upsert_tools : String → String → List Listed → Rows → Result ℕ × Rows
unfolding has_duplicates
upsert_tools server org [] rows = (ok 0, rows)
upsert_tools server org (t ∷ ts) rows =
    run_upsert (has_duplicates (names (t ∷ ts))) server org (t ∷ ts) rows

unfoldable pub status_of : RowKey → Rows → Option ToolStatus
status_of k rows = elim (lookup k rows) [ none ↦ none | some row ↦ some row.status ]

-- The status of a row that the listing does not name.
abbrev pub lost : Option ToolStatus → Option ToolStatus
lost none = none
lost (some x) = some unavailable

-- The status that a listing gives to a row.
abbrev pub listed_status :
    String → String → List String → RowKey → Option ToolStatus → Option ToolStatus
listed_status server org incoming ((s, o), n) before =
    if s == server
    then if contains incoming n then if o == org then some available else before else lost before
    else before
