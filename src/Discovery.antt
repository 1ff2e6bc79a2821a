-- ===== src/Discovery.antt =====
-- api/v1/discovery.py: the listing of tools with its cache, and one tool.
pub mod Listing
pub mod Service
pub mod Refresh
pub mod Tests
use grafux_mcp.Base.{
  Bool, Dict, lookup, List, Option, String, [], false, filter, if◌then◌else◌, none, not, some, true,
  ℕ, ◌&&◌, ◌++◌, ◌==◌, ◌^^◌, ◌||◌, ◌∷◌, nat_eq, string_eq, pair_eq,
}
use grafux_mcp.Exceptions.{Result, exc, json_decode, ok, thrown, type_error}
use grafux_mcp.Json.{Items, Json, cons, dict, null, given, items, list, nil, str, truthy}
use grafux_mcp.Cache.{Redis, cache_get, cache_set}

-- A row of mcp_tools, with its identifiers as texts.
pub record ToolRow : Type 0 where
  pub id : String
  pub server_id : String
  pub org_id : String
  pub project_id : Option String
  pub name : String
  pub description : String
  pub input_schema : Json
  pub tool_type : String
  pub category : Option String
  pub status : String

-- A local plugin tool, as list_local_tools gives it: a dict.
abbrev pub LocalTool : Type 0
LocalTool = Dict String Json

-- The clock, json.dumps and json.loads (nothing for an error), the rows and the local tools.
pub record Env : Type 0 where
  pub now : ℕ
  pub dumps : Json → String
  pub loads : String → Option Json
  pub rows : List ToolRow
  pub local_tools : List LocalTool

abbrev pub ttl_tools : ℕ
ttl_tools = 300

-- MCPKeys.org_tools
abbrev pub org_tools : (org_id : String) → String
org_tools org_id = "mcp:" ^^ org_id ^^ ":tools"

-- MCPKeys.project_tools
abbrev pub project_tools : (org_id project_id : String) → String
project_tools org_id project_id = "mcp:" ^^ org_id ^^ ":project:" ^^ project_id ^^ ":tools"

-- cache_key
abbrev pub tools_key : (org_id : String) → (project_id : Option String) → String
tools_key org_id none = org_tools org_id
tools_key org_id (some project) = project_tools org_id project

-- a == b, for a column that can be missing
abbrev pub is_text : Option String → String → Bool
is_text none t = false
is_text (some s) t = s == t

abbrev pub of_project : Option String → ToolRow → Bool
of_project none row = true
of_project (some project) row =
    is_text row.project_id project || elim row.project_id [ none ↦ true | some p ↦ false ]

-- if category: ...
unfoldable pub of_category : (wanted category : Option String) → Bool
unfolding given
of_category wanted category =
    not (given wanted) || elim wanted [ none ↦ true | some w ↦ is_text category w ]

unfoldable pub is_listed : String → (project category : Option String) → ToolRow → Bool
unfolding of_category
is_listed org project category row =
    row.org_id == org && of_project project row && of_category category row.category

abbrev text_or_none : Option String → Json
text_or_none none = null
text_or_none (some s) = str s

unfoldable pub row_entry : ToolRow → Json
row_entry t = dict (
    ("id", str t.id)
    ∷ ("server_id", str t.server_id)
    ∷ ("org_id", str t.org_id)
    ∷ ("project_id", text_or_none t.project_id)
    ∷ ("name", str t.name)
    ∷ ("description", str t.description)
    ∷ ("input_schema", t.input_schema)
    ∷ ("tool_type", str t.tool_type)
    ∷ ("category", text_or_none t.category)
    ∷ ("status", str t.status)
    ∷ ("source", str "registered")
    ∷ [])

abbrev pub row_entries : List ToolRow → List Json
row_entries [] = []
row_entries (row ∷ rows) = row_entry row ∷ row_entries rows

-- The tools of the database that a request selects.
unfoldable pub query_tools : Env → String → (project category : Option String) → List Json
unfolding is_listed filter
query_tools env org project category =
    row_entries (filter (is_listed org project category) env.rows)

abbrev pub local_entries : List LocalTool → List Json
local_entries [] = []
local_entries (t ∷ ts) = dict t ∷ local_entries ts

-- t.get("category")
abbrev local_category : LocalTool → Option String
local_category t = elim (lookup "category" t) [
  | none ↦ none
  | some v ↦ elim v [ str s ↦ some s | w ↦ none ]
]

unfoldable pub local_listing : Env → (category : Option String) → (include_local : Bool) → List Json
unfolding of_category filter lookup
local_listing env category include_local =
    if include_local
    then local_entries (filter (λ t. of_category category (local_category t)) env.local_tools)
    else []

abbrev pub item_list : Items → List Json
item_list nil = []
item_list (cons v vs) = v ∷ item_list vs

-- cached if isinstance(cached, list) else json.loads(cached), to which a list is then added
unfoldable pub cached_tools : Env → Json → Result (List Json)
cached_tools env (list vs) = ok (item_list vs)
cached_tools env (str s) = elim (env.loads s) [
  | none ↦ thrown (exc json_decode "Expecting value")
  | some v ↦ elim v [
    | list vs ↦ ok (item_list vs)
    | w ↦ thrown (exc type_error "can only concatenate list")
  ]
]
cached_tools env v = thrown (exc type_error "the JSON object must be str, bytes or bytearray")

abbrev pub fresh_tools : Env → String → List Json → Redis → Result (List Json) × Redis
fresh_tools env key tools r =
    (ok tools, cache_set env.now key (env.dumps (list (items tools))) (some ttl_tools) r)

-- What the cache has, if it is truthy, or else what the query gives, which is cached.
unfoldable pub registered_tools :
    Env → String → (tools : List Json) → Option Json × Redis → Result (List Json) × Redis
unfolding cached_tools cache_set truthy
registered_tools env key tools (none, r) = fresh_tools env key tools r
registered_tools env key tools (some v, r) =
    if truthy v then (cached_tools env v, r) else fresh_tools env key tools r

abbrev pub with_local : List Json → Result (List Json) × Redis → Result (List Json) × Redis
with_local local (ok tools, r) = (ok (tools ++ local), r)
with_local local (thrown e, r) = (thrown e, r)

unfoldable pub list_tools :
    Env
    → (org_id : String) → (project_id category : Option String) → (include_local : Bool) → Redis
    → Result (List Json) × Redis
unfolding registered_tools query_tools local_listing cache_get
list_tools env org_id project_id category include_local r =
    let key = tools_key org_id project_id in
    with_local (local_listing env category include_local) (
      registered_tools env key (query_tools env org_id project_id category)
        (cache_get env.loads env.now key r))

-- get_tool: the row of the organisation, or a 404
unfoldable pub find_tool : (tool_id org_id : String) → List ToolRow → Option ToolRow
find_tool tool_id org_id [] = none
find_tool tool_id org_id (row ∷ rows) =
    if row.id == tool_id && row.org_id == org_id then some row else find_tool tool_id org_id rows

unfoldable pub get_tool_schema : Env → (tool_id org_id : String) → Option Json
unfolding find_tool
get_tool_schema env tool_id org_id = elim (find_tool tool_id org_id env.rows) [
  | none ↦ none
  | some row ↦ some row.input_schema
]
