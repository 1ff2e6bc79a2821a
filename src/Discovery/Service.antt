-- ===== src/Discovery/Service.antt =====
-- services/discovery_service.py: the tools of the servers go into the tool registry, and
-- core/registry/capability_registry.py. The database session of a request is one transaction after
-- another: PostgreSQL refuses every statement after one that it has refused.
use grafux_mcp.Base.{
  Bool, Dict, List, Option, String, [], false, filter, if◌then◌else◌, length, lookup, none, some,
  true, ℕ, ◌&&◌, ◌+◌, ◌==◌, ◌∷◌, nat_eq, string_eq, pair_eq,
}
use grafux_mcp.Exceptions.{Result, exc, exception, is_instance, key_error, ok, thrown, ◌>>=◌}
use grafux_mcp.Json.{null, Json, dict, items, list, nil, str, truthy}
use grafux_mcp.Router.{ServerType, local_plugin, remote_sse, remote_http, composio, e2b, device}
use grafux_mcp.Cache.{Redis, cache_delete, cache_get, cache_set}
use grafux_mcp.Client.{Wrapper}
use grafux_mcp.Servers.{
  Server, ServerStatus, active, error, connecting, inactive, server_capabilities, ttl_capabilities,
}
use grafux_mcp.ToolRegistry.{Listed, Rows, has_duplicates, names, upsert_tools}
use grafux_mcp.Discovery.{org_tools}

-- A dict of a listing, with texts where there are any; camel_input_schema is "inputSchema".
pub record RawTool : Type 0 where
  pub name : Option String
  pub description : Option String
  pub input_schema : Option Json
  pub camel_input_schema : Option Json
  pub tool_type : Option String
  pub category : Option String

-- A row of mcp_servers.
pub record ServerRow : Type 0 where
  pub server : Server
  pub status : ServerStatus

-- The tools' rows, whether the transaction has been refused, and the cache.
pub record Store : Type 0 where
  pub rows : Rows
  pub aborted : Bool
  pub redis : Redis

-- The clock, json.dumps, the rows of the servers, _active_connections, what a client's list_tools
-- gives, and the names of the local tools.
pub record Source : Type 0 where
  pub now : ℕ
  pub dumps : Json → String
  pub servers : List ServerRow
  pub active_connections : Dict String Wrapper
  pub list_tools : String → Result (List RawTool)
  pub local_names : List String

abbrev pub or_text : Option String → String → String
or_text none default = default
or_text (some s) default = s

-- bool(t.get(...))
unfoldable pub given_json : Option Json → Bool
unfolding truthy
given_json none = false
given_json (some v) = truthy v

abbrev or_json : Option Json → Json
or_json none = null
or_json (some v) = v

-- t.get("input_schema") or t.get("camel_input_schema") or {}
unfoldable pub schema_of : Option Json → Option Json → Json
unfolding given_json
schema_of v w = if given_json v then or_json v else if given_json w then or_json w else dict []

abbrev pub listed_of : String → RawTool → Listed
listed_of name t = record {
  name = name;
  description = or_text t.description "";
  input_schema = schema_of t.input_schema t.camel_input_schema;
  tool_type = or_text t.tool_type "generic";
  category = t.category;
}

-- t["name"], or a KeyError
abbrev pub list_named : RawTool → Option String → Result (List Listed) → Result (List Listed)
list_named t none rest = thrown (exc key_error "'name'")
list_named t (some name) rest = rest >>= λ ts. ok (listed_of name t ∷ ts)

unfoldable pub all_listed : List RawTool → Result (List Listed)
unfolding schema_of
all_listed [] = ok []
all_listed (t ∷ ts) = list_named t t.name (all_listed ts)

-- upsert_tools in the session: a refusal leaves the transaction aborted.
unfoldable pub upsert : (server_id org_id : String) → List Listed → Store → Result ℕ × Store
unfolding upsert_tools has_duplicates
upsert server_id org_id [] w = (ok 0, w)
upsert server_id org_id (t ∷ ts) w =
    let r = upsert_tools server_id org_id (t ∷ ts) w.rows in
    if w.aborted
    then (thrown (exc exception "current transaction is aborted"), w)
    else (r.0, record w { rows = r.1; aborted = has_duplicates (names (t ∷ ts)) })

abbrev pub text_items : List String → List Json
text_items [] = []
text_items (n ∷ ns) = str n ∷ text_items ns

-- store_capabilities, with no resources and no prompts
unfoldable pub store_capabilities : Source → (server_id : String) → List String → Store → Store
unfolding cache_set
store_capabilities v server_id tools w = record w {
  redis =
      cache_set v.now (server_capabilities server_id)
        (v.dumps (
          dict (
            ("server_id", str server_id)
            ∷ ("tools", list (items (text_items tools)))
            ∷ ("resources", list nil)
            ∷ ("prompts", list nil)
            ∷ [])))
        (some ttl_capabilities) w.redis;
}

unfoldable pub get_capabilities :
    (loads : String → Option Json) → ℕ → (server_id : String) → Redis → Option Json × Redis
unfolding cache_get
get_capabilities loads now server_id r = cache_get loads now (server_capabilities server_id) r

unfoldable pub invalidate_capabilities : (server_id : String) → Redis → Redis
unfolding cache_delete
invalidate_capabilities server_id r = cache_delete (server_capabilities server_id) r

-- The names of the listing are cached once it is stored.
abbrev pub stored :
    Source → (server_id : String) → List Listed → Result ℕ × Store → Result ℕ × Store
stored v server_id ts (thrown e, w) = (thrown e, w)
stored v server_id ts (ok count, w) = (ok count, store_capabilities v server_id (names ts) w)

abbrev pub store_listing : Source → Server → Result (List Listed) → Store → Result ℕ × Store
store_listing v s (thrown e) w = (thrown e, w)
store_listing v s (ok ts) w = stored v s.id ts (upsert s.id s.org_id ts w)

abbrev pub is_local : ServerType → Bool
is_local local_plugin = true
is_local remote_sse = false
is_local remote_http = false
is_local composio = false
is_local e2b = false
is_local device = false

-- _discover_server
unfoldable pub discover_server : Source → Server → Store → Result ℕ × Store
unfolding store_capabilities upsert all_listed lookup
discover_server v s w =
    if is_local s.server_type
    then (ok (length v.local_names), store_capabilities v s.id v.local_names w)
    else (elim (lookup s.id v.active_connections) [
      | none ↦ (ok 0, w)
      | some client ↦ store_listing v s (v.list_tools s.id >>= all_listed) w
    ])

abbrev pub is_active_status : ServerStatus → Bool
is_active_status active = true
is_active_status inactive = false
is_active_status connecting = false
is_active_status error = false

-- The servers of the request: the one of the organisation that it names, or all active ones.
unfoldable pub chosen : (org_id : String) → (server_id : Option String) → ServerRow → Bool
chosen org_id none row = row.server.org_id == org_id && is_active_status row.status
chosen org_id (some id) row = row.server.id == id && row.server.org_id == org_id

-- An exception of one server is logged; a cancellation goes on.
abbrev pub count_server : ℕ → Result ℕ × Store → Result ℕ × Store
count_server total (ok n, w) = (ok (total + n), w)
count_server total (thrown e, w) = if is_instance e exception then (ok total, w) else (thrown e, w)

unfoldable pub discover_each : Source → List ServerRow → ℕ → Store → Result ℕ × Store
unfolding discover_server is_instance
discover_each v [] total w = (ok total, w)
discover_each v (row ∷ rows) total w =
    let o = count_server total (discover_server v row.server w) in
    elim o.0 [ thrown e ↦ (thrown e, o.1) | ok total' ↦ discover_each v rows total' o.1 ]

-- The listing of the organisation is taken out of the cache at the end.
abbrev pub then_invalidate : (org_id : String) → Result ℕ × Store → Result ℕ × Store
then_invalidate org_id (thrown e, w) = (thrown e, w)
then_invalidate org_id (ok total, w) =
    (ok total, record w { redis = cache_delete (org_tools org_id) w.redis })

unfoldable pub discover :
    Source → (org_id : String) → (server_id : Option String) → Store → Result ℕ × Store
unfolding discover_each chosen filter cache_delete
discover v org_id server_id w =
    then_invalidate org_id (discover_each v (filter (chosen org_id server_id) v.servers) 0 w)
