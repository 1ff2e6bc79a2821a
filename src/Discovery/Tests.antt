-- ===== src/Discovery/Tests.antt =====
-- Tests of the listing of tools, and its theorem at a concrete cache.
use grafux_mcp.Base.{
  contains, if_elim, ℕ, String, false, List, [], filter, if◌then◌else◌, lookup, none, refl, some,
  ◌==◌, ◌∷◌, ◌≡◌, nat_eq, string_eq, pair_eq,
}
use grafux_mcp.Exceptions.{Result, is_instance, ok}
use grafux_mcp.Json.{Json, dict, items, list, str}
use grafux_mcp.Cache.{empty_redis, expired, get}
use grafux_mcp.Discovery.{
  Env, ToolRow, find_tool, get_tool_schema, is_listed, list_tools, query_tools, row_entry,
}
use grafux_mcp.Router.{remote_sse}
use grafux_mcp.Client.{new_wrapper}
use grafux_mcp.Servers.{active}
use grafux_mcp.ToolRegistry.{has_duplicates, upsert_tools}
use grafux_mcp.Discovery.Service.{
  RawTool, ServerRow, Source, Store, discover, discover_each, chosen, discover_server, all_listed,
  upsert,
}
use grafux_mcp.Discovery.Refresh.{Fails, discover-refreshes}

abbrev search_tool : ToolRow
search_tool = record {
  id = "t1";
  server_id = "s1";
  org_id = "o";
  project_id = none;
  name = "search";
  description = "";
  input_schema = dict [];
  tool_type = "remote";
  category = some "web";
  status = "active";
}

abbrev draw_tool : ToolRow
draw_tool = record search_tool { id = "t2"; name = "draw"; category = some "art" }

abbrev cached_listing : Json
cached_listing = list (items (row_entry search_tool ∷ []))

abbrev at_start : Env
at_start = record {
  now = 100;
  dumps = λ v. "listing";
  loads = λ t. if t == "listing" then some cached_listing else none;
  rows = search_tool ∷ draw_tool ∷ [];
  local_tools = [];
}

abbrev a_minute_later : Env
a_minute_later = record at_start {
  now = 160;
  local_tools = (("name", str "echo") ∷ ("category", str "art") ∷ []) ∷ [];
}

other_organisation : query_tools at_start "x" none none ≡ []
unfolding query_tools is_listed filter
other_organisation = refl

schema_found : get_tool_schema at_start "t2" "o" ≡ some (dict [])
unfolding get_tool_schema find_tool
schema_found = refl

schema_hidden : get_tool_schema at_start "t2" "x" ≡ none
unfolding get_tool_schema find_tool
schema_hidden = refl

abbrev raw : String → RawTool
raw name = record {
  name = some name;
  description = none;
  input_schema = none;
  camel_input_schema = some (dict []);
  tool_type = none;
  category = none;
}

abbrev server_row : String → ServerRow
server_row id = record {
  server = record {
    id = id;
    org_id = "o";
    server_type = remote_sse;
    endpoint_url = some "http://s";
  };
  status = active;
}

-- s1 lists a name twice, s2 two names.
abbrev listing_of : String → Result (List RawTool)
listing_of id = if id == "s1" then ok (raw "a" ∷ raw "a" ∷ []) else ok (raw "b" ∷ raw "c" ∷ [])

abbrev both : Source
both = record {
  now = 100;
  dumps = λ v. "capabilities";
  servers = server_row "s1" ∷ server_row "s2" ∷ [];
  active_connections = ("s1", new_wrapper "sse") ∷ ("s2", new_wrapper "sse") ∷ [];
  list_tools = listing_of;
  local_names = [];
}

abbrev start_store : Store
start_store = record {
  rows = [];
  aborted = false;
  redis = record empty_redis {
    store = ("mcp:o:tools", ("[]", none)) ∷ ("mcp:o:project:p:tools", ("[1]", none)) ∷ [];
  };
}

one_server : (discover both "o" (some "s2") start_store).0 ≡ ok 2
unfolding discover discover_each chosen filter discover_server lookup all_listed upsert upsert_tools
    has_duplicates contains
one_server = refl

-- The refusal of the listing of s1 leaves the transaction aborted for s2.
later_refused : (discover both "o" none start_store).0 ≡ ok 0
unfolding discover discover_each chosen filter discover_server lookup all_listed upsert upsert_tools
    has_duplicates contains is_instance
later_refused = refl

listings_answer : (id : String) → Fails (listing_of id)
listings_answer id = if_elim (λ r. Fails r) (id == "s1") _ _ (λ q. tt) (λ q. tt)

discover-refreshes_example :
    (n : ℕ) × (((discover both "o" none start_store).0 ≡ ok n)
      × ((get 200 "mcp:o:project:p:tools" (discover both "o" none start_store).1.redis).0
          ≡ some "[1]"))
unfolding get expired lookup
discover-refreshes_example =
    discover-refreshes both 200 "mcp:o:project:p:tools" "o" none start_store listings_answer
      (refl, (refl, tt))
