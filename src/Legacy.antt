-- ===== src/Legacy.antt =====
-- api/legacy.py: the endpoints that the shipped clients call.
pub mod Calls
pub mod Answers
pub mod Tests
use grafux_mcp.Base.{
  Bool, Dict, List, Option, String, [], erase, false, if◌then◌else◌, length, lookup, ltb, none,
  some, true, ℕ, ◌+◌, ◌||◌, ◌∷◌, nat_eq, string_eq, pair_eq,
}
use grafux_mcp.Exceptions.{Result, runtime}
use grafux_mcp.Json.{Items, Json, cons, dict, entries, given, list, nil, null, obj, str, truthy}
use grafux_mcp.Plugins.{Registry}
use grafux_mcp.Plugins.Tree.{Counts, reload_plugins}
use grafux_mcp.Tools.Executor.{Runtime}
use grafux_mcp.Outputs.{Disk}
use grafux_mcp.Sync.{Cloud, Local, Report, done, failed, nothing}
use grafux_mcp.Sync.Single.{sync_tool}
use grafux_mcp.Sync.Supabase.{Supabase, sync_tool_from_supabase}

-- The tool runtime, the disk of the output files, the cloud, and whether the time limit passes before
-- the first and the second run of a tool.
pub record Host : Type 0 where
  pub runtime : Runtime
  pub disk : Disk
  pub supabase : Supabase
  pub cloud : Cloud
  pub first_times_out : Bool
  pub second_times_out : Bool

-- body.pop(key, None), and the body without the key
abbrev pub pop : String → Dict String Json → Json × Dict String Json
pop key body = (elim (lookup key body) [ none ↦ null | some v ↦ v ], erase key body)

-- _normalize_body, also for a body that cannot be parsed
abbrev pub normalize_body : Option Json → Dict String Json
normalize_body (some (obj fs)) = entries fs
normalize_body _ = []

-- The second key is only popped where the first one gives nothing.
unfoldable pub pop_paths : Dict String Json → Json × Dict String Json
unfolding truthy lookup erase
pop_paths body =
    let (v, rest) = pop "__output_port_paths__" body in
    if truthy v then (v, rest) else pop "output_port_paths" rest

unfoldable pub texts_of : Items → List String
texts_of nil = []
texts_of (cons (str s) vs) = s ∷ texts_of vs
texts_of (cons _ vs) = texts_of vs

abbrev pub path_list : Json → List String
path_list (list vs) = texts_of vs
path_list _ = []

-- A name from the query, or else from the body, where it is a text.
abbrev pub text_value : Json → Option String
text_value (str s) = some s
text_value _ = none

unfoldable pub name_of : (query : Option String) → (key : String) → Dict String Json → Option String
unfolding given lookup
name_of query key body = if given query then query else text_value (pop key body).0

-- What a request asks for: "arguments" is the object of that key, or the rest of the body.
pub record Request : Type 0 where
  pub paths : List String
  pub username : Option String
  pub project : Option String
  pub category : Option String
  pub arguments : Json

unfoldable pub request_of : (username project : Option String) → Option Json → Request
unfolding pop_paths texts_of name_of lookup erase
request_of username project body =
    let (paths, args) = pop_paths (normalize_body body) in
    let rest = erase "category" (erase "project" (erase "username" args)) in
    record {
      paths = path_list paths;
      username = name_of username "username" args;
      project = name_of project "project" (erase "username" args);
      category = text_value (pop "category" (erase "project" (erase "username" args))).0;
      arguments = elim (lookup "arguments" rest) [ none ↦ dict rest | some v ↦ v ];
    }

abbrev pub files_synced : Report → ℕ
files_synced (failed e) = 0
files_synced nothing = 0
files_synced (done synced skipped deleted loaded) = synced

abbrev pub tools_loaded : Report → ℕ
tools_loaded (failed e) = 0
tools_loaded nothing = 0
tools_loaded (done synced skipped deleted loaded) = loaded

abbrev pub succeeded : Report → Bool
succeeded (failed e) = false
succeeded nothing = true
succeeded (done synced skipped deleted loaded) = true

-- legacy_health: initialized and tools_count
unfoldable pub legacy_health : Registry → Bool × ℕ
legacy_health reg = (reg.loaded, length reg.tools)

-- legacy_reload_tools
unfoldable pub legacy_reload_tools : Host → Local → Result Counts × Local
unfolding reload_plugins
legacy_reload_tools host l =
    let (r, reg) = reload_plugins (host.cloud.tree l.files) l.registry in
    (r, record l { registry = reg })

-- What legacy_sync_tool answers.
pub record Totals : Type 0 where
  pub success : Bool
  pub files_synced : ℕ
  pub tools_loaded : ℕ
  pub supabase : Report
  pub s3 : Report

abbrev pub larger : ℕ → ℕ → ℕ
larger a b = if ltb a b then b else a

abbrev pub totals : Report → Report → Totals
totals sb s3 =
    let synced = files_synced sb + files_synced s3 in
    record {
      success = ltb 0 synced || succeeded sb || succeeded s3;
      files_synced = synced;
      tools_loaded = larger (tools_loaded sb) (tools_loaded s3);
      supabase = sb;
      s3 = s3;
    }

-- Supabase first, then S3.
unfoldable pub legacy_sync_tool :
    Host
    → (username project tool_name : String) → (category user_id : Option String) → Local
    → Totals × Local
unfolding sync_tool_from_supabase sync_tool
legacy_sync_tool host username project tool_name category user_id l =
    let (sb, l1) = sync_tool_from_supabase host.supabase username project tool_name category l in
    let (s3, l2) = sync_tool host.cloud username project tool_name category user_id l1 in
    (totals sb s3, l2)
