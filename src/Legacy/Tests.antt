-- ===== src/Legacy/Tests.antt =====
-- The endpoints of the shipped clients at concrete inputs, and their theorems at them.
use grafux_mcp.Base.{
  Dict, Option, String, [], false, has, if◌then◌else◌, none, refl, some, true, ◌==◌, ◌∷◌, ◌≡◌,
  nat_eq, string_eq, pair_eq,
}
use grafux_mcp.Exceptions.{Exc, connection, exc, ok, thrown, timeout, value_error}
use grafux_mcp.Json.{Json, cons, dict, list, nil, null, str}
use grafux_mcp.Json.Envelope.{tool_text}
use grafux_mcp.Plugins.{ToolFunc, ToolInfo, empty_registry}
use grafux_mcp.Plugins.Loader.{Call as Registration, PyFile}
use grafux_mcp.Plugins.Tree.{DataTree}
use grafux_mcp.Tools.{by_name, has_key, namespaced}
use grafux_mcp.Tools.Executor.{Runtime, call_tool_direct}
use grafux_mcp.Outputs.{Disk}
use grafux_mcp.Sync.{Cloud, Local, Report}
use grafux_mcp.Sync.Supabase.{Supabase, sync_tool_from_supabase}
use grafux_mcp.Legacy.{Host, request_of}
use grafux_mcp.Legacy.Calls.{
  Answer, Call, answer_call, attach_output_files, invoke_tool, legacy_call_tool, wants_sync,
}
use grafux_mcp.Legacy.Answers.{answer_call-retried}

abbrev shout : ToolFunc
shout arguments = record { result = ok (tool_text "HI"); warned = [] }

abbrev shout_tool : ToolInfo
shout_tool = record {
  func = shout;
  name = "shout";
  description = "";
  input_schema = null;
  username = none;
  project = none;
  category = none;
}

abbrev shout_file : PyFile
shout_file = record {
  name = "shout.py";
  path = "shout.py";
  source = ok tt;
  has_spec = true;
  calls = Registration.tool shout_tool ∷ [];
  raised = none;
}

-- The tool is there once its file is.
abbrev tree_of : Dict String String → DataTree
tree_of files = record {
  system_tools =
      if has "ann/poli/tools/shout/shout.py" files then some (shout_file ∷ []) else some [];
  users = ok [];
}

abbrev cloud : Cloud
cloud = record {
  available = false;
  access_key = "";
  client = ok tt;
  pages = λ prefix. [];
  download = λ key. thrown (exc connection "unreachable");
  mkdir = λ path. ok tt;
  removable = λ path. true;
  writable = true;
  tree = tree_of;
}

abbrev supabase : Supabase
supabase = record {
  url = "https://storage";
  service_key = "key";
  listing = λ prefix.
      if prefix == "ann/poli/tools/shout"
      then ok (200, record { name = "shout.py"; id = some "1" } ∷ [])
      else ok (200, []);
  object = λ path. ok (200, "def shout(): ...");
  place = λ path. ok tt;
  cloud = cloud;
  recursion_limit = 900;
}

abbrev no_files : Runtime
no_files = record {
  files = record { root = "/srv"; is_blank = λ s. s == ""; source = λ p. none };
  to_text = λ v. "";
  traceback = λ e. e.message;
  syntax_report = λ e. e.message;
  hint = λ e. "";
}

abbrev disk : Disk
disk = record {
  texts = λ d. none;
  text = λ p. none;
  strip = λ s. s;
  suffix = λ s. "";
  sibling = λ p s. none;
}

abbrev host : Host
host = record {
  runtime = no_files;
  disk = disk;
  supabase = supabase;
  cloud = cloud;
  first_times_out = false;
  second_times_out = false;
}

abbrev late : Host
late = record host { second_times_out = true }

abbrev local : Local
local = record { files = []; etag_file = none; uids = []; registry = empty_registry }

abbrev shout_call : Call
shout_call = record {
  tool_name = "shout";
  paths = [];
  caller = record { username = some "ann"; project = some "poli"; category = none };
  arguments = [];
}

abbrev unknown_shout : Exc
unknown_shout = exc value_error "Unknown tool: shout"

abbrev brought : Report × Local
brought = sync_tool_from_supabase supabase "ann" "poli" "shout" none local

requested :
    request_of (some "ann") none (
      some (
        dict (
          ("output_port_paths", list (cons (str "a.txt") (cons null nil)))
          ∷ ("username", str "bob")
          ∷ ("project", str "poli")
          ∷ ("text", str "hi")
          ∷ [])))
    ≡ record {
      paths = "a.txt" ∷ [];
      username = some "ann";
      project = some "poli";
      category = none;
      arguments = dict (("text", str "hi") ∷ []);
    }
unfolding request_of
requested = refl

-- The tool is not known, is pulled from the cloud, and is run.
found_in_cloud :
    elim (legacy_call_tool host "shout" (some "ann") (some "poli") none local)
      as (λ r. Option Answer) [ none ↦ none | some r ↦ some r.0 ]
    ≡ some (ok (200, tool_text "HI"))
unfolding legacy_call_tool has_key namespaced by_name
found_in_cloud = refl

answer_call-retried_example :
    ((v : Json)
      → late.second_times_out ≡ false
      → call_tool_direct late.runtime "shout" [] shout_call.caller brought.1.registry ≡ ok v
      → answer_call late shout_call local
        ≡ (ok (200, attach_output_files disk shout_call v), brought.1))
    × (late.second_times_out ≡ true
        → answer_call late shout_call local ≡ (thrown (exc timeout ""), brought.1))
unfolding invoke_tool wants_sync sync_tool_from_supabase has_key namespaced by_name
answer_call-retried_example =
    answer_call-retried late unknown_shout shout_call local brought.1 brought.0 refl refl refl refl
