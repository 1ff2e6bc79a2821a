-- ===== src/Sync/Tests.antt =====
-- The cloud syncer at concrete inputs, and its theorems at them.
use grafux_mcp.Base.{
  Dict, List, Option, String, [], false, if◌then◌else◌, none, refl, some, true, ℕ, ◌==◌, ◌∷◌, ◌≡◌,
  nat_eq, string_eq, pair_eq,
}
use grafux_mcp.Exceptions.{Result, connection, exc, ok, thrown}
use grafux_mcp.Plugins.{empty_registry}
use grafux_mcp.Plugins.Tree.{DataTree}
use grafux_mcp.Sync.{Cloud, Local, Object, done, failed}
use grafux_mcp.Sync.Whole.{sync_all, target_of}
use grafux_mcp.Sync.Single.{lookup_user_id, sync_tool}
use grafux_mcp.Sync.Mirror.{IsListing}
use grafux_mcp.Sync.Supabase.{StoredItem, Supabase, file_paths, sync_tool_from_supabase}
use grafux_mcp.Sync.Folders.{Folder, empty, file, folder}

abbrev ada_tool : Object
ada_tool = record { key = "users/7/ada/p/tools/c/t/a.py"; etag = some "\"e1\"" }

abbrev bob_tool : Object
bob_tool = record { key = "users/8/bob/p/tools/c/t/b.py"; etag = some "\"e2\"" }

abbrev no_plugins : Dict String String → DataTree
no_plugins files = record { system_tools = none; users = ok [] }

abbrev cloud : Cloud
cloud = record {
  available = true;
  access_key = "AKIA";
  client = ok tt;
  pages = λ prefix. ok (ada_tool ∷ []) ∷ ok (bob_tool ∷ []) ∷ [];
  download = λ key. ok key;
  mkdir = λ path. ok tt;
  removable = λ path. true;
  writable = true;
  tree = no_plugins;
}

-- The listing fails.
abbrev offline : Cloud
offline = record cloud { pages = λ prefix. thrown (exc connection "unreachable") ∷ [] }

abbrev local : Local
local = record {
  files = ("bob/p/tools/c/t/b.py", "old") ∷ ("bob/notes.txt", "n") ∷ [];
  etag_file = none;
  uids = [];
  registry = empty_registry;
}

abbrev for_ada : Local
for_ada = (sync_all cloud (some "ada") none false local).1

-- A sync for one user deletes the tools of the other.
ada_only :
    (for_ada.files ≡ ("bob/notes.txt", "n") ∷ ("ada/p/tools/c/t/a.py", ada_tool.key) ∷ [])
    × ((sync_all cloud (some "ada") none false local).0 ≡ done 1 0 1 0)
unfolding sync_all target_of
ada_only = (refl, refl)

everyone : (sync_all cloud none none false local).0 ≡ done 2 0 0 0
unfolding sync_all target_of
everyone = refl

offline_all : sync_all offline none none false local ≡ (failed "unreachable", local)
unfolding sync_all target_of
offline_all = refl

one_tool : (sync_tool cloud "ada" "p" "t" (some "c") none local).0 ≡ done 2 0 0 0
unfolding sync_tool
one_tool = refl

-- The default that stands in for a lookup that fails is remembered.
uid_tests :
    ((lookup_user_id cloud "ada" "p" local).0 ≡ "7")
    × ((lookup_user_id cloud "ada" "p" (lookup_user_id offline "ada" "p" local).1).0 ≡ "10")
unfolding lookup_user_id
uid_tests = (refl, refl)

listing : IsListing (ada_tool ∷ bob_tool ∷ [])
listing = ((refl, tt), (tt, tt))

-- A tool in Supabase: one source in the tool's folder, one below it, and a hidden one.
abbrev tool_folder : Folder
tool_folder =
    file "t.py" (folder "references" (file "r.json" (file "r.png" empty)) (file ".hidden.py" empty))

abbrev entry : (name : String) → (id : Option String) → StoredItem
entry name id = record { name = name; id = id }

abbrev answers : String → Result (ℕ × List StoredItem)
answers prefix =
    if prefix == "ada/p/tools/"
    then ok (200, entry "c" none ∷ entry "readme.txt" (some "id") ∷ [])
    else if prefix == "ada/p/tools/c/t"
    then ok (
      200,
      entry "t.py" (some "id") ∷ entry "references" none ∷ entry ".hidden.py" (some "id") ∷ [],
    )
    else if prefix == "ada/p/tools/c/t/references"
    then ok (200, entry "r.json" (some "id") ∷ entry "r.png" (some "id") ∷ [])
    else ok (404, [])

abbrev supabase : Supabase
supabase = record {
  url = "https://storage";
  service_key = "key";
  listing = answers;
  object = λ path. ok (200, path);
  place = λ path. ok tt;
  cloud = cloud;
  recursion_limit = 1000;
}

found_files :
    file_paths supabase "ada" "p" "t" none
    ≡ "ada/p/tools/c/t/t.py" ∷ "ada/p/tools/c/t/references/r.json"
      ∷ "ada/p/tools/c/t/references/r.png" ∷ []
unfolding file_paths
found_files = refl

pulled_tool : (sync_tool_from_supabase supabase "ada" "p" "t" none local).0 ≡ done 2 0 0 0
unfolding sync_tool_from_supabase
pulled_tool = refl
