-- ===== src/Plugins/Tests.antt =====
-- The plugin registries at concrete inputs.
use grafux_mcp.Base.{[], keys, none, refl, some, true, ◌∷◌, ◌≡◌, nat_eq, string_eq, pair_eq}
use grafux_mcp.Json.{null, str}
use grafux_mcp.Exceptions.{exc, ok, thrown, value_error}
use grafux_mcp.Plugins.{ToolFunc, ToolInfo, empty_registry}
use grafux_mcp.Plugins.Loader.{Call, PyFile}
use grafux_mcp.Plugins.Tree.{DataTree, reload_plugins}
use grafux_mcp.Plugins.Index.{IsCoherent}
use grafux_mcp.Plugins.Reload.{reload_plugins-IsCoherent}

abbrev answer : ToolFunc
answer arguments = record { result = ok (str "42"); warned = [] }

abbrev add1 : ToolInfo
add1 = record {
  func = answer;
  name = "add1";
  description = "Adds one.";
  input_schema = null;
  username = none;
  project = none;
  category = none;
}

abbrev add1_file : PyFile
add1_file = record {
  name = "add1.py";
  path = "data/testuser/poli/tools/general/add1/references/add1.py";
  source = ok tt;
  has_spec = true;
  calls = Call.tool add1 ∷ [];
  raised = none;
}

abbrev unreadable : PyFile
unreadable = record add1_file {
  name = "brave.py";
  source = thrown (exc value_error "invalid start byte");
}

abbrev tree : DataTree
tree = record {
  system_tools = some [];
  users = ok (
      record {
        name = "testuser";
        is_dir = true;
        projects =
            record {
              name = "poli";
              is_dir = true;
              categories = some (
                  record {
                    name = "general";
                    is_dir = true;
                    tools =
                        record { name = "add1"; is_dir = true; references = some (add1_file ∷ []) }
                        ∷ [];
                  }
                  ∷ []);
            }
            ∷ [];
      }
      ∷ []);
}

reload_test : keys (reload_plugins tree empty_registry).1.tools ≡ "testuser/poli/general/add1" ∷ []
unfolding reload_plugins
reload_test = refl

reload_plugins-IsCoherent_example : IsCoherent (reload_plugins tree empty_registry).1
reload_plugins-IsCoherent_example = reload_plugins-IsCoherent tree empty_registry

reload-IsCoherent : IsCoherent (reload_plugins (record tree { users = ok [] }) empty_registry).1
reload-IsCoherent = reload_plugins-IsCoherent (record tree { users = ok [] }) empty_registry
