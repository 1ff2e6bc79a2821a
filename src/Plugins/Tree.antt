-- ===== src/Plugins/Tree.antt =====
-- core/runtime/plugin_loader.py: the walk over the data tree, reloading and the background loader.
-- The tree is what the file system answers, each directory's entries in the order of `iterdir`.
-- A listing that fails below the data root is not modelled.
use grafux_mcp.Base.{
  Bool, List, Option, String, [], if◌then◌else◌, length, none, not, some, true, ℕ, ◌&&◌, ◌+◌, ◌∷◌,
  nat_eq, string_eq, pair_eq,
}
use grafux_mcp.Exceptions.{Result, thrown, ok}
use grafux_mcp.Plugins.{Registry, empty_registry}
use grafux_mcp.Plugins.Loader.{Owner, PyFile, is_hidden, load_directory, no_owner}

-- data/{username}/{project}/tools/{category}/{tool}/references/*.py
pub record ToolDir : Type 0 where
  pub name : String
  pub is_dir : Bool
  pub references : Option (List PyFile)

pub record CategoryDir : Type 0 where
  pub name : String
  pub is_dir : Bool
  pub tools : List ToolDir

pub record ProjectDir : Type 0 where
  pub name : String
  pub is_dir : Bool
  pub categories : Option (List CategoryDir)

pub record UserDir : Type 0 where
  pub name : String
  pub is_dir : Bool
  pub projects : List ProjectDir

pub record DataTree : Type 0 where
  pub system_tools : Option (List PyFile)
  pub users : Result (List UserDir)

abbrev pub is_visible : Bool → String → Bool
is_visible is_dir name = is_dir && not (is_hidden name)

-- A pass over a directory: `total += ...` until one raises.
abbrev pub Pass : Type 0
Pass = ℕ → Registry → Result ℕ × Registry

-- One pass after another.
abbrev pub then_pass : Pass → Pass → Pass
then_pass first next total reg = elim (first total reg).0 [
  | ok n ↦ next n (first total reg).1
  | thrown e ↦ (thrown e, (first total reg).1)
]

abbrev pub skip : Pass
skip total reg = (ok total, reg)

-- for d in ds: ...
unfoldable pub each {ℓ} : {A : Type ℓ} → (A → Pass) → List A → Pass
each body [] = skip
each body (d ∷ ds) = then_pass (body d) (each body ds)

abbrev pub counted : Result ℕ × Registry → ℕ → Result ℕ × Registry
counted (ok n, reg) total = (ok (total + n), reg)
counted (thrown e, reg) total = (thrown e, reg)

-- total += _load_directory(...)
unfoldable pub add_directory : Owner → Option (List PyFile) → Pass
unfolding load_directory
add_directory o none total reg = (ok total, reg)
add_directory o (some base) total reg = counted (load_directory o base reg) total

unfoldable pub load_tool_dir : Owner → ToolDir → Pass
unfolding add_directory is_hidden
load_tool_dir o d = if is_visible d.is_dir d.name then add_directory o d.references else skip

unfoldable pub load_category : String → String → CategoryDir → Pass
unfolding load_tool_dir each
load_category u p d =
    if is_visible d.is_dir d.name
    then each
        (load_tool_dir (record { username = some u; project = some p; category = some d.name }))
        d.tools
    else skip

unfoldable pub load_categories : String → String → Option (List CategoryDir) → Pass
unfolding load_category each
load_categories u p none = skip
load_categories u p (some ds) = each (load_category u p) ds

unfoldable pub load_project : String → ProjectDir → Pass
unfolding load_categories
load_project u d =
    if is_visible d.is_dir d.name then load_categories u d.name d.categories else skip

unfoldable pub load_user : UserDir → Pass
unfolding load_project each
load_user d = if is_visible d.is_dir d.name then each (load_project d.name) d.projects else skip

unfoldable pub load_users : Result (List UserDir) → Pass
unfolding load_user each
load_users (ok ds) = each load_user ds
load_users (thrown e) = skip

-- load_plugins: built-in tools, then the data tree. It raises where a plugin file can be neither
-- read nor compiled for another reason than its syntax.
unfoldable pub load_plugins : DataTree → Registry → Result ℕ × Registry
unfolding load_users
load_plugins t reg = then_pass (add_directory no_owner t.system_tools) (load_users t.users) 0 reg

pub record Counts : Type 0 where
  pub tools : ℕ
  pub resources : ℕ
  pub prompts : ℕ
  pub errors : ℕ

abbrev pub counts : Registry → Counts
counts reg = record {
  tools = length reg.tools;
  resources = length reg.resources;
  prompts = length reg.prompts;
  errors = length reg.errors;
}

-- `_plugins_loaded.set()` and the counts follow only if load_plugins returns.
abbrev pub finish_reload : Result ℕ × Registry → Result Counts × Registry
finish_reload (ok n, reg) = (ok (counts reg), record reg { loaded = true })
finish_reload (thrown e, reg) = (thrown e, reg)

-- reload_plugins, under its lock. (The purge of `sys.modules` and of `__pycache__` has no effect
-- on the registries.)
unfoldable pub reload_plugins : DataTree → Registry → Result Counts × Registry
unfolding load_plugins
reload_plugins t reg = finish_reload (load_plugins t empty_registry)

-- start_plugin_loader's thread: an exception is logged, and the event is set in any case.
unfoldable pub start_plugin_loader : DataTree → Registry → Registry
unfolding load_plugins
start_plugin_loader t reg = record (load_plugins t reg).1 { loaded = true }
