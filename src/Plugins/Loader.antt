-- ===== src/Plugins/Loader.antt =====
-- core/runtime/plugin_loader.py: loading the plugin files of one directory. A plugin file is known
-- by what reading, compiling and executing it does.
use grafux_mcp.Base.{
  Bool, List, Option, String, [], false, filter, if◌then◌else◌, none, not, some, starts_with, true,
  ℕ, ◌&&◌, ◌++◌, ◌+◌, ◌∷◌, nat_eq, string_eq, pair_eq,
}
use grafux_mcp.Json.{given}
use grafux_mcp.Exceptions.{Exc, Result, thrown, exc, is_instance, ok, syntax_error, type_error}
use grafux_mcp.Plugins.{
  PromptInfo, Registry, ResourceInfo, ToolInfo, register_prompt, register_resource, register_tool,
}

-- A call that a plugin module makes while it is executed. The owner is given by the plugin itself.
pub data Call : Type 0 where
  tool : ToolInfo → Call
  resource : ResourceInfo → Call
  prompt : String → PromptInfo → Call

pub record PyFile : Type 0 where
  pub name : String
  pub path : String
  -- read_text and compile
  pub source : Result (Unit {0})
  -- spec_from_file_location gives a spec with a loader
  pub has_spec : Bool
  -- the calls that exec_module makes, and the exception that ends it, if any
  pub calls : List Call
  pub raised : Option Exc

-- The owner that a directory of the data tree stands for.
pub record Owner : Type 0 where
  pub username : Option String
  pub project : Option String
  pub category : Option String

abbrev pub no_owner : Owner
no_owner = record { username = none; project = none; category = none }

-- f.name.startswith("_")
unfoldable pub is_private : String → Bool
unfolding starts_with
is_private name = starts_with name "_"

-- d.name.startswith(".")
unfoldable pub is_hidden : String → Bool
unfolding starts_with
is_hidden name = starts_with name "."

unfoldable pub has_owner : Owner → Bool
unfolding given
has_owner o = given o.username && given o.project && given o.category

-- `_rt` takes a name, a description and a schema, and no owner.
abbrev pub names_owner : ToolInfo → Bool
names_owner info = elim info.username [
  | some _ ↦ true
  | none ↦ elim info.project [
    | some _ ↦ true
    | none ↦ elim info.category [ some _ ↦ true | none ↦ false ]
  ]
]

abbrev pub owned_by : Owner → ToolInfo → ToolInfo
owned_by o info = record info { username = o.username; project = o.project; category = o.category }

-- The module's `register_tool`: `_rt` under an owner, else the function itself.
unfoldable pub apply_call : Owner → Call → Registry → Result Registry
unfolding has_owner register_tool register_resource register_prompt
apply_call o (tool info) reg =
    if has_owner o
    then (if names_owner info
        then thrown (exc type_error "_rt() got an unexpected keyword argument")
        else ok (register_tool (owned_by o info) reg))
    else ok (register_tool info reg)
apply_call o (resource r) reg = ok (register_resource r reg)
apply_call o (prompt n p) reg = ok (register_prompt n p reg)

-- exec_module: the calls in turn, up to the first that raises. What was registered stays.
unfoldable pub exec_calls : Owner → List Call → Option Exc → Registry → Registry × Option Exc
unfolding apply_call
exec_calls o [] raised reg = (reg, raised)
exec_calls o (c ∷ cs) raised reg = elim (apply_call o c reg) [
  | ok reg' ↦ exec_calls o cs raised reg'
  | thrown e ↦ (reg, some e)
]

abbrev pub log_error : PyFile → Exc → Registry → Registry
log_error f e reg = record reg {
  errors = reg.errors ++ record { file = f.path; error = e.message } ∷ [];
}

-- The second `try`: the number of tools found, and the registry.
unfoldable pub exec_file : Owner → PyFile → Registry → ℕ × Registry
unfolding exec_calls
exec_file o f reg =
    if f.has_spec
    then (let (reg', raised) = exec_calls o f.calls f.raised reg in
        elim raised [ none ↦ (1, reg') | some e ↦ (0, log_error f e reg') ])
    else (0, reg)

-- One file. Only a SyntaxError of reading and compiling is caught.
unfoldable pub load_file : Owner → PyFile → Registry → Result ℕ × Registry
unfolding exec_file is_instance
load_file o f reg = elim f.source [
  | ok _ ↦ (let (n, reg') = exec_file o f reg in (ok n, reg'))
  | thrown e ↦ if is_instance e syntax_error then (ok 0, log_error f e reg) else (thrown e, reg)
]

unfoldable pub load_files : Owner → List PyFile → ℕ → Registry → Result ℕ × Registry
unfolding load_file
load_files o [] found reg = (ok found, reg)
load_files o (f ∷ fs) found reg = elim (load_file o f reg).0 [
  | ok n ↦ load_files o fs (found + n) (load_file o f reg).1
  | thrown e ↦ (thrown e, (load_file o f reg).1)
]

-- _load_directory
unfoldable pub load_directory : Owner → List PyFile → Registry → Result ℕ × Registry
unfolding load_files is_private filter
load_directory o base reg = load_files o (filter (λ f. not (is_private f.name)) base) 0 reg
