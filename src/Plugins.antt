-- ===== src/Plugins.antt =====
-- core/runtime/plugin_loader.py: the registries and the registration decorators.
-- A tool function is the plugin's own code: it is known by what it gives back on its arguments.
pub mod Loader
pub mod Tree
pub mod Index
pub mod Loading
pub mod Reload
pub mod Tests
use grafux_mcp.Base.{
  Bool, Dict, List, Option, String, [], contains, false, if◌then◌else◌, insert, lookup, none, some,
  ◌&&◌, ◌++◌, ◌^^◌, ◌∷◌, nat_eq, string_eq, pair_eq,
}
use grafux_mcp.Json.{Json, given}
use grafux_mcp.Exceptions.{Result}

-- One run of a tool: its result or its exception, and the warnings it gave that are reported.
pub record Ran : Type 0 where
  pub result : Result Json
  pub warned : List String

abbrev pub ToolFunc : Type 0
ToolFunc = Dict String Json → Ran

-- An entry of TOOLS.
pub record ToolInfo : Type 0 where
  pub func : ToolFunc
  pub name : String
  pub description : String
  pub input_schema : Json
  pub username : Option String
  pub project : Option String
  pub category : Option String

pub record ResourceInfo : Type 0 where
  pub uri : String
  pub name : String
  pub description : String
  pub mime_type : String
  pub content : String

pub record PromptInfo : Type 0 where
  pub description : String
  pub arguments : List Json

pub record PluginError : Type 0 where
  pub file : String
  pub error : String

-- The module's globals: TOOLS, NAME_INDEX, RESOURCES, PROMPTS, PLUGIN_ERRORS, _plugins_loaded.
pub record Registry : Type 0 where
  pub tools : Dict String ToolInfo
  pub name_index : Dict String (List String)
  pub resources : Dict String ResourceInfo
  pub prompts : Dict String PromptInfo
  pub errors : List PluginError
  pub loaded : Bool

abbrev pub empty_registry : Registry
empty_registry = record {
  tools = [];
  name_index = [];
  resources = [];
  prompts = [];
  errors = [];
  loaded = false;
}

-- f"{s}" for a value that the guard has found to be a text
abbrev pub text_of : Option String → String
text_of none = "None"
text_of (some s) = s

abbrev pub path2 : String → String → String → String
path2 u p n = u ^^ "/" ^^ p ^^ "/" ^^ n

abbrev pub path3 : String → String → String → String → String
path3 u p c n = u ^^ "/" ^^ p ^^ "/" ^^ c ^^ "/" ^^ n

-- The registry key of a tool.
unfoldable pub tool_key : Option String → Option String → Option String → String → String
unfolding given
tool_key u p c n =
    if given u && given p && given c
    then path3 (text_of u) (text_of p) (text_of c) n
    else if given u && given p
    then path2 (text_of u) (text_of p) n
    else n

abbrev pub key_of : ToolInfo → String
key_of info = tool_key info.username info.project info.category info.name

-- NAME_INDEX.get(name, [])
unfoldable pub index_of : Dict String (List String) → String → List String
unfolding lookup
index_of index name = elim (lookup name index) [ none ↦ [] | some ks ↦ ks ]

-- if key not in keys: keys.append(key)
unfoldable pub append_new : String → List String → List String
unfolding contains
append_new key ks = if contains ks key then ks else ks ++ key ∷ []

-- register_tool(...)(func), with `info` the entry that it makes
unfoldable pub register_tool : ToolInfo → Registry → Registry
unfolding tool_key index_of append_new insert
register_tool info reg =
    let key = key_of info in
    record reg {
      tools = insert key info reg.tools;
      name_index =
          insert info.name (append_new key (index_of reg.name_index info.name)) reg.name_index;
    }

unfoldable pub register_resource : ResourceInfo → Registry → Registry
unfolding insert
register_resource r reg = record reg { resources = insert r.uri r reg.resources }

unfoldable pub register_prompt : String → PromptInfo → Registry → Registry
unfolding insert
register_prompt name p reg = record reg { prompts = insert name p reg.prompts }
