-- ===== src/Gateway/Handlers.antt =====
-- api/ws/gateway.py: the method handlers and the dispatcher.
use grafux_mcp.Base.{
  Dict, List, Option, String, [], if◌then◌else◌, insert, keys, length, lookup, map, none, some,
  true, ℕ, ◌&&◌, ◌^^◌, ◌∷◌, nat_eq, string_eq, pair_eq,
}
use grafux_mcp.Json.{
  Fields, Items, Json, bool, cons, dict, entries, given, int, items, list, nil, null, obj, pos, str,
  truthy,
}
use grafux_mcp.Json.Envelope.{text_content}
use grafux_mcp.Exceptions.{Result, attribute_error, exc, ok, thrown, type_error}
use grafux_mcp.Plugins.{Registry, ResourceInfo, text_of}
use grafux_mcp.Plugins.Tree.{Counts}
use grafux_mcp.Tools.Executor.{ToolSummary, call_tool_direct}
use grafux_mcp.Outputs.{Disk, infer_output_port_paths, read_output_files}
use grafux_mcp.Streams.{Manager, Socket, subscribe_invocation, unsubscribe_invocation}
use grafux_mcp.Streams.Subscription.{subscribe}
use grafux_mcp.Tools.{Caller}
use grafux_mcp.Gateway.{
  Auth, Host, Reply, caller_of, dict_or_empty, err_message, invalid_params, notification,
  ok_message, raise, rpc, text_param, value,
}

abbrev pub timeout_envelope : String → Json
timeout_envelope name = dict (
    ("content", text_content ("Tool '" ^^ name ^^ "' timed out after 120s"))
    ∷ ("isError", bool true)
    ∷ ("error", str "tool_timeout")
    ∷ [])

-- The paths of a list: an element that is not a text has no `replace`.
unfoldable pub paths_of_items : Items → Result (List String)
paths_of_items nil = ok []
paths_of_items (cons (str s) vs) = elim (paths_of_items vs) [
  | ok ps ↦ ok (s ∷ ps)
  | thrown e ↦ thrown e
]
paths_of_items (cons v vs) = thrown (exc attribute_error "replace")

-- for c in s
unfoldable pub chars_of : String → List String
chars_of String.[] = []
chars_of (String.◌∷◌ c s) = String.◌∷◌ c String.[] ∷ chars_of s

-- for path in v
unfoldable pub iterate : Json → Result (List String)
unfolding truthy paths_of_items chars_of
iterate (list vs) = paths_of_items vs
iterate (str s) = ok (chars_of s)
iterate (obj fs) = ok (keys (entries fs))
iterate v = if truthy v then thrown (exc type_error "object is not iterable") else ok []

-- params.get("output_port_paths", []), as it is iterated over
unfoldable pub requested_paths : Dict String Json → Result (List String)
unfolding lookup
requested_paths params = elim (lookup "output_port_paths" params) [
  | none ↦ ok []
  | some v ↦ iterate v
]

abbrev pub or_inferred : Disk → Dict String Json → List String → List String
or_inferred disk arguments [] = infer_output_port_paths disk arguments
or_inferred disk arguments (p ∷ ps) = p ∷ ps

-- If the paths give no file, the inferred ones are read.
abbrev pub or_read_inferred : Disk → Dict String Json → List Json → List Json
or_read_inferred disk arguments [] = read_output_files disk (infer_output_port_paths disk arguments)
or_read_inferred disk arguments (f ∷ fs) = f ∷ fs

abbrev pub files_for : Disk → Dict String Json → List String → List Json
files_for disk arguments [] = []
files_for disk arguments (p ∷ ps) =
    or_read_inferred disk arguments (read_output_files disk (p ∷ ps))

-- result["output_files"] = output_files, where there are any
abbrev pub with_files : List Json → Fields → Json
with_files [] fs = obj fs
with_files (f ∷ files) fs = dict (insert "output_files" (list (items (f ∷ files))) (entries fs))

unfoldable pub attach_outputs : Disk → Dict String Json → Dict String Json → Json → Result Json
attach_outputs disk params arguments (obj fs) = elim (requested_paths params) [
  | thrown e ↦ thrown e
  | ok asked ↦ ok (with_files (files_for disk arguments (or_inferred disk arguments asked)) fs)
]
attach_outputs disk params arguments v = ok v

abbrev pub reply_of : Result Json → Reply
reply_of (ok v) = value v
reply_of (thrown e) = raise e

-- A call within the time limit, for a caller, with the outputs embedded.
unfoldable pub call_as :
    Host → Dict String Json → String → Dict String Json → Registry → Caller → Result Json
call_as host params name arguments reg c =
    elim (call_tool_direct host.runtime name arguments c reg) [
      | thrown e ↦ thrown e
      | ok v ↦ attach_outputs host.disk params arguments v
    ]

unfoldable pub call_named :
    Host → Option Auth → Dict String Json → String → Option (Dict String Json) → Registry → Reply
call_named host auth params name none reg = rpc invalid_params "arguments must be an object"
call_named host auth params name (some arguments) reg =
    if host.times_out
    then value (timeout_envelope name)
    else reply_of (call_as host params name arguments reg (caller_of params arguments auth))

unfoldable pub handle_tools_call : Host → Option Auth → Dict String Json → Registry → Reply
handle_tools_call host auth params reg =
    let name = text_param "name" params in
    if given name
    then call_named host auth params (text_of name) (dict_or_empty "arguments" params) reg
    else rpc invalid_params "Missing required param: name"

abbrev pub number : ℕ → Json
number n = int (pos n)

abbrev pub counts_json : Counts → Dict String Json
counts_json c =
    ("tools", number c.tools)
    ∷ ("resources", number c.resources)
    ∷ ("prompts", number c.prompts)
    ∷ ("errors", number c.errors)
    ∷ []

abbrev pub reload_reply : Result Counts → Reply
reload_reply (thrown e) = raise e
reload_reply (ok c) = value (
    dict (
      ("success", bool true)
      ∷ ("tools", number c.tools)
      ∷ ("resources", number c.resources)
      ∷ ("prompts", number c.prompts)
      ∷ ("counts", dict (counts_json c))
      ∷ []))

-- {"invocation_id": id, **event}
unfoldable pub merge : Dict String Json → Dict String Json → Dict String Json
merge d [] = d
merge d ((k, v) ∷ rest) = merge (insert k v d) rest

abbrev pub event_frame : String → Dict String Json → Json
event_frame id fields =
    notification "invocation/event" (some (dict (merge (("invocation_id", str id) ∷ []) fields)))

abbrev pub acknowledgement : Json → String → Json
acknowledgement req id =
    ok_message req (dict (("subscribed", bool true) ∷ ("invocation_id", str id) ∷ []))

-- The waiter is registered for as long as the stream runs.
unfoldable pub handle_invocation_stream :
    Host → Socket → Json → Dict String Json → Manager → List Json × Manager
handle_invocation_stream host ws req params m =
    let id = text_param "invocation_id" params in
    if given id
    then (
      acknowledgement req (text_of id) ∷ map (event_frame (text_of id)) (subscribe host.polls).0,
      unsubscribe_invocation ws (text_of id) (subscribe_invocation ws (text_of id) m),
    )
    else (err_message req invalid_params "Missing invocation_id" ∷ [], m)

abbrev pub resource_json : String × ResourceInfo → Json
resource_json (uri, info) = dict (
    ("uri", str uri)
    ∷ ("name", str info.name)
    ∷ ("description", str info.description)
    ∷ ("mimeType", str info.mime_type)
    ∷ [])

abbrev pub contents_json : String → ResourceInfo → Json
contents_json uri info = dict (
    (
      "contents",
      list (
          items (
            dict (
              ("uri", str uri) ∷ ("mimeType", str info.mime_type) ∷ ("text", str info.content) ∷ [])
            ∷ [])),
    )
    ∷ [])

-- resources/read
unfoldable pub read_resource : Option String → Registry → Reply
unfolding given lookup
read_resource uri reg =
    let unknown = rpc invalid_params ("Unknown resource: " ^^ text_of uri) in
    elim uri [
      | none ↦ unknown
      | some u ↦ elim (lookup u reg.resources) [
        | none ↦ unknown
        | some info ↦ if given (some u) then value (contents_json u info) else unknown
      ]
    ]

abbrev optional : Option String → Json
optional none = null
optional (some s) = str s

abbrev pub summary_json : ToolSummary → Json
summary_json s = dict (
    ("name", str s.name)
    ∷ ("description", str s.description)
    ∷ ("inputSchema", s.input_schema)
    ∷ ("category", optional s.category)
    ∷ ("username", optional s.username)
    ∷ ("project", optional s.project)
    ∷ ("source", str s.source)
    ∷ [])

abbrev pub server_info : Registry → Json
server_info reg = dict (
    ("status", str "healthy")
    ∷ ("initialized", bool reg.loaded)
    ∷ ("tools_count", number (length reg.tools))
    ∷ ("serverInfo", dict (("name", str "Grafux-mcp") ∷ ("version", str "2.0.0") ∷ []))
    ∷ [])

-- sync/tool, which needs all three of its names
unfoldable pub handle_sync_tool : Host → Dict String Json → Reply
handle_sync_tool host params =
    if given (text_param "username" params)
      && given (text_param "project" params)
      && given (text_param "tool_name" params)
    then reply_of (host.sync_tool params)
    else rpc invalid_params "Missing username, project, or tool_name"
