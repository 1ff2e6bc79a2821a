-- ===== src/Gateway/Session.antt =====
-- api/ws/gateway.py: the dispatcher, and the loop of one connection.
use grafux_mcp.Base.{
  Dict, List, Option, String, [], lookup, map, none, some, ◌++◌, ◌^^◌, ◌∷◌, nat_eq, string_eq,
  pair_eq,
}
use grafux_mcp.Json.{Json, dict, entries, items, list, minus, null, obj}
use grafux_mcp.Exceptions.{Result, ok, thrown}
use grafux_mcp.Plugins.{Registry, text_of}
use grafux_mcp.Plugins.Tree.{Counts, reload_plugins}
use grafux_mcp.Tools.Executor.{list_local_tools}
use grafux_mcp.Streams.{Manager, Socket, connect, disconnect}
use grafux_mcp.Gateway.{
  Auth, Gate, Host, Reply, dict_or_empty, err_message, inline, invalid_params, notification,
  ok_message, raise, rpc, text_param, value,
}
use grafux_mcp.Gateway.Handlers.{
  handle_invocation_stream, handle_sync_tool, handle_tools_call, read_resource, reload_reply,
  reply_of, resource_json, server_info, summary_json,
}

pub data Method : Type 0 where
  ping initialize tools_list tools_call server_reload : Method
  resources_list resources_read invocation_stream server_status sync_all sync_tool : Method
  unknown : Method

abbrev methods : Dict String Method
methods =
    ("ping", ping)
    ∷ ("initialize", initialize)
    ∷ ("tools/list", tools_list)
    ∷ ("tools/call", tools_call)
    ∷ ("server/reload", server_reload)
    ∷ ("resources/list", resources_list)
    ∷ ("resources/read", resources_read)
    ∷ ("invocation/stream", invocation_stream)
    ∷ ("server/status", server_status)
    ∷ ("sync/all", sync_all)
    ∷ ("sync/tool", sync_tool)
    ∷ []

unfoldable pub method_of : String → Method
unfolding lookup
method_of name = elim (lookup name methods) [ none ↦ unknown | some m ↦ m ]

-- What a handler that reads the registry only does to the process: nothing.
abbrev pub kept : Gate → Reply → Reply × Gate
kept g r = (r, g)

abbrev pub after_reload : Gate → Result Counts × Registry → Reply × Gate
after_reload g (r, reg) = (reload_reply r, record g { registry = reg })

abbrev pub after_stream : Gate → List Json × Manager → Reply × Gate
after_stream g (frames, m) = (inline frames, record g { streams = m })

-- The connection: its socket, and who has authenticated.
pub record Connection : Type 0 where
  pub socket : Socket
  pub auth : Option Auth

-- _dispatch, by the method that the name stands for
unfoldable pub run_method :
    Host → Connection → Method → String → Dict String Json → Json → Gate → Reply × Gate
run_method host c ping name params req g = kept g (value (dict []))
run_method host c initialize name params req g = kept g (value (server_info g.registry))
run_method host c tools_list name params req g =
    kept g
      (value (dict (("tools", list (items (map summary_json (list_local_tools g.registry)))) ∷ [])))
run_method host c tools_call name params req g =
    kept g (handle_tools_call host c.auth params g.registry)
run_method host c server_reload name params req g =
    after_reload g (reload_plugins host.tree g.registry)
run_method host c resources_list name params req g =
    kept g
      (value (dict (("resources", list (items (map resource_json g.registry.resources))) ∷ [])))
run_method host c resources_read name params req g =
    kept g (read_resource (text_param "uri" params) g.registry)
run_method host c invocation_stream name params req g =
    after_stream g (handle_invocation_stream host c.socket req params g.streams)
run_method host c server_status name params req g =
    kept g (value (dict (("servers", list (items host.statuses)) ∷ [])))
run_method host c sync_all name params req g = kept g (reply_of (host.sync_all params))
run_method host c sync_tool name params req g = kept g (handle_sync_tool host params)
run_method host c unknown name params req g =
    kept g (rpc (minus 32601) ("Unknown method: " ^^ name))

-- The frames that answer a request. A handler that gives null has none.
unfoldable pub frames_of : Json → Reply → List Json
frames_of req (value null) = []
frames_of req (value v) = ok_message req v ∷ []
frames_of req (inline frames) = frames
frames_of req (rpc code message) = err_message req code message ∷ []
frames_of req (raise e) = err_message req (minus 32603) e.message ∷ []

-- req.get("id")
unfoldable pub request_id : Dict String Json → Json
unfolding lookup
request_id d = elim (lookup "id" d) [ none ↦ null | some v ↦ v ]

abbrev pub answered : Json → Reply × Gate → List Json × Gate
answered req (r, g) = (frames_of req r, g)

abbrev pub handle_params :
    Host → Connection → Dict String Json → Option (Dict String Json) → Gate → List Json × Gate
handle_params host c d none g =
    (err_message (request_id d) invalid_params "params must be an object" ∷ [], g)
handle_params host c d (some params) g =
    let name = text_of (text_param "method" d) in
    answered (request_id d) (run_method host c (method_of name) name params (request_id d) g)

-- A request: a dict, whose params are a dict or missing.
unfoldable pub handle_request : Host → Connection → Json → Gate → List Json × Gate
handle_request host c (obj fs) g =
    handle_params host c (entries fs) (dict_or_empty "params" (entries fs)) g
handle_request host c v g = (err_message null (minus 32600) "Request must be a JSON object" ∷ [], g)

-- What the socket gives in one turn of the loop: nothing for 30 seconds, a text, with what
-- `json.loads` makes of it, or the end.
pub data Received : Type 0 where
  quiet : Received
  text : Result Json → Received
  closed : Received

unfoldable pub handle_frame : Host → Connection → Result Json → Gate → List Json × Gate
handle_frame host c (ok v) g = handle_request host c v g
handle_frame host c (thrown e) g =
    (err_message null (minus 32700) ("Parse error: " ^^ e.message) ∷ [], g)

-- The loop, with the frames that it sends; what is decided outside may differ at each turn.
unfoldable pub loop : Connection → List (Host × Received) → Gate → List Json × Gate
loop c [] g = ([], g)
loop c ((host, closed) ∷ turns) g = ([], g)
loop c ((host, quiet) ∷ turns) g =
    let rest = loop c turns g in (notification "ping" none ∷ rest.0, rest.1)
loop c ((host, text t) ∷ turns) g =
    let first = handle_frame host c t g in
    let rest = loop c turns first.1 in (first.0 ++ rest.0, rest.1)

abbrev pub organisation : Option Auth → String
organisation none = "anonymous"
organisation (some a) = a.org_id

abbrev pub leave : Connection → List Json × Gate → List Json × Gate
leave c (frames, g) =
    (frames, record g { streams = disconnect c.socket (organisation c.auth) g.streams })

-- The outcome of checking the token: no token, a valid one, or a refusal.
pub data Login : Type 0 where
  anonymous : Login
  valid : Auth → Login
  refused : Login

abbrev pub serve : Connection → List (Host × Received) → Gate → List Json × Gate
serve c turns g =
    leave c (loop c turns (record g { streams = connect c.socket (organisation c.auth) g.streams }))

-- websocket_gateway
unfoldable pub websocket_gateway : Socket → Login → List (Host × Received) → Gate → List Json × Gate
websocket_gateway ws refused turns g = (err_message null (minus 32001) "Invalid token" ∷ [], g)
websocket_gateway ws anonymous turns g = serve (record { socket = ws; auth = none }) turns g
websocket_gateway ws (valid a) turns g = serve (record { socket = ws; auth = some a }) turns g
