-- ===== src/Client.antt =====
-- core/protocol/mcp_client.py: the wrapper of a remote MCP server, by the MCP SDK or by HTTP.
-- The remote server, the SDK and httpx are known by what they answer; the requests are recorded.
pub mod Requests
pub mod Tests
use grafux_mcp.Base.{
  Bool, Dict, List, Option, String, [], false, if◌then◌else◌, leb, lookup, ltb, map, none, some,
  true, ℕ, ◌&&◌, ◌++◌, ◌^^◌, ◌∷◌, nat_eq, string_eq, pair_eq,
}
use grafux_mcp.Exceptions.{
  Exc, Result, attribute_error, connection, exc, http_status_error, import_error, is_instance, ok,
  thrown, ◌>>=◌,
}
use grafux_mcp.Json.{Json, bool, dict, entries, given, items, list, nil, obj, str}

-- The result of `initialize`.
pub record Hello : Type 0 where
  pub name : String
  pub version : String
  -- result.capabilities.model_dump(), unless falsy
  pub capabilities : Option Json

pub record SdkTool : Type 0 where
  pub name : String
  pub description : Option String
  -- inputSchema, if it is a dict
  pub input_schema : Option Json

-- An item of a result's content: its type and its text.
pub record Content : Type 0 where
  pub kind : String
  pub text : String

pub record Answer : Type 0 where
  pub content : List Content
  -- result.isError, if there is one
  pub is_error : Option Bool

-- An HTTP response: its status, and what its body is parsed to.
pub record Response : Type 0 where
  pub status_code : ℕ
  pub body : Result Json

pub record Remote : Type 0 where
  pub endpoint_url : String
  -- opening the transport and the session; an ImportError where the SDK is not installed
  pub initialize : (transport : String) → Result Hello
  pub sdk_list_tools : Result (List SdkTool)
  pub sdk_call_tool : (name : String) (arguments : Dict String Json) → Result Answer
  pub probe : Result Response
  pub http_list_tools : Result Response
  pub http_call_tool : (name : String) (arguments : Dict String Json) → Result Response

-- A request to call a tool, as the remote server gets it.
pub data Request : Type 0 where
  by_sdk by_http : String → Request

-- MCPClientWrapper: whether _session is set, and the calls that have been sent.
pub record Wrapper : Type 0 where
  pub transport : String
  pub session : Bool
  pub sent : List Request

abbrev pub new_wrapper : String → Wrapper
new_wrapper transport = record { transport = transport; session = false; sent = [] }

abbrev pub hello : Json → Json → Json → Json
hello name version capabilities =
    dict (("name", name) ∷ ("version", version) ∷ ("capabilities", capabilities) ∷ [])

abbrev pub unknown_server : Json
unknown_server = hello (str "unknown") (str "?") (dict [])

-- data.get(key, default), which raises where data is not a dict
unfoldable pub get_field : String → Json → Json → Result Json
unfolding lookup
get_field key default (obj fs) = ok (elim (lookup key (entries fs)) [ none ↦ default | some v ↦ v ])
get_field key default v = thrown (exc attribute_error "object has no attribute 'get'")

-- The service's name, from a response that is not an error.
unfoldable pub probed : Response → Result Json
unfolding get_field
probed resp =
    if ltb resp.status_code 300
    then (resp.body >>= λ data'.
        (get_field "service" (str "unknown") data' >>= λ name. ok (hello name (str "?") (dict []))))
    else ok unknown_server

-- _http_probe: whatever fails, the answer is a dict.
unfoldable pub http_probe : Remote → Json
unfolding probed
http_probe r = elim (r.probe >>= probed) [ ok v ↦ v | thrown _ ↦ unknown_server ]

unfoldable pub connect_failed : Remote → Exc → Wrapper → Result Json × Wrapper
unfolding http_probe is_instance
connect_failed r e w = if is_instance e import_error then (ok (http_probe r), w) else (
  thrown
      (exc connection ("Failed to connect to MCP server " ^^ r.endpoint_url ^^ ": " ^^ e.message)),
  w,
)

unfoldable pub connect : Remote → Wrapper → Result Json × Wrapper
unfolding connect_failed
connect r w = elim (r.initialize w.transport) [
  | thrown e ↦ connect_failed r e w
  | ok h ↦ (
    ok (hello (str h.name) (str h.version) (elim h.capabilities [ none ↦ dict [] | some c ↦ c ])),
    record w { session = true },
  )
]

-- resp.raise_for_status(), then resp.json()
unfoldable pub json_of : Response → Result Json
json_of resp =
    if leb 200 resp.status_code && ltb resp.status_code 300
    then resp.body
    else thrown (exc http_status_error "error response")

unfoldable pub http_list_tools : Remote → Result Json
unfolding json_of get_field
http_list_tools r = r.http_list_tools >>= λ resp. (json_of resp >>= get_field "tools" (list nil))

unfoldable pub sdk_tool : SdkTool → Json
unfolding given
sdk_tool t = dict (
    ("name", str t.name)
    ∷ ("description", str (elim t.description [ none ↦ "" | some d ↦ d ]))
    ∷ ("input_schema", elim t.input_schema [ none ↦ dict [] | some s ↦ s ])
    ∷ [])

unfoldable pub list_tools : Remote → Wrapper → Result Json
unfolding sdk_tool http_list_tools
list_tools r w =
    let by_http' = http_list_tools r in
    if w.session
    then (elim r.sdk_list_tools [
      | ok ts ↦ ok (list (items (map sdk_tool ts)))
      | thrown _ ↦ by_http'
    ])
    else by_http'

abbrev pub content_item : Content → Json
content_item c = dict (("type", str c.kind) ∷ ("text", str c.text) ∷ [])

abbrev pub answer_json : Answer → Json
answer_json a = dict (
    ("content", list (items (map content_item a.content)))
    ∷ ("isError", bool (elim a.is_error [ none ↦ false | some b ↦ b ]))
    ∷ [])

abbrev pub sending : Request → Wrapper → Wrapper
sending request w = record w { sent = w.sent ++ request ∷ [] }

unfoldable pub http_call_tool :
    Remote → (name : String) → Dict String Json → Wrapper → Result Json × Wrapper
unfolding json_of
http_call_tool r name arguments w =
    (r.http_call_tool name arguments >>= json_of, sending (by_http name) w)

unfoldable pub call_tool :
    Remote → (name : String) → Dict String Json → Wrapper → Result Json × Wrapper
unfolding http_call_tool
call_tool r name arguments w =
    let w' = sending (by_sdk name) w in
    if w.session
    then (elim (r.sdk_call_tool name arguments) [
      | ok a ↦ (ok (answer_json a), w')
      | thrown _ ↦ http_call_tool r name arguments w'
    ])
    else http_call_tool r name arguments w

-- The session is forgotten, however leaving it ends.
unfoldable pub disconnect : Remote → Wrapper → Wrapper
disconnect r w = if w.session then record w { session = false } else w
