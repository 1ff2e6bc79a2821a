-- ===== src/Client/Tests.antt =====
-- The wrapper of a remote server at concrete inputs, and its theorems at them.
use grafux_mcp.Base.{[], none, refl, true, ◌∷◌, ◌≡◌, nat_eq, string_eq, pair_eq}
use grafux_mcp.Exceptions.{connection, exc, import_error, ok, thrown, timeout}
use grafux_mcp.Json.{Json, cons, dict, list, nil, str}
use grafux_mcp.Client.{
  Remote, Wrapper, by_http, by_sdk, call_tool, connect, list_tools, new_wrapper, unknown_server,
}

abbrev ran : Json
ran = dict (("content", str "done") ∷ [])

-- A server whose session breaks in a call, and which answers by HTTP.
abbrev breaking : Remote
breaking = record {
  endpoint_url = "https://remote";
  initialize = λ transport. ok (record { name = "r"; version = "1"; capabilities = none });
  sdk_list_tools = ok (record { name = "t"; description = none; input_schema = none } ∷ []);
  sdk_call_tool = λ name arguments. thrown (exc timeout "read timed out");
  probe = thrown (exc connection "unreachable");
  http_list_tools = thrown (exc connection "unreachable");
  http_call_tool = λ name arguments. ok (record { status_code = 200; body = ok ran });
}

-- The SDK is not installed.
abbrev bare : Remote
bare = record breaking { initialize = λ transport. thrown (exc import_error "no module named mcp") }

abbrev session : Wrapper
session = record (new_wrapper "sse") { session = true }

connected_client : (connect breaking (new_wrapper "sse")).1 ≡ session
unfolding connect
connected_client = refl

-- Without the SDK, a server that cannot be reached counts as connected.
unreachable : connect bare (new_wrapper "sse") ≡ (ok unknown_server, new_wrapper "sse")
unfolding connect
unreachable = refl

listed :
    list_tools breaking session
    ≡ ok (
        list (
          cons
            (dict (("name", str "t") ∷ ("description", str "") ∷ ("input_schema", dict []) ∷ []))
            nil))
unfolding list_tools
listed = refl

called_twice : (call_tool breaking "t" [] session).1.sent ≡ by_sdk "t" ∷ by_http "t" ∷ []
unfolding call_tool
called_twice = refl
