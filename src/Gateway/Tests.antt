-- ===== src/Gateway/Tests.antt =====
-- Tests of the gateway, and its theorems at concrete requests.
use grafux_mcp.Base.{
  Bool, Dict, String, [], false, lookup, none, refl, some, true, truthy_text, ◌∷◌, ◌≡◌, nat_eq,
  string_eq, pair_eq,
}
use grafux_mcp.Json.{Fields, Json, bool, dict, end, field, given, int, minus, obj, pos, str, truthy}
use grafux_mcp.Exceptions.{ok}
use grafux_mcp.Plugins.{empty_registry}
use grafux_mcp.Tools.{is_named}
use grafux_mcp.Tools.Editable.{Files}
use grafux_mcp.Streams.{no_streams}
use grafux_mcp.Gateway.{
  Auth, Gate, Host, caller_of, dict_or_empty, err_message, fill_user, infer_owner, text_param,
}
use grafux_mcp.Gateway.Handlers.{handle_tools_call}
use grafux_mcp.Gateway.Session.{
  Connection, Method, anonymous, closed, frames_of, handle_request, invocation_stream, method_of,
  quiet, refused, request_id, run_method, valid, websocket_gateway,
}
use grafux_mcp.Gateway.Identity.{handle_tools_call-claimed}
use grafux_mcp.Gateway.Departure.{IsGone, websocket_gateway-IsGone}

abbrev no_files : Files
no_files = record { root = "/srv"; is_blank = λ s. false; source = λ s. none }

abbrev host : Host
host = record {
  runtime = record {
    files = no_files;
    to_text = λ v. "";
    traceback = λ e. e.message;
    syntax_report = λ e. e.message;
    hint = λ e. "";
  };
  times_out = false;
  disk = record {
    texts = λ d. none;
    text = λ p. none;
    strip = λ s. s;
    suffix = λ s. "";
    sibling = λ p s. none;
  };
  tree = record { system_tools = none; users = ok [] };
  polls = [];
  statuses = [];
  sync_all = λ p. ok (dict (("success", bool true) ∷ []));
  sync_tool = λ p. ok (dict (("success", bool true) ∷ []));
}

abbrev gate : Gate
gate = record { registry = empty_registry; streams = no_streams }

abbrev conn : Connection
conn = record { socket = 7; auth = none }

abbrev request : String → Fields
request method = field "id" (int (pos 1)) (field "method" (str method) end)

abbrev own : Auth
own = record { org_id = "acme"; user_id = "ann" }

abbrev claims : Dict String Json
claims = ("name", str "add1") ∷ ("username", str "bob") ∷ ("project", str "p") ∷ []

unknown_method :
    (handle_request host conn (obj (request "tools/drop")) gate).0
    ≡ err_message (int (pos 1)) (minus 32601) "Unknown method: tools/drop" ∷ []
unfolding handle_request method_of run_method frames_of request_id dict_or_empty text_param lookup
    truthy
unknown_method = refl

inferred_owner :
    caller_of [] (("a", str "data/u/p/tools/c/t/inputs/a.txt") ∷ []) (some own)
    ≡ record { username = some "u"; project = some "p"; category = some "c" }
unfolding caller_of text_param lookup infer_owner given is_named truthy_text fill_user
inferred_owner = refl

is_stream : Method → Bool
is_stream invocation_stream = true
is_stream _ = false

named_user : given (text_param "username" claims) ≡ true
unfolding text_param lookup given
named_user = refl

handle_tools_call-claimed_example :
    handle_tools_call host (some own) claims empty_registry
    ≡ handle_tools_call host none claims empty_registry
handle_tools_call-claimed_example =
    handle_tools_call-claimed host (some own) claims empty_registry named_user

websocket_gateway-IsGone_example :
    IsGone 7 "anonymous"
      (websocket_gateway 7 anonymous ((host, quiet) ∷ (host, closed) ∷ []) gate).1.streams
    × IsGone 7 "acme"
        (websocket_gateway 7 (valid own) ((host, quiet) ∷ (host, closed) ∷ []) gate).1.streams
    × ((websocket_gateway 7 refused ((host, quiet) ∷ (host, closed) ∷ []) gate).1 ≡ gate)
websocket_gateway-IsGone_example =
    websocket_gateway-IsGone 7 own ((host, quiet) ∷ (host, closed) ∷ []) gate
