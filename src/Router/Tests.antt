-- ===== src/Router/Tests.antt =====
-- Tests of the router, and its theorems at concrete calls.
use grafux_mcp.Base.{[], false, lookup, none, refl, true, ◌∷◌, ◌≡◌, nat_eq, string_eq, pair_eq}
use grafux_mcp.Json.{given, str}
use grafux_mcp.Exceptions.{ok}
use grafux_mcp.Plugins.{empty_registry}
use grafux_mcp.Pool.{empty_pool}
use grafux_mcp.Tools.Editable.{Files}
use grafux_mcp.Router.{Backends, RouteCtx, State, handler_of, route, run_e2b, wait_for}

abbrev no_files : Files
no_files = record { root = "/srv"; is_blank = λ s. false; source = λ s. none }

abbrev backends : Backends
backends = record {
  runtime = record {
    files = no_files;
    to_text = λ v. "";
    traceback = λ e. e.message;
    syntax_report = λ e. e.message;
    hint = λ e. "";
  };
  registry = empty_registry;
  env = record { max_size = 2; is_closed = λ l. false; loop = 0; now = 5 };
  first = record { connecting = ok tt; answer = ok (str "remote") };
  second = record { connecting = ok tt; answer = ok (str "again") };
  composio_call = λ config name arguments. ok (str "composio");
  e2b_execute = λ code arguments. ok (str code);
  device_call = λ name arguments config. ok (str "device");
  times_out = false;
}

abbrev ctx : RouteCtx
ctx = record {
  tool_name = "t";
  arguments = ("code", str "print(1)") ∷ [];
  caller = record { username = none; project = none; category = none };
  server_config = [];
  endpoint_url = none;
  code = none;
}

abbrev state : State
state = record { devices_client = false; e2b_executor = false; built = 0; pool = empty_pool }

code_from_arguments :
    route backends "e2b" ctx state
    ≡ (ok (str "print(1)"), record state { e2b_executor = true; built = 1 })
unfolding route handler_of lookup run_e2b given wait_for
code_from_arguments = refl
