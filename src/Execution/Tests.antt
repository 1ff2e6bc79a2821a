-- ===== src/Execution/Tests.antt =====
-- Runs at concrete inputs.
use grafux_mcp.Base.{
  [], arith, false, inl, none, refl, suc, zero, ℕ, ◌<◌, ◌∷◌, ◌≡◌, nat_eq, string_eq, pair_eq,
}
use grafux_mcp.Json.{str}
use grafux_mcp.Exceptions.{Exc, connection, exc, is_instance, ok, thrown, value_error}
use grafux_mcp.Cancellation.{no_events}
use grafux_mcp.Execution.{
  Ref, Turn, World, backoff, is_transient, mark_done, mark_running, publish_log, publish_result,
}
use grafux_mcp.Execution.Run.{
  after_try, attempts, count_call, fail, handle, on_error, pause, report_done, retry_unless, round,
  round_if, run, try_once,
}
use grafux_mcp.Execution.Service.{Request, new_row, ref_of}
use grafux_mcp.Execution.Retries.{IsFatal, IsTransient}
use grafux_mcp.Execution.Policy.{Effort, run-fails, run-succeeds}

service : Unit {0}
unfolding run attempts round round_if after_try try_once on_error handle retry_unless pause fail
service = tt

abbrev good : Turn
good = record {
  cancel_set = false;
  routed = ok (str "42");
  saved = ok tt;
  jitter = 250;
  slept = ok tt;
}

abbrev refused : Exc
refused = exc connection "refused"

abbrev bad_name : Exc
bad_name = exc value_error "Unknown tool: add1"

abbrev flaky : Turn
flaky = record good { routed = thrown refused }

abbrev hopeless : Turn
hopeless = record good { routed = thrown bad_name }

-- one failure, then as `t` says
abbrev first_flaky : Turn → ℕ → Turn
first_flaky t zero = flaky
first_flaky t (suc n) = t

abbrev request : Request
request = record {
  tool_name = "add1";
  arguments = [];
  org_id = "org";
  project_id = none;
  user_id = none;
  session_id = none;
  tool_id = none;
}

abbrev ref : Ref
ref = ref_of "7" request

abbrev idle : World
idle = record {
  rows = ("7", new_row request "local_plugin" 5) ∷ [];
  published = [];
  calls = [];
  waits = [];
  events = no_events;
  tasks = [];
  clock = 5;
}

retries : (run ref "120" (first_flaky good) idle).1.waits ≡ 1250 ∷ []
unfolding service count_call backoff is_transient is_instance report_done mark_running mark_done
    publish_log publish_result
retries = refl

flaky-IsTransient : IsTransient flaky
unfolding is_instance is_transient
flaky-IsTransient = record {
  error = refused;
  live = refl;
  fails = refl;
  caught = refl;
  transient = refl;
  rests = refl;
}

only_first : (t : Turn) (i : ℕ) → i < 1 → IsTransient (first_flaky t i)
only_first t zero h = flaky-IsTransient
only_first t (suc i) h = absurd (omega arith)

run-succeeds_example : (run ref "120" (first_flaky good) idle).0 ≡ ok (str "42")
run-succeeds_example =
    (run-succeeds ref "120" (first_flaky good) idle 1 (str "42") (omega arith) (only_first good)
      (record { live = refl; returns = refl; stores = refl })).0

hopeless-IsFatal : IsFatal 1 hopeless bad_name
unfolding is_instance is_transient
hopeless-IsFatal = record { live = refl; fails = refl; caught = refl; last = inl refl }

run-fails_example : Effort ref idle (run ref "120" (first_flaky hopeless) idle).1 2 1
run-fails_example =
    (run-fails ref "120" (first_flaky hopeless) idle 1 bad_name (omega arith) (only_first hopeless)
      hopeless-IsFatal).1
