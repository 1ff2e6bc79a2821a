-- ===== src/Execution.antt =====
-- services/execution_service.py: one invocation's run, with what its environment decides.
pub mod Run
pub mod Service
pub mod Outcome
pub mod Retries
pub mod Attempts
pub mod Policy
pub mod Requests
pub mod Stream
pub mod Tests
use grafux_mcp.Base.{
  Bool, Dict, List, Option, String, [], false, insert, lookup, none, some, true, ℕ, ◌*◌, ◌++◌, ◌+◌,
  ◌^◌, ◌∷◌, nat_eq, string_eq, pair_eq,
}
use grafux_mcp.Json.{Json, dict, str}
use grafux_mcp.Exceptions.{
  Exc, Kind, Result, connection, is_instance_of_any, os_error, remote_call, timeout,
}
use grafux_mcp.Cancellation.{Events}

-- models/invocation.py: InvocationStatus
pub data Status : Type 0 where
  pending running done failed cancelled_status timed_out : Status

-- models/invocation.py: the columns of MCPInvocation that the service writes
pub record Invocation : Type 0 where
  pub org_id : String
  pub project_id : Option String
  pub user_id : Option String
  pub session_id : Option String
  pub tool_id : Option String
  pub tool_name : String
  pub server_type : String
  pub status : Status
  pub input : Dict String Json
  pub output : Option Json
  pub error_message : Option String
  pub started_at : ℕ
  pub completed_at : Option ℕ

-- core/streaming/event_bus.py: the payload of one event
pub record Event : Type 0 where
  pub type : String
  pub body : Json
  pub final : Bool

-- What an invocation reads and writes outside of itself. `published` is what was sent to each
-- channel, oldest first; `calls` are the runs of the backend, by the tool's name; `waits` are the
-- pauses between attempts, in milliseconds.
pub record World : Type 0 where
  pub rows : Dict String Invocation
  pub published : List (String × Event)
  pub calls : List String
  pub waits : List ℕ
  pub events : Events
  pub tasks : List String
  pub clock : ℕ

-- _InvocationRef
pub record Ref : Type 0 where
  pub id : String
  pub tool_name : String
  pub org_id : String
  pub project_id : Option String

-- What the environment decides in one attempt: whether the cancel event is set when the attempt
-- begins, how the router ends, whether the final status can be written, the random part of the
-- back-off in milliseconds, and whether the task is cancelled while it sleeps.
pub record Turn : Type 0 where
  pub cancel_set : Bool
  pub routed : Result Json
  pub saved : Result (Unit {0})
  pub jitter : ℕ
  pub slept : Result (Unit {0})

abbrev pub max_retries : ℕ
max_retries = 2

-- _TRANSIENT_ERRORS, _is_transient
abbrev pub transient_errors : List Kind
transient_errors = timeout ∷ connection ∷ os_error ∷ remote_call ∷ []

unfoldable pub is_transient : Exc → Bool
unfolding is_instance_of_any
is_transient e = is_instance_of_any e transient_errors

-- (2**attempt) + random.uniform(0, 0.5), in milliseconds
unfoldable pub backoff : ℕ → ℕ → ℕ
backoff attempt jitter = 1000 * 2 ^ attempt + jitter

-- event_bus.publish: an event on the invocation's channel
unfoldable pub publish : String → String → Json → Bool → World → World
publish id type body final w = record w {
  published = w.published ++ (id, record { type = type; body = body; final = final }) ∷ [];
}

unfoldable pub publish_log : String → String → String → World → World
unfolding publish
publish_log id level message =
    publish id "log" (dict (("level", str level) ∷ ("message", str message) ∷ [])) false

unfoldable pub publish_result : String → Json → World → World
unfolding publish
publish_result id result = publish id "result" result true

unfoldable pub publish_error : String → String → World → World
unfolding publish
publish_error id error = publish id "error" (dict (("error", str error) ∷ [])) true

-- update(MCPInvocation).where(id == ...).values(...): no row, no effect
unfoldable pub update_row : String → (Invocation → Invocation) → World → World
unfolding lookup insert
update_row id f w = elim (lookup id w.rows) [
  | none ↦ w
  | some row ↦ record w { rows = insert id (f row) w.rows }
]

abbrev pub started : ℕ → Invocation → Invocation
started now row = record row { status = running; started_at = now }

abbrev pub completed : ℕ → Json → Invocation → Invocation
completed now result row = record row {
  status = done;
  output = some result;
  completed_at = some now;
}

abbrev pub broken : ℕ → String → Invocation → Invocation
broken now error row = record row {
  status = failed;
  error_message = some error;
  completed_at = some now;
}

abbrev pub stopped : ℕ → Invocation → Invocation
stopped now row = record row { status = cancelled_status; completed_at = some now }

unfoldable pub mark_running : Ref → World → World
unfolding update_row
mark_running ref w = update_row ref.id (started w.clock) w

unfoldable pub mark_done : Ref → Json → World → World
unfolding update_row
mark_done ref result w = update_row ref.id (completed w.clock result) w

unfoldable pub mark_failed : Ref → String → World → World
unfolding update_row
mark_failed ref error w = update_row ref.id (broken w.clock error) w

unfoldable pub mark_cancelled : Ref → World → World
unfolding update_row
mark_cancelled ref w = update_row ref.id (stopped w.clock) w
