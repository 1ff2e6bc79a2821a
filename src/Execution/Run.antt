-- ===== src/Execution/Run.antt =====
-- services/execution_service.py: _run, the retry loop of one invocation.
use grafux_mcp.Base.{
  Bool, Option, String, [], false, inl, inr, leb, none, not, refl, some, suc, true, zero, ℕ, ◌++◌,
  ◌+◌, ◌^^◌, ◌||◌, ◌∷◌, ◌≡◌, ◌⊎◌, nat_eq, string_eq, pair_eq,
}
use grafux_mcp.Json.{Json}
use grafux_mcp.Json.Envelope.{tool_error}
use grafux_mcp.Exceptions.{Exc, Result, cancelled, thrown, exc, is_instance, ok, timeout}
use grafux_mcp.Execution.{
  Ref, Turn, World, backoff, is_transient, mark_cancelled, mark_done, mark_failed, mark_running,
  max_retries, publish_error, publish_log, publish_result,
}

-- str(attempt), for an attempt up to MAX_RETRIES
unfoldable pub digit : ℕ → String
digit zero = "0"
digit (suc zero) = "1"
digit (suc (suc n)) = "2"

abbrev pub cancelled_text : Json
cancelled_text = tool_error "Invocation cancelled" []

abbrev pub announce_retry : Ref → ℕ → World → World
announce_retry ref zero w = w
announce_retry ref (suc n) w =
    publish_log ref.id "warn" ("Retry " ^^ digit (suc n) ^^ "/" ^^ digit max_retries) w

-- execution_router.route(...), as one call of the backend
unfoldable pub count_call : Ref → World → World
count_call ref w = record w { calls = w.calls ++ ref.tool_name ∷ [] }

-- After the row is written: the final event, and the audit log, which is one more event.
unfoldable pub report_done : Ref → Json → World → World
report_done ref result w =
    publish_log ref.id "info" "Tool completed successfully" (publish_result ref.id result w)

-- The body of the `try`.
unfoldable pub try_once : Ref → ℕ → Turn → World → Result Json × World
try_once ref attempt t w =
    let w' = count_call ref (announce_retry ref attempt w) in
    elim t.routed [
      | thrown e ↦ (thrown e, w')
      | ok result ↦ elim t.saved [
        | thrown e ↦ (thrown e, w')
        | ok _ ↦ (ok result, report_done ref result (mark_done ref result w'))
      ]
    ]

-- How the loop goes on after an attempt.
pub data Next : Type 0 where
  stop : Result Json → Next
  give_up again : Exc → Next

abbrev pub timed_out_error : Ref → String → Exc
timed_out_error ref seconds =
    exc timeout ("Tool '" ^^ ref.tool_name ^^ "' timed out after " ^^ seconds ^^ "s")

-- The sleep before the next attempt. A task that is cancelled there ends with CancelledError.
unfoldable pub pause : ℕ → Turn → Exc → World → Next × World
unfolding backoff
pause attempt t last w =
    let w' = record w { waits = w.waits ++ backoff attempt t.jitter ∷ [] } in
    elim t.slept [ ok _ ↦ (again last, w') | thrown e ↦ (stop (thrown e), w') ]

-- `break` where the error is final, else the pause before the next attempt
unfoldable pub retry_unless : Bool → ℕ → Turn → Exc → World → Next × World
retry_unless true attempt t last w = (give_up last, w)
retry_unless false attempt t last w = pause attempt t last w

abbrev pub log_failure : Ref → Exc → World → World
log_failure ref e w = publish_log ref.id "error" e.message w

-- The `except` clauses, by whether the exception is a CancelledError, and whether a TimeoutError.
unfoldable pub handle : Bool → Bool → Ref → String → ℕ → Turn → Exc → World → Next × World
handle true timed ref seconds attempt t e w = (stop (ok cancelled_text), mark_cancelled ref w)
handle false true ref seconds attempt t e w =
    let last = timed_out_error ref seconds in
    retry_unless (leb max_retries attempt) attempt t last (log_failure ref last w)
handle false false ref seconds attempt t e w =
    retry_unless (leb max_retries attempt || not (is_transient e)) attempt t e (log_failure ref e w)

unfoldable pub on_error : Ref → String → ℕ → Turn → Exc → World → Next × World
on_error ref seconds attempt t e w =
    handle (is_instance e cancelled) (is_instance e timeout) ref seconds attempt t e w

unfoldable pub after_try : Ref → String → ℕ → Turn → Result Json × World → Next × World
after_try ref seconds attempt t (ok result, w) = (stop (ok result), w)
after_try ref seconds attempt t (thrown e, w) = on_error ref seconds attempt t e w

-- One round of the loop, by whether the cancel event is set.
unfoldable pub round_if : Bool → Ref → String → ℕ → Turn → World → Next × World
round_if true ref seconds attempt t w = (stop (ok cancelled_text), mark_cancelled ref w)
round_if false ref seconds attempt t w = after_try ref seconds attempt t (try_once ref attempt t w)

unfoldable pub round : Ref → String → ℕ → Turn → World → Next × World
round ref seconds attempt t w = round_if t.cancel_set ref seconds attempt t w

-- str(last_error) if last_error else "Unknown error"
abbrev pub error_text : Option Exc → String
error_text none = "Unknown error"
error_text (some e) = e.message

-- After the loop.
unfoldable pub fail : Ref → Option Exc → World → Result Json × World
fail ref last w =
    let message = error_text last in
    (ok (tool_error message []), publish_error ref.id message (mark_failed ref message w))

-- for attempt in range(MAX_RETRIES + 1), with the rounds that are left
unfoldable pub attempts :
    Ref → String → (ℕ → Turn) → ℕ → ℕ → Option Exc → World → Result Json × World
attempts ref seconds turns zero attempt last w = fail ref last w
attempts ref seconds turns (suc left) attempt last w =
    let (next, w') = round ref seconds attempt (turns attempt) w in
    elim next [
      | stop r ↦ (r, w')
      | give_up e ↦ fail ref (some e) w'
      | again e ↦ attempts ref seconds turns left (attempt + 1) (some e) w'
    ]

-- The run of one invocation that holds a slot of the semaphore.
unfoldable pub run : Ref → String → (ℕ → Turn) → World → Result Json × World
run ref seconds turns w =
    attempts ref seconds turns (max_retries + 1) 0 none
      (publish_log ref.id "info" ("Starting tool: " ^^ ref.tool_name) (mark_running ref w))

pub Next-cases :
    (n : Next)
    → ((r : Result Json) × (n ≡ stop r))
      ⊎ ((e : Exc) × (n ≡ give_up e))
      ⊎ ((e : Exc) × (n ≡ again e))
Next-cases (stop r) = inl (r, refl)
Next-cases (give_up e) = inr (inl (e, refl))
Next-cases (again e) = inr (inr (e, refl))
