-- ===== src/Execution/Outcome.antt =====
-- What a run returns and what its row says at the end agree.
use grafux_mcp.Base.{
  Bool, Option, String, [], false, inl, inr, leb, lookup, lookup-insert_self, none, not, refl, some,
  suc, true, zero, ℕ, ◌+◌, ◌||◌, ◌∷◌, ◌≡◌, nat_eq, string_eq, pair_eq,
}
use grafux_mcp.Json.{Json, dict, str}
use grafux_mcp.Json.Envelope.{tool_error}
use grafux_mcp.Exceptions.{Exc, Result, Result-cases, cancelled, is_instance, ok, timeout}
use grafux_mcp.Execution.{
  Invocation, Ref, Turn, World, broken, cancelled_status, completed, done, failed, is_transient,
  mark_cancelled, mark_done, mark_failed, mark_running, max_retries, publish, publish_error,
  publish_log, publish_result, started, stopped, update_row,
}
use grafux_mcp.Execution.Run.{
  Next, Next-cases, after_try, again, announce_retry, attempts, cancelled_text, count_call,
  error_text, fail, give_up, handle, log_failure, on_error, pause, report_done, retry_unless, round,
  round_if, run, stop, timed_out_error, try_once,
}

-- The invocation is stored.
abbrev pub HasRow : Ref → World → Type 0
HasRow ref w = (row : Invocation) × (lookup ref.id w.rows ≡ some row)

-- The three ways to end, by what the caller gets and what the row holds.
pub data Ends (ref : Ref) (r : Result Json) (w : World) : Type 0 where
  as_done :
      (result : Json) (row : Invocation)
      → r ≡ ok result
      → lookup ref.id w.rows ≡ some row
      → row.status ≡ done
      → row.output ≡ some result
      → Ends ref r w
  as_cancelled :
      (row : Invocation)
      → r ≡ ok (tool_error "Invocation cancelled" [])
      → lookup ref.id w.rows ≡ some row
      → row.status ≡ cancelled_status
      → Ends ref r w
  as_failed :
      (message : String) (row : Invocation)
      → r ≡ ok (tool_error message [])
      → lookup ref.id w.rows ≡ some row
      → row.status ≡ failed
      → row.error_message ≡ some message
      → Ends ref r w

module _ (ref : Ref) where
  -- Writing the row that is there.
  update_row-lookup :
      (f : Invocation → Invocation) (w : World) (row : Invocation)
      → lookup ref.id w.rows ≡ some row
      → lookup ref.id (update_row ref.id f w).rows ≡ some (f row)
  unfolding update_row
  update_row-lookup f w row h = rw (h, update_row) (lookup-insert_self ref.id (f row) w.rows)

  publish-HasRow :
      (type : String) (body : Json) (final : Bool) (w : World)
      → HasRow ref w
      → HasRow ref (publish ref.id type body final w)
  unfolding publish
  publish-HasRow type body final w h = h

  log-HasRow :
      (level m : String) (w : World) → HasRow ref w → HasRow ref (publish_log ref.id level m w)
  unfolding publish_log
  log-HasRow level m w h =
      publish-HasRow "log" (dict (("level", str level) ∷ ("message", str m) ∷ [])) false w h

  announce-HasRow :
      (n : ℕ) (w : World) → HasRow ref w → HasRow ref (count_call ref (announce_retry ref n w))
  unfolding count_call
  announce-HasRow zero w h = h
  announce-HasRow (suc n) w h = log-HasRow _ _ w h

  cancelled-Ends : (w : World) → HasRow ref w → Ends ref (ok cancelled_text) (mark_cancelled ref w)
  unfolding mark_cancelled
  cancelled-Ends w (row, h) =
      as_cancelled (stopped w.clock row) refl (update_row-lookup (stopped w.clock) w row h) refl

  fail-Ends :
      (last : Option Exc) (w : World)
      → HasRow ref w
      → Ends ref (fail ref last w).0 (fail ref last w).1
  unfolding fail publish_error publish mark_failed
  fail-Ends last w (row, h) =
      as_failed (error_text last) (broken w.clock (error_text last) row) refl
        (update_row-lookup (broken w.clock (error_text last)) w row h) refl refl

  done-Ends :
      (result : Json) (w : World)
      → HasRow ref w
      → Ends ref (ok result) (report_done ref result (mark_done ref result w))
  unfolding report_done publish_log publish_result publish mark_done
  done-Ends result w (row, h) =
      as_done result (completed w.clock result row) refl
        (update_row-lookup (completed w.clock result) w row h) refl refl

  -- What a round leaves: an end, or a stored invocation to go on with.
  abbrev Leaves : Next × World → Type 0
  Leaves (stop r, w) = Ends ref r w
  Leaves (give_up e, w) = HasRow ref w
  Leaves (again e, w) = HasRow ref w

  pause-Leaves :
      (n : ℕ) (t : Turn) (e : Exc) (w : World)
      → t.slept ≡ ok tt
      → HasRow ref w
      → Leaves (pause n t e w)
  unfolding pause
  pause-Leaves n t e w s h = rw (s, pause) h

  retry-Leaves :
      (b : Bool) (n : ℕ) (t : Turn) (e : Exc) (w : World)
      → t.slept ≡ ok tt
      → HasRow ref w
      → Leaves (retry_unless b n t e w)
  unfolding retry_unless
  retry-Leaves true n t e w s h = h
  retry-Leaves false n t e w s h = pause-Leaves n t e w s h

  handle-Leaves :
      (a b : Bool) (seconds : String) (n : ℕ) (t : Turn) (e : Exc) (w : World)
      → t.slept ≡ ok tt
      → HasRow ref w
      → Leaves (handle a b ref seconds n t e w)
  unfolding handle
  handle-Leaves true b seconds n t e w s h = cancelled-Ends w h
  handle-Leaves false true seconds n t e w s h =
      retry-Leaves (leb max_retries n) n t (timed_out_error ref seconds)
        (log_failure ref (timed_out_error ref seconds) w) s
        (log-HasRow "error" (timed_out_error ref seconds).message w h)
  handle-Leaves false false seconds n t e w s h =
      retry-Leaves (leb max_retries n || not (is_transient e)) n t e (log_failure ref e w) s
        (log-HasRow "error" e.message w h)

  after_try-Leaves :
      (seconds : String) (n : ℕ) (t : Turn) (w : World)
      → t.slept ≡ ok tt
      → HasRow ref w
      → Leaves (after_try ref seconds n t (try_once ref n t w))
  unfolding try_once after_try on_error
  after_try-Leaves seconds n t w s h =
      let h' = announce-HasRow n w h in
      elim (Result-cases t.routed) [
        | inr (e, q) ↦
            rw (q, try_once, after_try)
              (handle-Leaves (is_instance e cancelled) (is_instance e timeout) seconds n t e
                (count_call ref (announce_retry ref n w)) s h')
        | inl (v, q) ↦ elim (Result-cases t.saved) [
          | inr (e, p) ↦
              rw (q, p, try_once, after_try)
                (handle-Leaves (is_instance e cancelled) (is_instance e timeout) seconds n t e
                  (count_call ref (announce_retry ref n w)) s h')
          | inl (u, p) ↦
              rw (q, p, try_once, after_try)
                (done-Ends v (count_call ref (announce_retry ref n w)) h')
        ]
      ]

  round-Leaves :
      (b : Bool) (seconds : String) (n : ℕ) (t : Turn) (w : World)
      → t.slept ≡ ok tt
      → HasRow ref w
      → Leaves (round_if b ref seconds n t w)
  unfolding round_if
  round-Leaves true seconds n t w s h = cancelled-Ends w h
  round-Leaves false seconds n t w s h = after_try-Leaves seconds n t w s h

  attempts-Ends :
      (seconds : String) (turns : ℕ → Turn) (left n : ℕ) (last : Option Exc) (w : World)
      → ((k : ℕ) → (turns k).slept ≡ ok tt)
      → HasRow ref w
      → Ends ref
          (attempts ref seconds turns left n last w).0
          (attempts ref seconds turns left n last w).1
  unfolding attempts round
  attempts-Ends seconds turns zero n last w s h = fail-Ends last w h
  attempts-Ends seconds turns (suc left) n last w s h =
      let leaves = round-Leaves (turns n).cancel_set seconds n (turns n) w (s n) h in
      elim (Next-cases (round ref seconds n (turns n) w).0) [
        | inl (r, q) ↦ rw (q, attempts) (rw (q, Leaves) at leaves)
        | inr (inl (e, q)) ↦ rw (q, attempts) (fail-Ends (some e) _ (rw (q, Leaves) at leaves))
        | inr (inr (e, q)) ↦
            rw (q, attempts)
              (attempts-Ends seconds turns left (n + 1) (some e) _ s (rw (q, Leaves) at leaves))
      ]

pub run-Ends :
    (ref : Ref) (seconds : String) (turns : ℕ → Turn) (w : World)
    → ((k : ℕ) → (turns k).slept ≡ ok tt)
    → HasRow ref w
    → Ends ref (run ref seconds turns w).0 (run ref seconds turns w).1
unfolding run mark_running
run-Ends ref seconds turns w s (row, h) =
    attempts-Ends ref seconds turns (max_retries + 1) 0 none _ s (
      log-HasRow ref "info" _ _
        (started w.clock row, update_row-lookup ref (started w.clock) w row h))
