-- ===== src/Execution/Policy.antt =====
-- The retry policy of a whole run: what is returned, how often the backend is called, and how often
-- the run pauses.
use grafux_mcp.Base.{
  List, Option, String, [], ap, append_assoc, arith, length, none, refl, replicate, some, suc, zero,
  ℕ, ◌++◌, ◌+◌, ◌-◌, ◌<◌, ◌^^◌, ◌∙◌, ◌∷◌, ◌≡◌, ◌≤◌, nat_eq, string_eq, pair_eq,
}
use grafux_mcp.Json.{Json}
use grafux_mcp.Json.Envelope.{tool_error}
use grafux_mcp.Exceptions.{Exc, ok}
use grafux_mcp.Execution.{
  Ref, Turn, World, broken, mark_failed, mark_running, max_retries, publish, publish_error,
  publish_log, started,
}
use grafux_mcp.Execution.Run.{
  announce_retry, attempts, count_call, error_text, fail, log_failure, run,
}
use grafux_mcp.Execution.Retries.{
  IsFatal, IsSuccess, IsTransient, attempts-follow, called, follow, log_calls, remembered,
  update_calls,
}
use grafux_mcp.Execution.Attempts.{climb, done_world_counts, fatal-round, success-round}

replicate_snoc {ℓ} : {A : Type ℓ} (k : ℕ) (a : A) → replicate k a ++ a ∷ [] ≡ replicate (suc k) a
replicate_snoc zero a = refl
replicate_snoc (suc k) a = ap (λ xs. a ∷ xs) (replicate_snoc k a)

-- Calls and pauses of a run that starts in `w` and ends in `w'`.
abbrev pub Effort : Ref → World → World → ℕ → ℕ → Type 0
Effort ref w w' k m =
    (w'.calls ≡ w.calls ++ replicate k ref.tool_name) × (length w'.waits ≡ length w.waits + m)

module _ (ref : Ref) (seconds : String) (turns : ℕ → Turn) (w : World) where
  opening : World
  opening = publish_log ref.id "info" ("Starting tool: " ^^ ref.tool_name) (mark_running ref w)

  opening_counts : (opening.calls ≡ w.calls) × (opening.waits ≡ w.waits)
  unfolding opening mark_running
  opening_counts =
      let (a, b) =
        log_calls ref seconds "info" ("Starting tool: " ^^ ref.tool_name) (mark_running ref w) in
      let (c, d) = update_calls ref seconds (started w.clock) w in (a ∙ c, b ∙ d)

  -- The run up to its attempt `k`, after transient failures.
  abbrev Reached : ℕ → Type 0
  Reached k =
      (last : Option Exc) × (u : World) × (attempts ref seconds turns (max_retries + 1) 0 none
          opening
        ≡ attempts ref seconds turns (suc (max_retries - k)) k last u)
      × (u.calls ≡ opening.calls ++ replicate k ref.tool_name)
      × (length u.waits ≡ length opening.waits + k)

  reached : (k : ℕ) → k ≤ max_retries → ((i : ℕ) → i < k → IsTransient (turns i)) → Reached k
  reached k b ts =
      let (last, u, eq, cs, ms) =
        climb ref seconds turns k (max_retries + 1) 0 (max_retries - k) none opening
          (λ i a c. ts i (omega arith)) (omega arith) (omega arith) in
      let q : 0 + k ≡ k = omega arith in
      (
        last,
        u,
        eq ∙ ap (λ m. attempts ref seconds turns (suc (max_retries - k)) m last u) q,
        cs,
        ms,
      )

  -- One more call after `k`.
  one_more :
      (k : ℕ) (us vs : List String)
      → us ≡ opening.calls ++ replicate k ref.tool_name
      → vs ≡ us ++ ref.tool_name ∷ []
      → vs ≡ w.calls ++ replicate (suc k) ref.tool_name
  one_more k us vs h g =
      g
      ∙ ap (λ xs. xs ++ ref.tool_name ∷ [])
          (h ∙ ap (λ xs. xs ++ replicate k ref.tool_name) opening_counts.0)
      ∙ append_assoc w.calls (replicate k ref.tool_name) (ref.tool_name ∷ [])
      ∙ ap (λ xs. w.calls ++ xs) (replicate_snoc k ref.tool_name)

  -- Up to two transient failures and then a success: the run returns that result, with one call of
  -- the backend for each attempt and one pause for each failure.
  pub run-succeeds :
      (k : ℕ) (result : Json)
      → k ≤ max_retries
      → ((i : ℕ) → i < k → IsTransient (turns i))
      → IsSuccess (turns k) result
      → ((run ref seconds turns w).0 ≡ ok result)
        × Effort ref w (run ref seconds turns w).1 (suc k) k
  unfolding run opening
  run-succeeds k result b ts s =
      let (last', w', eq, cs, ms) = reached k b ts in
      let end =
        eq
        ∙ attempts-follow ref seconds turns (max_retries - k) k last' w'
        ∙ ap (follow ref seconds turns (max_retries - k) k)
            (success-round ref seconds turns k result w' s) in
      let (c, m) = done_world_counts ref seconds turns k result w' in
      (
        ap (λ r. r.0) end,
        (
          ap (λ r. r.1.calls) end ∙ one_more k w'.calls _ cs c,
          omega
              (arith, ap (λ r. length r.1.waits) end, ap length m, ms, ap length opening_counts.1),
        ),
      )

  fail_counts :
      (last : Option Exc) (u : World)
      → ((fail ref last u).1.calls ≡ u.calls) × ((fail ref last u).1.waits ≡ u.waits)
  unfolding fail publish_error publish mark_failed
  fail_counts last u = update_calls ref seconds (broken u.clock (error_text last)) u

  -- Up to two transient failures and then a failure that is not transient, or a third failure: the
  -- run returns the error envelope with that failure's message (for a timeout, the service's own),
  -- with one call of the backend for each attempt and no pause after the last.
  pub run-fails :
      (k : ℕ) (e : Exc)
      → k ≤ max_retries
      → ((i : ℕ) → i < k → IsTransient (turns i))
      → IsFatal k (turns k) e
      → ((run ref seconds turns w).0 ≡ ok (tool_error (remembered ref seconds e).message []))
        × Effort ref w (run ref seconds turns w).1 (suc k) k
  unfolding run opening fail
  run-fails k e b ts f =
      let (last', w', eq, cs, ms) = reached k b ts in
      let x = remembered ref seconds e in
      let v = count_call ref (announce_retry ref k w') in
      let end =
        eq
        ∙ attempts-follow ref seconds turns (max_retries - k) k last' w'
        ∙ ap (follow ref seconds turns (max_retries - k) k)
            (fatal-round ref seconds turns k e w' f) in
      let (c, m) = called ref seconds k w' in
      let (c1, m1) = log_calls ref seconds "error" x.message v in
      let (c2, m2) = fail_counts (some x) (log_failure ref x v) in
      (
        ap (λ r. r.0) end ∙ fail-result (some x) (log_failure ref x v),
        (
          ap (λ r. r.1.calls) end ∙ one_more k w'.calls _ cs (c2 ∙ c1 ∙ c),
          omega (
            arith,
            ap (λ r. length r.1.waits) end,
            ap length (m2 ∙ m1 ∙ m),
            ms,
            ap length opening_counts.1,
          ),
        ),
      )
    where
      fail-result :
          (last : Option Exc) (u : World)
          → (fail ref last u).0 ≡ ok (tool_error (error_text last) [])
      fail-result last u = refl
