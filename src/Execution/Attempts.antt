-- ===== src/Execution/Attempts.antt =====
-- The retry policy of a whole run: which attempts are made, and what comes of them.
use grafux_mcp.Base.{
  Bool, Option, String, [], any, ap, append-nil, append_assoc, arith, false, if◌then◌else◌, leb,
  length, length-append, not, refl, replicate, some, suc, sym, true, zero, ℕ, ◌++◌, ◌+◌, ◌<◌, ◌||◌,
  ◌∙◌, ◌∷◌, ◌≡◌, ◌≤◌, nat_eq, string_eq, pair_eq,
}
use grafux_mcp.Json.{Json}
use grafux_mcp.Json.Envelope.{}
use grafux_mcp.Exceptions.{Exc, is_instance, is_instance_of_any, ok, timeout}
use grafux_mcp.Execution.{
  Ref, Turn, World, backoff, completed, is_transient, mark_done, max_retries, publish, publish_log,
  publish_result,
}
use grafux_mcp.Execution.Run.{
  after_try, announce_retry, attempts, count_call, give_up, handle, log_failure, report_done,
  retry_unless, round, round_if, stop, timed_out_error, try_once,
}
use grafux_mcp.Execution.Retries.{
  IsFatal, IsSuccess, IsTransient, after_pause, after_pause_counts, attempts-again, called,
  remembered, round-error, update_calls,
}

-- A TimeoutError is transient.
not_timeout : (e : Exc) → is_transient e ≡ false → is_instance e timeout ≡ false
unfolding is_transient is_instance_of_any any
not_timeout e h = ground arith

module _ (ref : Ref) (seconds : String) (turns : ℕ → Turn) where
  -- The loop after `k` transient failures.
  abbrev pub Climbed : ℕ → ℕ → ℕ → Option Exc → World → ℕ → Type 0
  Climbed k left n last w l =
      (last' : Option Exc) × (w' : World) × (attempts ref seconds turns left n last w
        ≡ attempts ref seconds turns (suc l) (n + k) last' w')
      × (w'.calls ≡ w.calls ++ replicate k ref.tool_name)
      × (length w'.waits ≡ length w.waits + k)

  pub climb :
      (k left n l : ℕ) (last : Option Exc) (w : World)
      → ((i : ℕ) → n ≤ i → i < n + k → IsTransient (turns i))
      → n + k ≤ max_retries
      → left ≡ k + suc l
      → Climbed k left n last w l
  climb zero left n l last w ts b e =
      let p : left ≡ suc l = omega arith in
      let q : n ≡ n + 0 = omega arith in
      (
        last,
        w,
        ap (λ m. attempts ref seconds turns m n last w) p
            ∙ ap (λ m. attempts ref seconds turns (suc l) m last w) q,
        sym (append-nil w.calls),
        omega arith,
      )
  climb (suc k) left n l last w ts b e =
      let i : IsTransient (turns n) = ts n (omega arith) (omega arith) in
      let w' = after_pause ref seconds n (turns n) i.error w in
      let (last'', w'', eq, cs, ms) =
        climb k (k + suc l) (n + 1) l (some (remembered ref seconds i.error)) w'
          (λ j a c. ts j (omega arith) (omega arith)) (omega arith) refl in
      let (c1, m1) = after_pause_counts ref seconds n (turns n) i.error w in
      let p : left ≡ suc (k + suc l) = omega arith in
      let q : n + 1 + k ≡ n + suc k = omega arith in
      (
        last'',
        w'',
        ap (λ m. attempts ref seconds turns m n last w) p
            ∙ attempts-again ref seconds turns (k + suc l) n last w i (omega arith)
            ∙ eq
            ∙ ap (λ m. attempts ref seconds turns (suc l) m last'' w'') q,
        cs
            ∙ ap (λ xs. xs ++ replicate k ref.tool_name) c1
            ∙ append_assoc w.calls (ref.tool_name ∷ []) (replicate k ref.tool_name),
        omega (arith, ms, ap length m1, length-append w.waits (backoff n (turns n).jitter ∷ [])),
      )

  pub done_world : ℕ → Json → World → World
  done_world n v w = report_done ref v (mark_done ref v (count_call ref (announce_retry ref n w)))

  pub success-round :
      (n : ℕ) (v : Json) (w : World)
      → IsSuccess (turns n) v
      → round ref seconds n (turns n) w ≡ (stop (ok v), done_world n v w)
  unfolding round round_if after_try done_world try_once
  success-round n v w s =
      ap (λ b. round_if b ref seconds n (turns n) w) s.live
      ∙ ap (after_try ref seconds n (turns n)) (try_success n (turns n) v w s)
    where
      try_success :
          (n : ℕ) (t : Turn) (v : Json) (w : World)
          → IsSuccess t v
          → try_once ref n t w ≡ (ok v, done_world n v w)
      try_success n t v w s = rw (s.returns, try_once) (rw (s.stores, try_once) refl)

  pub done_world_counts :
      (n : ℕ) (v : Json) (w : World)
      → ((done_world n v w).calls ≡ w.calls ++ ref.tool_name ∷ [])
        × ((done_world n v w).waits ≡ w.waits)
  unfolding done_world report_done publish_log publish_result publish mark_done
  done_world_counts n v w =
      let w' = count_call ref (announce_retry ref n w) in
      let (a, b) = called ref seconds n w in
      let (c, d) = update_calls ref seconds (completed w'.clock v) w' in (c ∙ a, d ∙ b)

  handle-last :
      (b : Bool) (n : ℕ) (e : Exc) (w : World)
      → b ≡ is_instance e timeout
      → IsFatal n (turns n) e
      → handle false b ref seconds n (turns n) e w ≡ (
        give_up (if b then timed_out_error ref seconds else e),
        log_failure ref (if b then timed_out_error ref seconds else e) w,
      )
  unfolding handle retry_unless
  handle-last true n e w h f =
      let q : leb max_retries n ≡ true = ground (arith, not_timeout e, f.last) in
      ap
        (λ b.
          retry_unless b n (turns n) (timed_out_error ref seconds)
            (log_failure ref (timed_out_error ref seconds) w))
        q
  handle-last false n e w h f =
      let q : (leb max_retries n || not (is_transient e)) ≡ true = ground (arith, f.last) in
      ap (λ b. retry_unless b n (turns n) e (log_failure ref e w)) q

  pub fatal-round :
      (n : ℕ) (e : Exc) (w : World)
      → IsFatal n (turns n) e
      → round ref seconds n (turns n) w ≡ (
        give_up (remembered ref seconds e),
        log_failure ref (remembered ref seconds e) (count_call ref (announce_retry ref n w)),
      )
  fatal-round n e w f =
      round-error ref seconds n (turns n) e w f.live f.fails f.caught
      ∙ handle-last (is_instance e timeout) n e _ refl f
