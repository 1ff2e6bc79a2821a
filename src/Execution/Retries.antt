-- ===== src/Execution/Retries.antt =====
-- How often the backend is called, and when the run pauses.
use grafux_mcp.Base.{
  Bool, List, Option, Option-cases, String, [], ap, arith, false, if◌then◌else◌, inl, inr, leb,
  lookup, not, refl, some, suc, true, zero, ℕ, ◌++◌, ◌+◌, ◌<◌, ◌||◌, ◌∙◌, ◌∷◌, ◌≡◌, ◌⊎◌, nat_eq,
  string_eq, pair_eq,
}
use grafux_mcp.Json.{Json}
use grafux_mcp.Json.Envelope.{}
use grafux_mcp.Exceptions.{Exc, Result, cancelled, thrown, is_instance, ok, timeout}
use grafux_mcp.Execution.{
  Invocation, Ref, Turn, World, backoff, is_transient, max_retries, publish, publish_log,
  update_row,
}
use grafux_mcp.Execution.Run.{
  Next, Next-cases, after_try, again, announce_retry, attempts, count_call, fail, give_up, handle,
  log_failure, on_error, pause, retry_unless, round, round_if, stop, timed_out_error, try_once,
}

-- An attempt that fails in a way that is worth another one, and that may pause.
pub record IsTransient (t : Turn) : Type 0 where
  pub error : Exc
  pub live : t.cancel_set ≡ false
  pub fails : t.routed ≡ thrown error
  pub caught : is_instance error cancelled ≡ false
  pub transient : is_transient error ≡ true
  pub rests : t.slept ≡ ok tt

-- Attempt `n` fails, and no other one follows.
pub record IsFatal (n : ℕ) (t : Turn) (e : Exc) : Type 0 where
  pub live : t.cancel_set ≡ false
  pub fails : t.routed ≡ thrown e
  pub caught : is_instance e cancelled ≡ false
  pub last : (is_transient e ≡ false) ⊎ (n ≡ max_retries)

-- An attempt that succeeds and is stored.
pub record IsSuccess (t : Turn) (result : Json) : Type 0 where
  pub live : t.cancel_set ≡ false
  pub returns : t.routed ≡ ok result
  pub stores : t.saved ≡ ok tt

-- The exception that the loop remembers.
abbrev pub remembered : Ref → String → Exc → Exc
remembered ref seconds e = if is_instance e timeout then timed_out_error ref seconds else e

module _ (ref : Ref) (seconds : String) where
  -- What is counted of a world.
  abbrev pub Counts : World → World → List String → List ℕ → Type 0
  Counts w w' cs ms = (w'.calls ≡ w.calls ++ cs) × (w'.waits ≡ w.waits ++ ms)

  pub log_calls :
      (level m : String) (w : World)
      → ((publish_log ref.id level m w).calls ≡ w.calls)
        × ((publish_log ref.id level m w).waits ≡ w.waits)
  unfolding publish_log publish
  log_calls level m w = (refl, refl)

  pub update_calls :
      (f : Invocation → Invocation) (w : World)
      → ((update_row ref.id f w).calls ≡ w.calls) × ((update_row ref.id f w).waits ≡ w.waits)
  unfolding update_row
  update_calls f w = elim (Option-cases (lookup ref.id w.rows)) [
    | inl e ↦ rw (e, update_row) (refl, refl)
    | inr (row, e) ↦ rw (e, update_row) (refl, refl)
  ]

  pub called :
      (n : ℕ) (w : World)
      → ((count_call ref (announce_retry ref n w)).calls ≡ w.calls ++ ref.tool_name ∷ [])
        × ((count_call ref (announce_retry ref n w)).waits ≡ w.waits)
  unfolding count_call publish_log publish
  called zero w = (refl, refl)
  called (suc n) w = (refl, refl)

  -- The world of the pause.
  pub after_pause : (n : ℕ) (t : Turn) (e : Exc) (w : World) → World
  after_pause n t e w =
      let w' =
        log_failure ref (remembered ref seconds e) (count_call ref (announce_retry ref n w)) in
      record w' { waits = w'.waits ++ backoff n t.jitter ∷ [] }

  pub after_pause_counts :
      (n : ℕ) (t : Turn) (e : Exc) (w : World)
      → Counts w (after_pause n t e w) (ref.tool_name ∷ []) (backoff n t.jitter ∷ [])
  unfolding after_pause count_call publish_log publish
  after_pause_counts zero t e w = (refl, refl)
  after_pause_counts (suc n) t e w = (refl, refl)

  pub try_error :
      (n : ℕ) (t : Turn) (e : Exc) (w : World)
      → t.routed ≡ thrown e
      → try_once ref n t w ≡ (thrown e, count_call ref (announce_retry ref n w))
  unfolding try_once
  try_error n t e w h = rw (h, try_once) refl

  pause-again :
      (n : ℕ) (t : Turn) (e : Exc) (w : World)
      → t.slept ≡ ok tt
      → pause n t e w ≡ (again e, record w { waits = w.waits ++ backoff n t.jitter ∷ [] })
  unfolding pause
  pause-again n t e w h = rw (h, pause) refl

  retry-again :
      (b : Bool) (n : ℕ) (t : Turn) (e : Exc) (w : World)
      → b ≡ false
      → t.slept ≡ ok tt
      → retry_unless b n t e w ≡ (again e, record w { waits = w.waits ++ backoff n t.jitter ∷ [] })
  unfolding retry_unless
  retry-again true n t e w b h = cc
  retry-again false n t e w b h = pause-again n t e w h

  handle-again :
      (b : Bool) (n : ℕ) (t : Turn) (e : Exc) (w : World)
      → n < max_retries
      → is_transient e ≡ true
      → t.slept ≡ ok tt
      → handle false b ref seconds n t e w ≡ (
        again (if b then timed_out_error ref seconds else e),
        record (log_failure ref (if b then timed_out_error ref seconds else e) w) {
          waits =
              (log_failure ref (if b then timed_out_error ref seconds else e) w).waits
              ++ backoff n t.jitter ∷ [];
        },
      )
  unfolding handle
  handle-again true n t e w lt tr h =
      retry-again (leb max_retries n) n t (timed_out_error ref seconds) _ (ground arith) h
  handle-again false n t e w lt tr h =
      retry-again (leb max_retries n || not (is_transient e)) n t e _ (ground arith) h

  -- With the cancel event unset, a round whose call fails is the handler's.
  pub round-error :
      (n : ℕ) (t : Turn) (e : Exc) (w : World)
      → t.cancel_set ≡ false
      → t.routed ≡ thrown e
      → is_instance e cancelled ≡ false
      → round ref seconds n t w
        ≡ handle false
            (is_instance e timeout)
            ref
            seconds
            n
            t
            e
            (count_call ref (announce_retry ref n w))
  unfolding round round_if after_try on_error
  round-error n t e w live fails caught =
      ap (λ b. round_if b ref seconds n t w) live
      ∙ ap (after_try ref seconds n t) (try_error n t e w fails)
      ∙ ap
          (λ b.
            handle b (is_instance e timeout) ref seconds n t e
              (count_call ref (announce_retry ref n w)))
          caught

  pub again-round :
      (n : ℕ) (t : Turn) (w : World) (i : IsTransient t)
      → n < max_retries
      → round ref seconds n t w
        ≡ (again (remembered ref seconds i.error), after_pause n t i.error w)
  unfolding after_pause
  again-round n t w i lt =
      round-error n t i.error w i.live i.fails i.caught
      ∙ handle-again (is_instance i.error timeout) n t i.error _ lt i.transient i.rests

  -- One step of the loop, by what the round gives.
  abbrev pub follow : (ℕ → Turn) → ℕ → ℕ → Next × World → Result Json × World
  follow turns left n (stop r, w) = (r, w)
  follow turns left n (give_up e, w) = fail ref (some e) w
  follow turns left n (again e, w) = attempts ref seconds turns left (n + 1) (some e) w

  pub attempts-follow :
      (turns : ℕ → Turn) (left n : ℕ) (last : Option Exc) (w : World)
      → attempts ref seconds turns (suc left) n last w
        ≡ follow turns left n (round ref seconds n (turns n) w)
  unfolding attempts
  attempts-follow turns left n last w = elim (Next-cases (round ref seconds n (turns n) w).0) [
    | inl (r, q) ↦ rw (q, attempts, follow) refl
    | inr (inl (e, q)) ↦ rw (q, attempts, follow) refl
    | inr (inr (e, q)) ↦ rw (q, attempts, follow) refl
  ]

  -- A transient failure, with attempts left, leads to the next attempt.
  pub attempts-again :
      (turns : ℕ → Turn) (left n : ℕ) (last : Option Exc) (w : World) (i : IsTransient (turns n))
      → n < max_retries
      → attempts ref seconds turns (suc left) n last w
        ≡ attempts ref seconds turns left
            (n + 1)
            (some (remembered ref seconds i.error))
            (after_pause n (turns n) i.error w)
  attempts-again turns left n last w i lt =
      attempts-follow turns left n last w
      ∙ ap (follow turns left n) (again-round n (turns n) w i lt)
