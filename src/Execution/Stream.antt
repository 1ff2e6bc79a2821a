-- ===== src/Execution/Stream.antt =====
-- The events that a run publishes: when its subscribers are told that it is over.
use grafux_mcp.Base.{
  List, String, [], if◌then◌else◌, ℕ, ◌+◌, ◌∷◌, ◌≡◌, ◌⊎◌, nat_eq, string_eq, pair_eq,
}
use grafux_mcp.Json.{Json}
use grafux_mcp.Json.Envelope.{tool_error}
use grafux_mcp.Exceptions.{Exc, Result, thrown, ok}
use grafux_mcp.Execution.{Event, Ref, World}
use grafux_mcp.Execution.Run.{Next, again, give_up, stop}

-- The number of final events.
abbrev pub finals : List (String × Event) → ℕ
finals [] = 0
finals ((channel, e) ∷ es) = (if e.final then 1 else 0) + finals es

module _ (ref : Ref) where
  -- A run that ends in `w` with `r`, where `n` final events were out before: it was cancelled and
  -- published none, or it published one.
  abbrev pub Told : ℕ → Result Json → World → Type 0
  Told n r w =
      ((r ≡ ok (tool_error "Invocation cancelled" [])) × (finals w.published ≡ n))
      ⊎ ((e : Exc) × (r ≡ thrown e) × (finals w.published ≡ n))
      ⊎ (finals w.published ≡ n + 1)

  abbrev Tells : ℕ → Next × World → Type 0
  Tells n (stop r, w) = Told n r w
  Tells n (give_up e, w) = finals w.published ≡ n
  Tells n (again e, w) = finals w.published ≡ n
