-- ===== src/Cancellation/Tests.antt =====
-- The cancellation registry at a concrete input.
use grafux_mcp.Base.{[], arith, eq_iff, false, ◌∷◌, ◌≡◌, nat_eq, string_eq, pair_eq}
use grafux_mcp.Cancellation.{Events, cancellation_life, is_cancelled, unregister}

abbrev busy : Events
busy = record { flags = ("a", false) ∷ [] }

cancellation_life_example : is_cancelled "a" (unregister "b" busy) ≡ is_cancelled "a" busy
cancellation_life_example = (cancellation_life "b" "a" busy (λ e. ground (arith, eq_iff "b" "a"))).7
