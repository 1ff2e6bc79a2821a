-- ===== src/Streams/Subscription.antt =====
-- core/streaming/event_bus.py: EventBus.subscribe, by what each turn of its loop meets.
use grafux_mcp.Base.{
  Bool, Dict, List, String, [], any, arith, false, if◌then◌else◌, lookup, none, refl, some, true,
  ◌↔◌, ◌∷◌, ◌≡◌, nat_eq, string_eq, pair_eq,
}
use grafux_mcp.Json.{Json, truthy}

-- One turn: the deadline has passed; no message, or one that is not an event; or an event.
pub data Poll : Type 0 where
  expired idle : Poll
  event : Dict String Json → Poll

-- event.get("final")
unfoldable pub is_final : Dict String Json → Bool
unfolding truthy lookup
is_final e = elim (lookup "final" e) [ none ↦ false | some v ↦ truthy v ]

pub data Ending : Type 0 where
  completed timed_out still_open : Ending

-- The events that are yielded, and how the loop stands after the turns.
unfoldable pub subscribe : List Poll → List (Dict String Json) × Ending
unfolding is_final
subscribe [] = ([], still_open)
subscribe (expired ∷ ps) = ([], timed_out)
subscribe (idle ∷ ps) = subscribe ps
subscribe (event e ∷ ps) =
    let rest = subscribe ps in if is_final e then (e ∷ [], completed) else (e ∷ rest.0, rest.1)

-- The events that come before the deadline.
unfoldable pub in_time : List Poll → List (Dict String Json)
in_time [] = []
in_time (expired ∷ ps) = []
in_time (idle ∷ ps) = in_time ps
in_time (event e ∷ ps) = e ∷ in_time ps

-- The list up to its first final event, that one included.
unfoldable pub through_final : List (Dict String Json) → List (Dict String Json)
through_final [] = []
through_final (e ∷ es) = let rest = through_final es in if is_final e then e ∷ [] else e ∷ rest

-- A subscriber gets the events that come before the deadline, in order, up to and with the first
-- final one; its stream is completed exactly where one of them is final.
pub subscribe_lem :
    (ps : List Poll)
    → ((subscribe ps).0 ≡ through_final (in_time ps))
      × (((subscribe ps).1 ≡ completed) ↔ (any is_final (in_time ps) ≡ true))
unfolding subscribe in_time through_final any
subscribe_lem [] = (refl, (λ h. cc, λ h. cc))
subscribe_lem (expired ∷ ps) = (refl, (λ h. cc, λ h. cc))
subscribe_lem (idle ∷ ps) = subscribe_lem ps
subscribe_lem (event e ∷ ps) = ground (arith, subscribe_lem ps)
