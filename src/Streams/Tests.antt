-- ===== src/Streams/Tests.antt =====
-- Tests of the stream manager and of subscriptions, and their theorems at concrete inputs.
use grafux_mcp.Streams.History.{
  Op, broadcasts, connected_by, connects, disconnects, perform_all, perform_all-members, waiting_by,
  waits,
}
use grafux_mcp.Base.{
  Dict, List, String, [], add, any, contains, discard, erase, false, filter, insert, lookup, refl,
  true, ◌==◌, ◌↔◌, ◌∷◌, ◌≡◌, nat_eq, string_eq, pair_eq,
}
use grafux_mcp.Json.{Json, bool, str}
use grafux_mcp.Streams.{
  Manager, broadcast_to_org, connect, discard_all, disconnect, no_streams, set_of,
}
use grafux_mcp.Streams.Members.{is_connected, is_waiting}
use grafux_mcp.Streams.Broadcast.{}
use grafux_mcp.Streams.Subscription.{
  completed, event, idle, in_time, is_final, subscribe, subscribe_lem, through_final,
}

abbrev two : Manager
unfolding connect
two = connect 2 "acme" (connect 1 "acme" no_streams)

abbrev log : Dict String Json
log = ("type", str "log") ∷ ("final", bool false) ∷ []

abbrev result : Dict String Json
result = ("type", str "result") ∷ ("final", bool true) ∷ []

-- A log event after the final event is not received.
stops_at_final :
    subscribe (event log ∷ idle ∷ event result ∷ event log ∷ []) ≡ (log ∷ result ∷ [], completed)
unfolding subscribe lookup
stops_at_final = refl

gone_alone : (disconnect 1 "acme" (connect 1 "acme" no_streams)).connections ≡ []
unfolding disconnect connect set_of lookup insert add contains discard erase
gone_alone = refl

one_left :
    broadcast_to_org (λ w. w == 1) "acme" two
    ≡ (2 ∷ [], record { connections = ("acme", 2 ∷ []) ∷ []; waiters = [] })
unfolding two broadcast_to_org connect set_of lookup insert add contains discard filter discard_all
one_left = refl

subscribe_lem_example :
    ((subscribe (event log ∷ event result ∷ [])).0
      ≡ through_final (in_time (event log ∷ event result ∷ [])))
    × (((subscribe (event log ∷ event result ∷ [])).1 ≡ completed)
        ↔ (any is_final (in_time (event log ∷ event result ∷ [])) ≡ true))
subscribe_lem_example = subscribe_lem (event log ∷ event result ∷ [])

abbrev broken_send : List Op
broken_send =
    connects 5 "acme"
    ∷ waits 5 "inv"
    ∷ broadcasts (λ ws. ws == 5) "acme"
    ∷ disconnects 5 "acme"
    ∷ []

perform_all-members_example :
    (is_connected 5 "acme" (perform_all broken_send two)
      ≡ connected_by 5 "acme" broken_send (is_connected 5 "acme" two))
    × (is_waiting 5 "acme" (perform_all broken_send two)
        ≡ waiting_by 5 "acme" broken_send (is_waiting 5 "acme" two))
perform_all-members_example = perform_all-members broken_send two 5 "acme"
