-- ===== src/Streams/History.antt =====
-- The stream manager against sets of memberships: what any sequence of its operations comes to.
use grafux_mcp.Base.{
  Bool, List, String, [], add, ap, arith, contains, contains-add, contains-discard, discard, not,
  refl, ◌&&◌, ◌==◌, ◌||◌, ◌∙◌, ◌∷◌, ◌≡◌, nat_eq, string_eq, pair_eq,
}
use grafux_mcp.Streams.{
  Manager, Socket, broadcast_to_org, connect, disconnect, send_to_invocation_waiters, set_of,
  subscribe_invocation, unsubscribe_invocation,
}
use grafux_mcp.Streams.Members.{
  connect_lem, contains-replaced, disconnect_lem, is_connected, is_waiting, set_of-insert,
}
use grafux_mcp.Streams.Broadcast.{broadcast_to_org_lem, send_to_invocation_waiters_lem}

-- The operations; the last two send to a set, and `fails` says to whom sending raises.
pub data Op : Type 0 where
  connects disconnects waits leaves : (ws : Socket) → (key : String) → Op
  broadcasts sends : (fails : Socket → Bool) → (key : String) → Op

abbrev perform : Op → Manager → Manager
perform (connects ws org) m = connect ws org m
perform (disconnects ws org) m = disconnect ws org m
perform (waits ws id) m = subscribe_invocation ws id m
perform (leaves ws id) m = unsubscribe_invocation ws id m
perform (broadcasts fails org) m = (broadcast_to_org fails org m).1
perform (sends fails id) m = (send_to_invocation_waiters fails id m).1

abbrev pub perform_all : List Op → Manager → Manager
perform_all [] m = m
perform_all (op ∷ ops) m = perform_all ops (perform op m)

module _ (w : Socket) (j : String) where
  -- Whether the socket is connected for the organisation.
  abbrev connected_after : Op → Bool → Bool
  connected_after (connects ws org) b = b || (org == j && ws == w)
  connected_after (disconnects ws org) b = b && not (org == j && ws == w)
  connected_after (broadcasts fails org) b = b && not (org == j && fails w)
  connected_after _ b = b

  -- Whether the socket waits for the invocation.
  abbrev waiting_after : Op → Bool → Bool
  waiting_after (waits ws id) b = b || (id == j && ws == w)
  waiting_after (leaves ws id) b = b && not (id == j && ws == w)
  waiting_after (disconnects ws org) b = b && not (ws == w)
  waiting_after (sends fails id) b = b && not (id == j && fails w)
  waiting_after _ b = b

  abbrev pub connected_by : List Op → Bool → Bool
  connected_by [] b = b
  connected_by (op ∷ ops) b = connected_by ops (connected_after op b)

  abbrev pub waiting_by : List Op → Bool → Bool
  waiting_by [] b = b
  waiting_by (op ∷ ops) b = waiting_by ops (waiting_after op b)

  waits_lem :
      (ws : Socket) (id : String) (m : Manager)
      → is_waiting w j (subscribe_invocation ws id m) ≡ (is_waiting w j m || (id == j && ws == w))
  unfolding is_waiting subscribe_invocation
  waits_lem ws id m =
      contains-replaced id j w m.waiters _ _ (contains (set_of j m.waiters) w || (ws == w))
        (set_of-insert id j m.waiters (add ws (set_of id m.waiters)))
        (λ q.
          contains-add ws w (set_of id m.waiters)
          ∙ ap (λ s. contains (set_of s m.waiters) w || (ws == w)) q)
      ∙ ground arith

  leaves_lem :
      (ws : Socket) (id : String) (m : Manager)
      → is_waiting w j (unsubscribe_invocation ws id m)
        ≡ (is_waiting w j m && not (id == j && ws == w))
  unfolding is_waiting unsubscribe_invocation
  leaves_lem ws id m =
      contains-replaced id j w m.waiters _ _ (contains (set_of j m.waiters) w && not (ws == w))
        (set_of-insert id j m.waiters (discard ws (set_of id m.waiters)))
        (λ q.
          contains-discard ws w (set_of id m.waiters)
          ∙ ap (λ s. contains (set_of s m.waiters) w && not (ws == w)) q)
      ∙ ground arith

  not_connecting :
      (ws : Socket) (id : String) (m : Manager)
      → (is_connected w j (subscribe_invocation ws id m) ≡ is_connected w j m)
        × (is_connected w j (unsubscribe_invocation ws id m) ≡ is_connected w j m)
  unfolding is_connected subscribe_invocation unsubscribe_invocation
  not_connecting ws id m = (refl, refl)

  step :
      (op : Op) (m : Manager)
      → (is_connected w j (perform op m) ≡ connected_after op (is_connected w j m))
        × (is_waiting w j (perform op m) ≡ waiting_after op (is_waiting w j m))
  step (connects ws org) m = let h = connect_lem ws w org j m in (h.0 ∙ ground arith, h.1)
  step (disconnects ws org) m = let h = disconnect_lem ws w org j m in (h.0 ∙ ground arith, h.1)
  step (waits ws id) m = ((not_connecting ws id m).0, waits_lem ws id m)
  step (leaves ws id) m = ((not_connecting ws id m).1, leaves_lem ws id m)
  step (broadcasts fails org) m =
      let h = broadcast_to_org_lem fails org j m w in (h.1 ∙ ground arith, h.2)
  step (sends fails id) m =
      let h = send_to_invocation_waiters_lem fails id j m w in (h.2, h.1 ∙ ground arith)

-- Whatever operations led here, a socket is connected for an organisation, and waits for an
-- invocation, exactly as in two sets of memberships: a connection and a subscription add one, a
-- disconnection takes away the one of that organisation and all of the socket's waits, and a message
-- that cannot be sent takes away the membership that it was sent by.
pub perform_all-members :
    (ops : List Op) (m : Manager) (w : Socket) (j : String)
    → (is_connected w j (perform_all ops m) ≡ connected_by w j ops (is_connected w j m))
      × (is_waiting w j (perform_all ops m) ≡ waiting_by w j ops (is_waiting w j m))
perform_all-members [] m w j = (refl, refl)
perform_all-members (op ∷ ops) m w j =
    let rest = perform_all-members ops (perform op m) w j in
    let one = step w j op m in
    (rest.0 ∙ ap (connected_by w j ops) one.0, rest.1 ∙ ap (waiting_by w j ops) one.1)
