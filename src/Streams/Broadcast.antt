-- ===== src/Streams/Broadcast.antt =====
-- Who gets a message that is sent to a set of sockets, and who is dropped.
use grafux_mcp.Base.{
  Bool, Dict, List, String, [], ap, arith, contains, contains-discard, contains-filter, discard,
  eq_iff, filter, if◌then◌else◌, not, refl, ◌&&◌, ◌==◌, ◌∙◌, ◌∷◌, ◌≡◌, nat_eq, string_eq, pair_eq,
}
use grafux_mcp.Streams.{
  Manager, Socket, broadcast_to_org, discard_all, send_to_invocation_waiters, set_of, without_dead,
}
use grafux_mcp.Streams.Members.{contains-replaced, is_connected, is_waiting, set_of-insert}

contains-discard_all :
    (dead ws : List Socket) (w : Socket)
    → contains (discard_all dead ws) w ≡ (contains ws w && not (contains dead w))
unfolding discard_all contains
contains-discard_all [] ws w = ground arith
contains-discard_all (d ∷ dead) ws w =
    ground (arith, contains-discard_all dead (discard d ws) w, contains-discard d w ws)

module _ (fails : Socket → Bool) (key : String) (d : Dict String (List Socket)) where
  abbrev after_sending : Dict String (List Socket)
  after_sending = without_dead key (filter fails (set_of key d)) d

  set_of-without_dead :
      (dead : List Socket) (j : String)
      → set_of j (without_dead key dead d)
        ≡ (if key == j then discard_all dead (set_of key d) else set_of j d)
  unfolding discard_all
  set_of-without_dead [] j = ground (arith, eq_iff key j)
  set_of-without_dead (x ∷ dead) j = set_of-insert key j d (discard_all (x ∷ dead) (set_of key d))

  pub contains-after_sending :
      (w : Socket) (j : String)
      → contains (set_of j after_sending) w
        ≡ (if key == j then contains (set_of j d) w && not (fails w) else contains (set_of j d) w)
  contains-after_sending w j =
      contains-replaced key j w d after_sending
        (discard_all (filter fails (set_of key d)) (set_of key d))
        (contains (set_of j d) w && not (fails w))
        (set_of-without_dead (filter fails (set_of key d)) j)
        (λ q.
          contains-discard_all (filter fails (set_of key d)) (set_of key d) w
          ∙ ap (λ b. contains (set_of key d) w && not b) (contains-filter fails (set_of key d) w)
          ∙ ap (λ s. contains (set_of s d) w && not (contains (set_of s d) w && fails w)) q
          ∙ ground arith)

-- A broadcast reaches exactly the sockets of the organisation that can be sent to, and drops exactly
-- the others of that organisation.
pub broadcast_to_org_lem :
    (fails : Socket → Bool) (org j : String) (m : Manager) (w : Socket)
    → (contains (broadcast_to_org fails org m).0 w ≡ (is_connected w org m && not (fails w)))
      × (is_connected w j (broadcast_to_org fails org m).1
          ≡ (if org == j then is_connected w j m && not (fails w) else is_connected w j m))
      × (is_waiting w j (broadcast_to_org fails org m).1 ≡ is_waiting w j m)
unfolding broadcast_to_org is_connected is_waiting
broadcast_to_org_lem fails org j m w = (
  contains-filter (λ ws. not (fails ws)) (set_of org m.connections) w,
  contains-after_sending fails org m.connections w j,
  refl,
)

-- The same for the sockets that wait for an invocation.
pub send_to_invocation_waiters_lem :
    (fails : Socket → Bool) (id j : String) (m : Manager) (w : Socket)
    → (contains (send_to_invocation_waiters fails id m).0 w ≡ (is_waiting w id m && not (fails w)))
      × (is_waiting w j (send_to_invocation_waiters fails id m).1
          ≡ (if id == j then is_waiting w j m && not (fails w) else is_waiting w j m))
      × (is_connected w j (send_to_invocation_waiters fails id m).1 ≡ is_connected w j m)
unfolding send_to_invocation_waiters is_connected is_waiting
send_to_invocation_waiters_lem fails id j m w = (
  contains-filter (λ ws. not (fails ws)) (set_of id m.waiters) w,
  contains-after_sending fails id m.waiters w j,
  refl,
)
