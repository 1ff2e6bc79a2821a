-- ===== src/Streams/Members.antt =====
-- Who is connected and who waits after each operation of the stream manager.
use grafux_mcp.Base.{
  Bool, Bool-cases, Dict, List, Option, String, [], add, ap, arith, contains, contains-add,
  contains-discard, discard, eq_iff, erase, if◌then◌else◌, inl, inr, insert, length, length-append,
  lookup, lookup-erase, lookup-insert, none, not, refl, some, tally, tally-insert, tally-insert_new,
  ◌&&◌, ◌+◌, ◌==◌, ◌||◌, ◌∙◌, ◌∷◌, ◌≡◌, nat_eq, string_eq, pair_eq,
}
use grafux_mcp.Streams.{
  Manager, Socket, connect, connection_count, discard_each, disconnect, put_or_delete, set_of,
}

unfoldable pub is_connected : Socket → String → Manager → Bool
is_connected ws org m = contains (set_of org m.connections) ws

unfoldable pub is_waiting : Socket → String → Manager → Bool
is_waiting ws id m = contains (set_of id m.waiters) ws

module _ (key j : String) (d : Dict String (List Socket)) where
  pub set_of-insert :
      (ws : List Socket) → set_of j (insert key ws d) ≡ (if key == j then ws else set_of j d)
  unfolding set_of
  set_of-insert ws = ground (arith, lookup-insert key j ws d)

  set_of-erase : set_of j (erase key d) ≡ (if key == j then [] else set_of j d)
  unfolding set_of
  set_of-erase = ground (arith, lookup-erase key j d)

  set_of-put_or_delete :
      (ws : List Socket) → set_of j (put_or_delete key ws d) ≡ (if key == j then ws else set_of j d)
  set_of-put_or_delete [] = set_of-erase
  set_of-put_or_delete (w ∷ ws) = set_of-insert (w ∷ ws)

-- A set that is replaced by one with other members: who is a member of which set then.
pub contains-replaced :
    (key j : String) (ws : Socket) (d d' : Dict String (List Socket)) (new : List Socket)
    (member : Bool)
    → set_of j d' ≡ (if key == j then new else set_of j d)
    → (key ≡ j → contains new ws ≡ member)
    → contains (set_of j d') ws ≡ (if key == j then member else contains (set_of j d) ws)
contains-replaced key j ws d d' new member h g =
    ap (λ s. contains s ws) h ∙ ground (arith, eq_iff key j)

contains-discard_each :
    (ws w : Socket) (j : String) (d : Dict String (List Socket))
    → contains (set_of j (discard_each ws d)) w ≡ (contains (set_of j d) w && not (ws == w))
unfolding discard_each set_of lookup contains
contains-discard_each ws w j [] = refl
contains-discard_each ws w j ((k, s) ∷ d) =
    ground (arith, contains-discard_each ws w j d, contains-discard ws w s)

-- Connecting adds the socket to its organisation and changes nobody else's membership, and no waiter.
pub connect_lem :
    (ws w : Socket) (org j : String) (m : Manager)
    → (is_connected w j (connect ws org m)
        ≡ (if org == j then is_connected w j m || (ws == w) else is_connected w j m))
      × (is_waiting w j (connect ws org m) ≡ is_waiting w j m)
unfolding is_connected is_waiting connect
connect_lem ws w org j m = (
  contains-replaced org j w m.connections _ _ (contains (set_of j m.connections) w || (ws == w))
      (set_of-insert org j m.connections (add ws (set_of org m.connections)))
      (λ q.
        contains-add ws w (set_of org m.connections)
        ∙ ap (λ s. contains (set_of s m.connections) w || (ws == w)) q),
  refl,
)

-- Disconnecting takes the socket out of its organisation and out of every invocation's waiters, and
-- changes nobody else's membership.
pub disconnect_lem :
    (ws w : Socket) (org j : String) (m : Manager)
    → (is_connected w j (disconnect ws org m)
        ≡ (if org == j then is_connected w j m && not (ws == w) else is_connected w j m))
      × (is_waiting w j (disconnect ws org m) ≡ (is_waiting w j m && not (ws == w)))
unfolding is_connected is_waiting disconnect
disconnect_lem ws w org j m = (
  contains-replaced org j w m.connections _ _ (contains (set_of j m.connections) w && not (ws == w))
      (set_of-put_or_delete org j m.connections (discard ws (set_of org m.connections)))
      (λ q.
        contains-discard ws w (set_of org m.connections)
        ∙ ap (λ s. contains (set_of s m.connections) w && not (ws == w)) q),
  contains-discard_each ws w j m.waiters,
)

length-add :
    (w : Socket) (ws : List Socket)
    → length (add w ws) ≡ length ws + (if contains ws w then 0 else 1)
unfolding add
length-add w ws = elim (Bool-cases (contains ws w)) [
  | inl old ↦ rw old (omega arith)
  | inr new ↦ rw new (length-append ws (w ∷ []))
]

-- A socket that connects is counted once, however often it connects to the same organisation.
pub connection_count-connect :
    (ws : Socket) (org : String) (m : Manager)
    → connection_count (connect ws org m)
      ≡ connection_count m + (if is_connected ws org m then 0 else 1)
unfolding connection_count connect is_connected set_of contains
connection_count-connect ws org m = go (lookup org m.connections) refl
  where
    go :
        (o : Option (List Socket))
        → lookup org m.connections ≡ o
        → let old = elim o as (λ x. List Socket) [ none ↦ [] | some s ↦ s ] in
          tally length (insert org (add ws old) m.connections)
          ≡ tally length m.connections + (if contains old ws then 0 else 1)
    go none q =
        tally-insert_new length org (add ws []) m.connections q ∙ omega (arith, length-add ws [])
    go (some s) q =
        omega (arith, tally-insert length org (add ws s) s m.connections q, length-add ws s)
