-- ===== src/Pool/Sessions.antt =====
-- The balance of sessions through the calls, and over any sequence of operations.
use grafux_mcp.Base.{
  Bool, Dict, HasDistinctKeys, HasDistinctKeys-insert, List, Option, Option-cases, [], ap, arith,
  erase, false, if_elim, if◌then◌else◌, inl, inr, length, lookup, lookup-erase, lookup-insert_self,
  ltb, none, not, refl, some, tally, tally-insert, tally-insert_new, ℕ, ◌&&◌, ◌+◌, ◌∙◌, ◌∷◌, ◌≡◌,
  nat_eq, string_eq, pair_eq,
}
use grafux_mcp.Exceptions.{Result, ok, thrown}
use grafux_mcp.Pool.{
  Entry, Env, Key, Pool, drop, entry_or_new, evict_one, evict_to_capacity, fresh, hard_close,
  least_recent, live, prune_each, unlocked,
}
use grafux_mcp.Pool.Calls.{
  close_foreign, connect_entry, connected_here, enter, in_use, is_here, mark_broken, put, release,
}
use grafux_mcp.Pool.Balance.{IsBalanced, evict_to_capacity-IsBalanced}

-- The entry that a call works on, with the state in which the dict still holds it.
pub record InHand (k : Key) (e : Entry) (p : Pool) : Type 0 where
  pub old : Entry
  pub here : lookup k p.entries ≡ some old
  pub distinct : HasDistinctKeys p.entries
  pub balance : p.opened + live old ≡ p.shut + tally live p.entries + live e

InHand-of :
    (k : Key) (e : Entry) (p : Pool) → lookup k p.entries ≡ some e → IsBalanced p → InHand k e p
InHand-of k e p h b = record {
  old = e;
  here = h;
  distinct = b.distinct;
  balance = omega (arith, b.balance);
}

hard_close-InHand :
    (k : Key) (e : Entry) (p : Pool) → InHand k e p → InHand k (hard_close e p).0 (hard_close e p).1
unfolding hard_close
hard_close-InHand k e p i = record {
  old = i.old;
  here = i.here;
  distinct = i.distinct;
  balance = omega (arith, i.balance);
}

put-IsBalanced :
    (k : Key) (e e' : Entry) (p : Pool) → InHand k e p → live e' ≡ live e → IsBalanced (put k e' p)
put-IsBalanced k e e' p i q = record {
  distinct = HasDistinctKeys-insert k e' p.entries i.distinct;
  balance = omega (arith, i.balance, tally-insert live k e' i.old p.entries i.here);
}

pub release-IsBalanced : (k : Key) (p : Pool) → IsBalanced p → IsBalanced (release k p)
unfolding release
release-IsBalanced k p b = elim (Option-cases (lookup k p.entries)) [
  | inl q ↦ rw (q, release) b
  | inr (e, q) ↦
      rw (q, release)
        (put-IsBalanced k e (record e { locked = false }) p (InHand-of k e p q b) refl)
]

pub mark_broken-IsBalanced : (k : Key) (p : Pool) → IsBalanced p → IsBalanced (mark_broken k p)
unfolding mark_broken
mark_broken-IsBalanced k p b = elim (Option-cases (lookup k p.entries)) [
  | inl q ↦ rw (q, mark_broken) b
  | inr (e, q) ↦
      rw (q, mark_broken)
        (put-IsBalanced k (hard_close e p).0 (hard_close e p).0 (hard_close e p).1
          (hard_close-InHand k e p (InHand-of k e p q b)) refl)
]

pub close_foreign-InHand :
    (env : Env) (k : Key) (e : Entry) (p : Pool)
    → InHand k e p
    → InHand k (close_foreign env e p).0 (close_foreign env e p).1
unfolding close_foreign
close_foreign-InHand env k e p i =
    if_elim (λ r. InHand k r.0 r.1) (e.connected && not (is_here env e)) (hard_close e p) (e, p)
      (λ q. hard_close-InHand k e p i) (λ q. i)

connect_entry-IsBalanced :
    (env : Env) (k : Key) (c : Result (Unit {0})) (e : Entry) (p : Pool)
    → e.connected ≡ false
    → InHand k e p
    → IsBalanced (connect_entry env k c e p).1
unfolding connect_entry
connect_entry-IsBalanced env k (thrown x) e p q i =
    put-IsBalanced k e (record e { locked = false }) p i refl
connect_entry-IsBalanced env k (ok u) e p q i =
    let none_live : live e ≡ 0 = ap (λ b. if b then 1 else 0) q in
    put-IsBalanced k (connected_here env e) (in_use env (connected_here env e))
      (record p { opened = p.opened + 1 })
      (record {
        old = i.old;
        here = i.here;
        distinct = i.distinct;
        balance = omega (arith, i.balance, none_live);
      })
      refl

pub enter-IsBalanced :
    (env : Env) (k : Key) (c : Result (Unit {0})) (e : Entry) (p : Pool)
    → InHand k e p
    → IsBalanced (enter env k c (e, p)).1
unfolding enter
enter-IsBalanced env k c e p i =
    if_elim (λ (r : Result (Unit {0}) × Pool). IsBalanced r.1) e.connected
      (ok tt, put k (in_use env e) p) (connect_entry env k c e p)
      (λ q. put-IsBalanced k e (in_use env e) p i refl)
      (λ q. connect_entry-IsBalanced env k c e p q i)

-- No loop on which a session was opened has been closed.
abbrev pub AllLoopsOpen : Env → Type 0
AllLoopsOpen env = (l : ℕ) → env.is_closed l ≡ false

pub prune_nothing :
    (env : Env) (items d : Dict Key Entry) → AllLoopsOpen env → prune_each env items d ≡ d
unfolding prune_each
prune_nothing env [] d h = refl
prune_nothing env ((k, e) ∷ rest) d h =
    ap (λ b. prune_each env rest (if b then erase k d else d)) (open_loop e.loop)
    ∙ prune_nothing env rest d h
  where
    open_loop :
        (o : Option ℕ) → elim o as (λ x. Bool) [ none ↦ false | some l ↦ env.is_closed l ] ≡ false
    open_loop none = refl
    open_loop (some l) = h l

pub evicted_absent :
    (env : Env) (k : Key) (p : Pool)
    → lookup k p.entries ≡ none
    → lookup k (evict_to_capacity env p).entries ≡ none
unfolding evict_to_capacity evict_one drop
evicted_absent env k p h =
    if_elim (λ q. lookup k q.entries ≡ none) (ltb (length p.entries) env.max_size) p
      (evict_one (unlocked p.entries) p) (λ q. h) (λ q. one (unlocked p.entries))
  where
    one : (items : List (Key × Entry)) → lookup k (evict_one items p).entries ≡ none
    one [] = h
    one (a ∷ rest) = ground (arith, lookup-erase (least_recent a rest).0 k p.entries)

pub entry_or_new-InHand :
    (env : Env) (k : Key) (p : Pool)
    → IsBalanced p
    → InHand k
        (entry_or_new env k (lookup k p.entries) p).0
        (entry_or_new env k (lookup k p.entries) p).1
entry_or_new-InHand env k p b = go (lookup k p.entries) refl
  where
    go :
        (o : Option Entry)
        → lookup k p.entries ≡ o
        → InHand k (entry_or_new env k o p).0 (entry_or_new env k o p).1
    go (some e) q = InHand-of k e p q b
    go none q =
        let c = evict_to_capacity-IsBalanced env p b in
        let d = (evict_to_capacity env p).entries in
        record {
          old = fresh env.now;
          here = lookup-insert_self k (fresh env.now) d;
          distinct = HasDistinctKeys-insert k (fresh env.now) d c.distinct;
          balance = omega (
            arith,
            c.balance,
            tally-insert_new live k (fresh env.now) d (evicted_absent env k p q),
          );
        }
