-- ===== src/Pool/Lifetime.antt =====
-- The pool over any sequence of operations: the balance of sessions, and shutdown.
use grafux_mcp.Base.{
  Bool, Dict, [], arith, false, lookup, refl, subst, sym, tally, true, values, ℕ, ◌+◌, ◌∷◌, ◌≡◌,
  nat_eq, string_eq, pair_eq,
}
use grafux_mcp.Json.{Json}
use grafux_mcp.Exceptions.{Result, is_instance_of_any, ok, thrown}
use grafux_mcp.Pool.{
  Entry, Env, Key, Pool, aclose_all, close_each, empty_pool, entry_or_new, evict_idle, get_entry,
  hard_close, live, prune_closed_loops,
}
use grafux_mcp.Pool.Calls.{
  Trip, acquire, answered, call_tool, close_foreign, mark_broken, or_reconnect, reconnect,
  reconnectable, round_trip,
}
use grafux_mcp.Pool.Balance.{IsBalanced, evict_idle-IsBalanced}
use grafux_mcp.Pool.Sessions.{
  AllLoopsOpen, InHand, close_foreign-InHand, enter-IsBalanced, entry_or_new-InHand,
  mark_broken-IsBalanced, prune_nothing, release-IsBalanced,
}

get_entry-InHand :
    (env : Env) (k : Key) (p : Pool)
    → AllLoopsOpen env
    → IsBalanced p
    → InHand k (get_entry env k p).0 (get_entry env k p).1
unfolding get_entry prune_closed_loops
get_entry-InHand env k p h b =
    subst
      (λ d.
        let q = record p { entries = d } in
        InHand k (entry_or_new env k (lookup k d) q).0 (entry_or_new env k (lookup k d) q).1)
      (sym (prune_nothing env p.entries p.entries h)) (entry_or_new-InHand env k p b)

acquire-IsBalanced :
    (env : Env) (k : Key) (c : Result (Unit {0})) (p : Pool)
    → AllLoopsOpen env
    → IsBalanced p
    → IsBalanced (acquire env k c p).1
unfolding acquire
acquire-IsBalanced env k c p h b =
    let r = get_entry env k p in
    let s = close_foreign env r.0 r.1 in
    enter-IsBalanced env k c s.0 s.1
      (close_foreign-InHand env k r.0 r.1 (get_entry-InHand env k p h b))

module _ {ℓ} {A : Type ℓ} where
  answered-IsBalanced :
      (k : Key) (a : Result A) (r : Result (Unit {0}) × Pool)
      → IsBalanced r.1
      → IsBalanced (answered k a r).1
  answered-IsBalanced k a (thrown x, p) b = b
  answered-IsBalanced k a (ok u, p) b = release-IsBalanced k p b

  round_trip-IsBalanced :
      (env : Env) (k : Key) (t : Trip A) (p : Pool)
      → AllLoopsOpen env
      → IsBalanced p
      → IsBalanced (round_trip env k t p).1
  unfolding round_trip
  round_trip-IsBalanced env k t p h b =
      answered-IsBalanced k t.answer (acquire env k t.connecting p)
        (acquire-IsBalanced env k t.connecting p h b)

  or_reconnect-IsBalanced :
      (env : Env) (k : Key) (t : Trip A) (r : Result A × Pool)
      → AllLoopsOpen env
      → IsBalanced r.1
      → IsBalanced (or_reconnect env k t r).1
  unfolding or_reconnect reconnect
  or_reconnect-IsBalanced env k t (ok v, p) h b = b
  or_reconnect-IsBalanced env k t (thrown x, p) h b = go (is_instance_of_any x reconnectable)
    where
      go : (retry : Bool) → IsBalanced (reconnect retry env k t x p).1
      go true = round_trip-IsBalanced env k t (mark_broken k p) h (mark_broken-IsBalanced k p b)
      go false = b

  pub call_tool-IsBalanced :
      (env : Env) (k : Key) (first second : Trip A) (p : Pool)
      → AllLoopsOpen env
      → IsBalanced p
      → IsBalanced (call_tool env k first second p).1
  unfolding call_tool
  call_tool-IsBalanced env k first second p h b =
      or_reconnect-IsBalanced env k second (round_trip env k first p) h
        (round_trip-IsBalanced env k first p h b)

close_each-counts :
    (d : Dict Key Entry) (p : Pool)
    → ((close_each (values d) p).opened ≡ p.opened)
      × ((close_each (values d) p).shut ≡ p.shut + tally live d)
unfolding close_each hard_close
close_each-counts [] p = (refl, omega arith)
close_each-counts ((k, e) ∷ d) p =
    let (o, s) = close_each-counts d (record p { shut = p.shut + live e }) in (o, omega (arith, s))

aclose_all-counts :
    (p : Pool)
    → ((aclose_all p).opened ≡ p.opened) × ((aclose_all p).shut ≡ p.shut + tally live p.entries)
unfolding aclose_all
aclose_all-counts p = close_each-counts p.entries p

-- The pools that operations lead to, from the empty one: calls with any answers, sweeps of idle
-- entries, and shutdown.
pub data Reached : Pool → Type 0 where
  start : Reached empty_pool
  called :
      {p : Pool} (env : Env) (k : Key) (first second : Trip Json)
      → AllLoopsOpen env
      → Reached p
      → Reached (call_tool env k first second p).1
  swept : {p : Pool} (now max_idle : ℕ) → Reached p → Reached (evict_idle now max_idle p)
  closed : {p : Pool} → Reached p → Reached (aclose_all p)

Reached-IsBalanced : {p : Pool} → Reached p → IsBalanced p
unfolding aclose_all
Reached-IsBalanced start = record { distinct = tt; balance = refl }
Reached-IsBalanced (called env k first second h r) =
    call_tool-IsBalanced env k first second _ h (Reached-IsBalanced r)
Reached-IsBalanced (swept now max_idle r) =
    evict_idle-IsBalanced now max_idle _ (Reached-IsBalanced r)
Reached-IsBalanced (closed {p} r) =
    let b = Reached-IsBalanced r in
    record { distinct = tt; balance = omega (arith, b.balance, aclose_all-counts p) }

-- Whatever calls, sweeps and shutdowns led here, and as long as the event loop stays open: the
-- sessions ever opened are the closed ones and those of the connected entries, and after a shutdown
-- every one of them is closed and the pool is empty.
pub Reached-sessions :
    (p : Pool)
    → Reached p
    → (p.opened ≡ p.shut + tally live p.entries)
      × ((aclose_all p).opened ≡ (aclose_all p).shut)
      × ((aclose_all p).entries ≡ [])
unfolding aclose_all
Reached-sessions p r =
    let b = Reached-IsBalanced r in (b.balance, omega (arith, b.balance, aclose_all-counts p), refl)
