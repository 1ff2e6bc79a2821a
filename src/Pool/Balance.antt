-- ===== src/Pool/Balance.antt =====
-- No session is lost: what was opened is closed or held by an entry.
use grafux_mcp.Base.{
  All, All-IsItemOf, All-IsItemOf-erase, All-filter, Dict, HasDistinctKeys, HasDistinctKeys-erase,
  HasDistinctKeys-filter, IsItemOf, List, [], arith, filter, if_elim, length, lookup, ltb, not,
  some, tally, tally-erase, ℕ, ◌+◌, ◌∷◌, ◌≡◌, nat_eq, string_eq, pair_eq,
}
use grafux_mcp.Exceptions.{}
use grafux_mcp.Pool.{
  Entry, Env, Key, Pool, drop, drop_each, evict_idle, evict_one, evict_to_capacity, is_stale,
  least_recent, live, older, unlocked,
}
use grafux_mcp.Pool.Calls.{}

pub record IsBalanced (p : Pool) : Type 0 where
  pub distinct : HasDistinctKeys p.entries
  pub balance : p.opened ≡ p.shut + tally live p.entries

pub drop-IsBalanced :
    (k : Key) (e : Entry) (p : Pool)
    → lookup k p.entries ≡ some e
    → IsBalanced p
    → IsBalanced (drop k e p)
unfolding drop
drop-IsBalanced k e p h b = record {
  distinct = HasDistinctKeys-erase k p.entries b.distinct;
  balance = omega (arith, b.balance, tally-erase live k e p.entries b.distinct h);
}

-- What holds of every item holds of the least recent one.
pub least_recent_elim {ℓ} :
    (P : Key × Entry → Type ℓ) (a : Key × Entry) (bs : List (Key × Entry))
    → P a
    → All P bs
    → P (least_recent a bs)
unfolding least_recent older
least_recent_elim P a [] h hs = h
least_recent_elim P a (b ∷ bs) h hs =
    least_recent_elim P (older a b) bs
      (if_elim P (ltb b.1.last_used a.1.last_used) b a (λ q. hs.0) (λ q. h)) hs.1

evict_one-IsBalanced :
    (items : List (Key × Entry)) (p : Pool)
    → All (IsItemOf p.entries) items
    → IsBalanced p
    → IsBalanced (evict_one items p)
unfolding evict_one
evict_one-IsBalanced [] p h b = b
evict_one-IsBalanced (a ∷ rest) p h b =
    drop-IsBalanced (least_recent a rest).0 (least_recent a rest).1 p
      (least_recent_elim (IsItemOf p.entries) a rest h.0 h.1) b

pub evict_to_capacity-IsBalanced :
    (env : Env) (p : Pool) → IsBalanced p → IsBalanced (evict_to_capacity env p)
unfolding evict_to_capacity
evict_to_capacity-IsBalanced env p b =
    if_elim IsBalanced (ltb (length p.entries) env.max_size) p (evict_one (unlocked p.entries) p)
      (λ q. b)
      (λ q.
        evict_one-IsBalanced (unlocked p.entries) p
          (All-filter (IsItemOf p.entries) (λ kv. not kv.1.locked) p.entries
            (All-IsItemOf p.entries b.distinct))
          b)

drop_each-IsBalanced :
    (items : Dict Key Entry) (p : Pool)
    → HasDistinctKeys items
    → All (IsItemOf p.entries) items
    → IsBalanced p
    → IsBalanced (drop_each items p)
unfolding drop_each
drop_each-IsBalanced [] p u h b = b
drop_each-IsBalanced ((k, e) ∷ rest) p u h b =
    drop_each-IsBalanced rest (drop k e p) u.1 (All-IsItemOf-erase k p.entries rest u.0 h.1)
      (drop-IsBalanced k e p h.0 b)

pub evict_idle-IsBalanced :
    (now max_idle : ℕ) (p : Pool) → IsBalanced p → IsBalanced (evict_idle now max_idle p)
unfolding evict_idle
evict_idle-IsBalanced now max_idle p b =
    let stale = λ (kv : Key × Entry). is_stale now max_idle kv.1 in
    drop_each-IsBalanced (filter stale p.entries) p
      (HasDistinctKeys-filter stale p.entries b.distinct)
      (All-filter (IsItemOf p.entries) stale p.entries (All-IsItemOf p.entries b.distinct)) b
