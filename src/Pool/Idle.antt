-- ===== src/Pool/Idle.antt =====
-- What a sweep of idle entries takes away and what it leaves.
use grafux_mcp.Base.{
  Bool, Dict, HasDistinctKeys, Option, [], ap, arith, false, filter, has, has-filter_value,
  if◌then◌else◌, lookup, lookup-erase, none, refl, some, ℕ, ◌∙◌, ◌∷◌, ◌≡◌, nat_eq, string_eq,
  pair_eq,
}
use grafux_mcp.Pool.{Entry, Key, Pool, drop, drop_each, evict_idle, is_stale}
use grafux_mcp.Pool.Balance.{}

lookup-drop_each :
    (items : Dict Key Entry) (p : Pool) (k : Key)
    → lookup k (drop_each items p).entries ≡ (if has k items then none else lookup k p.entries)
unfolding drop_each drop has
lookup-drop_each [] p k = refl
lookup-drop_each ((j, e) ∷ rest) p k =
    lookup-drop_each rest (drop j e p) k
    ∙ ap (λ o. if has k rest then none else o) (lookup-erase j k p.entries)
    ∙ ground arith

-- A sweep takes away exactly the entries that have been unused for longer than the limit and that no
-- call holds; every other entry is as it was.
pub lookup-evict_idle :
    (now max_idle : ℕ) (p : Pool) (k : Key)
    → HasDistinctKeys p.entries
    → lookup k (evict_idle now max_idle p).entries ≡ elim (lookup k p.entries) [
      | none ↦ none
      | some e ↦ if is_stale now max_idle e then none else some e
    ]
unfolding evict_idle
lookup-evict_idle now max_idle p k u =
    lookup-drop_each (filter (λ kv. is_stale now max_idle kv.1) p.entries) p k
    ∙ ap (λ b. if b then none else lookup k p.entries)
        (has-filter_value (is_stale now max_idle) k p.entries u)
    ∙ go (lookup k p.entries)
  where
    go :
        (o : Option Entry)
        → (if (elim o as (λ x. Bool) [ none ↦ false | some e ↦ is_stale now max_idle e ])
            then none
            else o)
          ≡ elim o [ none ↦ none | some e ↦ if is_stale now max_idle e then none else some e ]
    go none = refl
    go (some e) = refl
