-- ===== src/Pool/Eviction.antt =====
-- Which entry makes room for a new one, and how large the pool gets.
use grafux_mcp.Base.{
  All, All-IsItemOf, All-filter, All-passes, All-unfilter, All-values, Bool, Bool-cases, Dict,
  HasDistinctKeys, IsItemOf, List, Option, [], ap, arith, false, has-lookup, if◌then◌else◌, inl,
  inr, length, length-erase-lt, length-insert_new, lookup, ltb, ltb→lt, lt→ltb, none, not, refl,
  some, subst, sym, true, ◌+◌, ◌<◌, ◌∙◌, ◌∷◌, ◌≡◌, ◌≤◌, ◌⊎◌, nat_eq, string_eq, pair_eq,
}
use grafux_mcp.Pool.{
  Entry, Env, Key, Pool, drop, entry_or_new, evict_one, evict_to_capacity, fresh, get_entry,
  least_recent, older, prune_closed_loops, unlocked,
}
use grafux_mcp.Pool.Balance.{least_recent_elim}
use grafux_mcp.Pool.Sessions.{AllLoopsOpen, evicted_absent, prune_nothing}

module _ (d : Dict Key Entry) where
  -- The least recently used of the entries that no call holds.
  pub record IsVictim (k : Key) (e : Entry) : Type 0 where
    pub present : lookup k d ≡ some e
    pub free : e.locked ≡ false
    pub oldest :
        (j : Key) (f : Entry) → lookup j d ≡ some f → f.locked ≡ false → e.last_used ≤ f.last_used

older-le :
    (a b : Key × Entry)
    → ((older a b).1.last_used ≤ a.1.last_used) × ((older a b).1.last_used ≤ b.1.last_used)
unfolding older
older-le a b = ground arith

least_recent-le :
    (a : Key × Entry) (bs : List (Key × Entry))
    → All (λ kv. (least_recent a bs).1.last_used ≤ kv.1.last_used) (a ∷ bs)
unfolding least_recent
least_recent-le a [] = (omega arith, tt)
least_recent-le a (b ∷ bs) =
    let h = least_recent-le (older a b) bs in
    (omega (arith, h.0, older-le a b), (omega (arith, h.0, older-le a b), h.1))

module _ (p : Pool) (u : HasDistinctKeys p.entries) where
  abbrev is_free : Key × Entry → Bool
  is_free kv = not kv.1.locked

  module _ (a : Key × Entry) (rest : List (Key × Entry)) (q : unlocked p.entries ≡ a ∷ rest) where
    victim_present : lookup (least_recent a rest).0 p.entries ≡ some (least_recent a rest).1
    victim_present =
        let h =
          subst (All (IsItemOf p.entries)) q
            (All-filter (IsItemOf p.entries) is_free p.entries (All-IsItemOf p.entries u)) in
        least_recent_elim (IsItemOf p.entries) a rest h.0 h.1

    victim_free : (least_recent a rest).1.locked ≡ false
    victim_free =
        let h = subst (All (λ kv. is_free kv ≡ true)) q (All-passes is_free p.entries) in
        let g = least_recent_elim (λ kv. is_free kv ≡ true) a rest h.0 h.1 in ground arith

    victim_oldest :
        (j : Key) (f : Entry)
        → lookup j p.entries ≡ some f
        → f.locked ≡ false
        → (least_recent a rest).1.last_used ≤ f.last_used
    victim_oldest j f l free =
        let IsNewer = λ (kv : Key × Entry). (least_recent a rest).1.last_used ≤ kv.1.last_used in
        let h =
          All-unfilter IsNewer is_free p.entries
            (subst (All IsNewer) (sym q) (least_recent-le a rest)) in
        All-values (λ e. not e.locked ≡ true → (least_recent a rest).1.last_used ≤ e.last_used) j f
          p.entries h l (ground arith)

  evict_one-IsVictim :
      (items : List (Key × Entry))
      → unlocked p.entries ≡ items
      → (items ≡ [])
        ⊎ ((k : Key) × (e : Entry) × IsVictim p.entries k e × (evict_one items p ≡ drop k e p))
  unfolding evict_one
  evict_one-IsVictim [] q = inl refl
  evict_one-IsVictim (a ∷ rest) q = inr (
    (least_recent a rest).0,
    (least_recent a rest).1,
    record {
      present = victim_present a rest q;
      free = victim_free a rest q;
      oldest = victim_oldest a rest q;
    },
    refl,
  )

-- Below the size limit nothing is evicted. At the limit, the least recently used of the entries that
-- no call holds is closed and dropped; only where every entry is held nothing is.
pub evict_to_capacity_lem :
    (env : Env) (p : Pool)
    → HasDistinctKeys p.entries
    → (length p.entries < env.max_size → evict_to_capacity env p ≡ p)
      × (env.max_size ≤ length p.entries
          → ((unlocked p.entries ≡ []) × (evict_to_capacity env p ≡ p))
            ⊎ ((k : Key) × (e : Entry) × IsVictim p.entries k e
                × (evict_to_capacity env p ≡ drop k e p)))
unfolding evict_to_capacity
evict_to_capacity_lem env p u = (below, at_limit)
  where
    below : length p.entries < env.max_size → evict_to_capacity env p ≡ p
    below h = rw (lt→ltb (length p.entries) env.max_size h, evict_to_capacity) refl

    full : env.max_size ≤ length p.entries → ltb (length p.entries) env.max_size ≡ false
    full h = ground arith

    at_limit :
        env.max_size ≤ length p.entries
        → ((unlocked p.entries ≡ []) × (evict_to_capacity env p ≡ p))
          ⊎ ((k : Key) × (e : Entry) × IsVictim p.entries k e
              × (evict_to_capacity env p ≡ drop k e p))
    at_limit h = elim (evict_one-IsVictim p u (unlocked p.entries) refl) [
      | inl q ↦ inl (
        q,
        ap (λ b. if b then p else evict_one (unlocked p.entries) p) (full h)
            ∙ ap (λ xs. evict_one xs p) q,
      )
      | inr (k, e, v, q) ↦
          inr (k, e, v, ap (λ b. if b then p else evict_one (unlocked p.entries) p) (full h) ∙ q)
    ]

drop_shorter :
    (k : Key) (e : Entry) (p : Pool)
    → lookup k p.entries ≡ some e
    → length (drop k e p).entries < length p.entries
unfolding drop
drop_shorter k e p h =
    length-erase-lt k p.entries
      (has-lookup k p.entries ∙ ap {B = Bool} (λ o. elim o [ none ↦ false | some x ↦ true ]) h)

evict_to_capacity_bound :
    (env : Env) (p : Pool)
    → HasDistinctKeys p.entries
    → length p.entries ≤ env.max_size
    → (length (evict_to_capacity env p).entries < env.max_size)
      ⊎ ((unlocked p.entries ≡ []) × (evict_to_capacity env p ≡ p))
evict_to_capacity_bound env p u h = elim (Bool-cases (ltb (length p.entries) env.max_size)) [
  | inl q ↦
      let l = ltb→lt (length p.entries) env.max_size q in
      inl
        (subst (λ r. length r.entries < env.max_size) (sym ((evict_to_capacity_lem env p u).0 l)) l)
  | inr q ↦ elim ((evict_to_capacity_lem env p u).1 (ground arith)) [
    | inl full ↦ inr full
    | inr (k, e, v, r) ↦ inl (
        subst (λ s. length s.entries < env.max_size) (sym r)
          (omega (arith, h, drop_shorter k e p v.present)))
  ]
]

-- Getting an entry keeps the pool within its size limit, except where every entry is held by a call:
-- then the pool grows past the limit by one. (As long as the event loop stays open.)
pub get_entry_bound :
    (env : Env) (k : Key) (p : Pool)
    → AllLoopsOpen env
    → HasDistinctKeys p.entries
    → length p.entries ≤ env.max_size
    → (length (get_entry env k p).1.entries ≤ env.max_size)
      ⊎ ((unlocked p.entries ≡ []) × (length (get_entry env k p).1.entries ≡ length p.entries + 1))
unfolding get_entry prune_closed_loops
get_entry_bound env k p live_loops u h =
    subst (λ d. let q = record p { entries = d } in IsBounded (entry_or_new env k (lookup k d) q).1)
      (sym (prune_nothing env p.entries p.entries live_loops)) (go (lookup k p.entries) refl)
  where
    IsBounded : Pool → Type 0
    IsBounded q =
        (length q.entries ≤ env.max_size)
        ⊎ ((unlocked p.entries ≡ []) × (length q.entries ≡ length p.entries + 1))

    go : (o : Option Entry) → lookup k p.entries ≡ o → IsBounded (entry_or_new env k o p).1
    go (some e) q = inl h
    go none q =
        let d = (evict_to_capacity env p).entries in
        let one = length-insert_new k (fresh env.now) d (evicted_absent env k p q) in
        elim (evict_to_capacity_bound env p u h) [
          | inl l ↦ inl (omega (arith, l, one))
          | inr (all_held, same) ↦ inr (all_held, one ∙ ap (λ r. length r.entries + 1) same)
        ]
