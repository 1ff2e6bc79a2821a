-- ===== src/Cache/Patterns.antt =====
-- What deletion by pattern leaves.
use grafux_mcp.Base.{
  Bool, Bool-cases, Dict, List, Option, String, [], ap, arith, contains, eq_of_==, erase, false,
  has, has-lookup, if_elim, if◌then◌else◌, inl, inr, keys, lookup, none, not, refl, some, sym, true,
  ℕ, ◌&&◌, ◌==◌, ◌||◌, ◌∙◌, ◌∷◌, ◌≡◌, ◌⊎◌, nat_eq, string_eq, pair_eq,
}
use grafux_mcp.Cache.{
  Item, Redis, cache_delete_pattern, delete, delete_matching, expired, expired_item, get, is_past,
}
use grafux_mcp.Cache.Expiry.{seen-erased, seen-expired, seen-get, seen}

contains-keys : (k : String) (d : Dict String Item) → contains (keys d) k ≡ has k d
unfolding contains has
contains-keys k [] = refl
contains-keys k ((j, v) ∷ d) = ap (λ b. j == k || b) (contains-keys k d)

expired_unseen :
    (now : ℕ) (key : String) (r : Redis)
    → (expired now key r).0 ≡ true
    → seen now (lookup key r.store) ≡ none
unfolding expired seen
expired_unseen now key r = go (lookup key r.store)
  where
    go : (o : Option Item) → (expired_item now key o r).0 ≡ true → seen now o ≡ none
    go none h = refl
    go (some (value, expiry)) h = elim (Bool-cases (is_past now expiry)) [
      | inl past ↦ rw past refl
      | inr live ↦ cc (rw live at h)
    ]

-- Nothing, where the test holds.
abbrev hidden_if : Bool → Option String → Option String
hidden_if b o = if b then none else o

hidden_hit :
    (k c m : Bool) (o : Option String)
    → (k ≡ true → m ≡ true)
    → hidden_if (c && m) (hidden_if k o) ≡ hidden_if ((k || c) && m) o
hidden_hit k c m o h = ground arith

hidden_miss :
    (k c m : Bool) (o : Option String)
    → (k ≡ true → (m ≡ false) ⊎ (o ≡ none))
    → hidden_if (c && m) o ≡ hidden_if ((k || c) && m) o
hidden_miss k c m o h = ground arith

and_false : (a b : Bool) → (not a && b) ≡ false → (b ≡ false) ⊎ (a ≡ true)
and_false true b h = inr refl
and_false false b h = inl h

and_true : (a b : Bool) → (not a && b) ≡ true → b ≡ true
and_true true b h = cc
and_true false b h = h

module _ (now : ℕ) (matches : String → Bool) where
  seen-delete_matching :
      (ks : List String) (r : Redis) (j : String)
      → seen now (lookup j (delete_matching now matches ks r).1.store)
        ≡ hidden_if (contains ks j && matches j) (seen now (lookup j r.store))
  unfolding delete_matching contains delete
  seen-delete_matching [] r j = refl
  seen-delete_matching (key ∷ ks) r j =
      let e = expired now key r in
      let left = record e.1 { store = erase key e.1.store } in
      let before = seen now (lookup j r.store) in
      let same = seen-expired now key r j in
      if_elim
        (λ (d : ℕ × Redis).
          seen now (lookup j d.1.store)
          ≡ hidden_if ((key == j || contains ks j) && matches j) before)
        (not e.0 && matches key) _ _
        (λ hit.
          seen-delete_matching ks left j
          ∙ ap (hidden_if (contains ks j && matches j))
              (seen-erased now key j e.1.store ∙ ap (hidden_if (key == j)) same)
          ∙ hidden_hit (key == j) (contains ks j) (matches j) before
              (λ q. ap matches (sym (eq_of_== key j q)) ∙ and_true e.0 (matches key) hit))
        (λ miss.
          seen-delete_matching ks e.1 j
          ∙ ap (hidden_if (contains ks j && matches j)) same
          ∙ hidden_miss (key == j) (contains ks j) (matches j) before (λ q.
            elim (and_false e.0 (matches key) miss) [
              | inl other ↦ inl (ap matches (sym (eq_of_== key j q)) ∙ other)
              | inr gone ↦ inr (
                  ap (λ s. seen now (lookup s r.store)) (sym (eq_of_== key j q))
                  ∙ expired_unseen now key r gone)
            ]))

  unseen_or_key :
      (o : Option Item) (c m : Bool)
      → c ≡ elim o [ none ↦ false | some item ↦ true ]
      → hidden_if (c && m) (seen now o) ≡ hidden_if m (seen now o)
  unfolding seen
  unseen_or_key none c m h = ground arith
  unseen_or_key (some item) c m h = ap (λ b. hidden_if (b && m) (seen now (some item))) h

  -- After deletion by pattern, no matching key has a value, and every other key answers as before.
  pub get-cache_delete_pattern :
      (r : Redis) (j : String)
      → (get now j (cache_delete_pattern now matches r).1).0
        ≡ (if matches j then none else (get now j r).0)
  unfolding cache_delete_pattern
  get-cache_delete_pattern r j =
      seen-get now j (cache_delete_pattern now matches r).1
      ∙ seen-delete_matching (keys r.store) r j
      ∙ unseen_or_key (lookup j r.store) (contains (keys r.store) j) (matches j)
          (contains-keys j r.store ∙ has-lookup j r.store)
      ∙ ap (hidden_if (matches j)) (sym (seen-get now j r))
