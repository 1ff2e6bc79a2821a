-- ===== src/Cache/Expiry.antt =====
-- What a key answers after writes, the passing of time, and deletion by pattern.
use grafux_mcp.Base.{
  Bool, Bool-cases, Dict, Option, String, ap, eq_of_==, erase, false, if◌then◌else◌, inl, inr,
  lookup, lookup-erase, lookup-insert, none, refl, some, suc, sym, true, zero, ℕ, ◌+◌, ◌==◌, ◌∙◌,
  ◌≡◌, nat_eq, string_eq, pair_eq,
}
use grafux_mcp.Cache.{
  Item, Redis, cache_set, expired, expired_item, get, is_past, set, setex, unless_expired,
}

-- An item is seen until its time.
unfoldable pub seen : ℕ → Option Item → Option String
seen now none = none
seen now (some (value, expiry)) = if is_past now expiry then none else some value

module _ (now : ℕ) (key : String) (r : Redis) where
  pub seen-get : (get now key r).0 ≡ seen now (lookup key r.store)
  unfolding get expired seen
  seen-get = go (lookup key r.store) refl
    where
      go :
          (o : Option Item)
          → lookup key r.store ≡ o
          → (unless_expired key (expired_item now key o r)).0 ≡ seen now o
      go none q = refl
      go (some (value, expiry)) q = elim (Bool-cases (is_past now expiry)) [
        | inl past ↦ rw past refl
        | inr live ↦
            rw live
              (ap {B = Option String} (λ o. elim o [ none ↦ none | some item ↦ some item.0 ]) q)
      ]

  -- Looking at a key drops at most what is not seen any more.
  pub seen-expired :
      (j : String) → seen now (lookup j (expired now key r).1.store) ≡ seen now (lookup j r.store)
  unfolding expired seen
  seen-expired j = go (lookup key r.store) refl
    where
      go :
          (o : Option Item)
          → lookup key r.store ≡ o
          → seen now (lookup j (expired_item now key o r).1.store) ≡ seen now (lookup j r.store)
      go none q = refl
      go (some (value, expiry)) q = elim (Bool-cases (is_past now expiry)) [
        | inl past ↦ rw past (elim (Bool-cases (key == j)) [
          | inl same ↦
              ap (seen now)
                (lookup-erase key j r.store ∙ ap (λ b. if b then none else lookup j r.store) same)
              ∙ sym (
                  ap (λ s. seen now (lookup s r.store)) (sym (eq_of_== key j same))
                  ∙ ap (seen now) q
                  ∙ ap (λ b. if b then none else some value) past)
          | inr other ↦
              ap (seen now)
                (lookup-erase key j r.store ∙ ap (λ b. if b then none else lookup j r.store) other)
        ])
        | inr live ↦ rw live refl
      ]

pub seen-erased :
    (now : ℕ) (key j : String) (d : Dict String Item)
    → seen now (lookup j (erase key d)) ≡ (if key == j then none else seen now (lookup j d))
unfolding seen
seen-erased now key j d = ap (seen now) (lookup-erase key j d) ∙ by_key (key == j)
  where
    by_key :
        (b : Bool)
        → seen now (if b then none else lookup j d) ≡ (if b then none else seen now (lookup j d))
    by_key true = refl
    by_key false = refl

-- The time until which a value written now with this ttl is kept.
abbrev pub expiry_of : ℕ → Option ℕ → Option ℕ
expiry_of now none = none
expiry_of now (some zero) = none
expiry_of now (some (suc n)) = some (now + suc n)

pub set_lookup :
    (now : ℕ) (key text : String) (ttl : Option ℕ) (r : Redis) (j : String)
    → lookup j (cache_set now key text ttl r).store
      ≡ (if key == j then some (text, expiry_of now ttl) else lookup j r.store)
unfolding cache_set set setex
set_lookup now key text none r j = lookup-insert key j (text, none) r.store
set_lookup now key text (some zero) r j = lookup-insert key j (text, none) r.store
set_lookup now key text (some (suc n)) r j = lookup-insert key j (text, some (now + suc n)) r.store

-- A value that is written is read back from its key until its ttl has passed, without a ttl or with
-- ttl 0 at any time; every other key answers as before.
pub get-cache_set :
    (now later : ℕ) (key j text : String) (ttl : Option ℕ) (r : Redis)
    → (get later j (cache_set now key text ttl r)).0 ≡ (
        if key == j
        then if is_past later (expiry_of now ttl) then none else some text
        else (get later j r).0)
unfolding seen
get-cache_set now later key j text ttl r =
    seen-get later j (cache_set now key text ttl r)
    ∙ ap (seen later) (set_lookup now key text ttl r j)
    ∙ by_key (key == j)
  where
    by_key :
        (b : Bool)
        → seen later (if b then some (text, expiry_of now ttl) else lookup j r.store) ≡ (
            if b
            then if is_past later (expiry_of now ttl) then none else some text
            else (get later j r).0)
    by_key true = refl
    by_key false = sym (seen-get later j r)
