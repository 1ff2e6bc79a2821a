-- ===== src/Base/Lists.antt =====
-- Lists measured by native numbers, predicates on lists, and membership tests.
use Prim.Native.Nat.{zero, ℕ, suc, ◌+◌, ◌≤◌}
use mathlib.Core.Path.{◌≡◌, refl, ap}
use mathlib.Core.Logic.{inl, inr}
use mathlib.Core.Bool.{Bool, true, false, not, ◌&&◌, ◌||◌}
use mathlib.Core.List.{List, [], ◌∷◌, ◌++◌}
use native.Mathlib.Omega.{arith}
use grafux_mcp.Base.Tests.{Eq, ◌==◌, if◌then◌else◌, Bool-cases}

module _ {ℓ} {A : Type ℓ} where
  abbrev pub length : List A → ℕ
  length [] = 0
  length (x ∷ xs) = suc (length xs)

  pub length-append : (xs ys : List A) → length (xs ++ ys) ≡ length xs + length ys
  length-append [] ys = omega arith
  length-append (x ∷ xs) ys = omega (arith, length-append xs ys)

  abbrev pub replicate : ℕ → A → List A
  replicate zero a = []
  replicate (suc n) a = a ∷ replicate n a

  -- [x for x in xs if p(x)]
  unfoldable pub filter : (A → Bool) → List A → List A
  filter p [] = []
  filter p (x ∷ xs) = let rest = filter p xs in if p x then x ∷ rest else rest

  pub length-filter-le : (p : A → Bool) (xs : List A) → length (filter p xs) ≤ length xs
  unfolding filter
  length-filter-le p [] = omega arith
  length-filter-le p (x ∷ xs) = ground (arith, length-filter-le p xs)

  -- any(p(x) for x in xs)
  unfoldable pub any : (A → Bool) → List A → Bool
  any p [] = false
  any p (x ∷ xs) = p x || any p xs

  abbrev pub All {κ} : (A → Type κ) → List A → Type κ
  All P [] = Unit
  All P (x ∷ xs) = P x × All P xs

module _ {ℓ κ} {A : Type ℓ} (P : A → Type κ) where
  pub All-append : (xs ys : List A) → All P xs → All P ys → All P (xs ++ ys)
  All-append [] ys h k = k
  All-append (x ∷ xs) ys h k = (h.0, All-append xs ys h.1 k)

  pub All-filter : (p : A → Bool) (xs : List A) → All P xs → All P (filter p xs)
  unfolding filter
  All-filter p [] h = h
  All-filter p (x ∷ xs) h = ground (arith, All-filter p xs h.1)

  -- What holds of the filtered list holds of every element that passes.
  pub All-unfilter :
      (p : A → Bool) (xs : List A) → All P (filter p xs) → All (λ x. p x ≡ true → P x) xs
  unfolding filter
  All-unfilter p [] h = h
  All-unfilter p (x ∷ xs) h = elim (Bool-cases (p x)) [
    | inl q ↦ let g = (rw (q, filter) at h) in (λ r. g.0, All-unfilter p xs g.1)
    | inr q ↦ (λ r. cc, All-unfilter p xs (rw (q, filter) at h))
  ]

module _ {ℓ} {A : Type ℓ} where
  pub All-passes : (p : A → Bool) (xs : List A) → All (λ x. p x ≡ true) (filter p xs)
  unfolding filter
  All-passes p [] = tt
  All-passes p (x ∷ xs) = ground (arith, All-passes p xs)

module _ {ℓ} {A : Type ℓ} ⦃e : Eq A⦄ where
  -- x in xs
  unfoldable pub contains : List A → A → Bool
  contains [] a = false
  contains (x ∷ xs) a = x == a || contains xs a

  pub contains-append :
      (xs ys : List A) (a : A) → contains (xs ++ ys) a ≡ (contains xs a || contains ys a)
  unfolding contains
  contains-append [] ys a = refl
  contains-append (x ∷ xs) ys a = ground (arith, contains-append xs ys a)

  pub contains-concat :
      (xs : List A) (a b : A) → contains (xs ++ a ∷ []) b ≡ (contains xs b || (a == b))
  unfolding contains
  contains-concat [] a b = ground arith
  contains-concat (x ∷ xs) a b = ground (arith, contains-concat xs a b)

  -- s.discard(a), on a set kept as a list
  unfoldable pub discard : A → List A → List A
  discard a [] = []
  discard a (x ∷ xs) = let rest = discard a xs in if x == a then rest else x ∷ rest

  -- s.add(a), on a set kept as a list
  unfoldable pub add : A → List A → List A
  unfolding contains
  add a xs = if contains xs a then xs else xs ++ a ∷ []

  pub contains-add : (a b : A) (xs : List A) → contains (add a xs) b ≡ (contains xs b || (a == b))
  unfolding add
  contains-add a b xs = elim (Bool-cases (contains xs a)) [
    | inl old ↦ rw old (ground (arith, e.same_iff a b))
    | inr new ↦ rw new (contains-concat xs a b)
  ]

  pub contains-discard :
      (a b : A) (xs : List A) → contains (discard a xs) b ≡ (contains xs b && not (a == b))
  unfolding contains discard
  contains-discard a b [] = refl
  contains-discard a b (x ∷ xs) =
      ground (arith, contains-discard a b xs, e.same_iff x a, e.same_iff x b, e.same_iff a b)

  pub contains-filter :
      (p : A → Bool) (xs : List A) (a : A) → contains (filter p xs) a ≡ (contains xs a && p a)
  unfolding filter contains
  contains-filter p [] a = refl
  contains-filter p (x ∷ xs) a = elim (Bool-cases (x == a)) [
    | inl q ↦ let same = (e.same_iff x a).0 q in ground (arith, contains-filter p xs a, ap p same)
    | inr q ↦ ground (arith, contains-filter p xs a)
  ]
