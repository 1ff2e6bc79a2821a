-- ===== src/Base/Keys.antt =====
-- A dict holds each key once: what the operations keep, and sums over the values.
use Prim.Native.Nat.{ℕ, ◌+◌}
use mathlib.Core.Path.{◌≡◌, refl, ap}
use mathlib.Core.Logic.{inl, inr}
use mathlib.Core.Bool.{Bool, false, not, ◌&&◌, ◌||◌}
use mathlib.Core.Option.{none, some}
use mathlib.Core.List.{[], ◌∷◌}
use native.Mathlib.Omega.{arith}
use grafux_mcp.Base.Tests.{Bool-cases, Eq, if◌then◌else◌, some_path, ◌==◌}
use grafux_mcp.Base.Lists.{All, filter}
use grafux_mcp.Base.Dicts.{Dict, erase, has, insert, lookup, lookup-erase}

module _ {ℓ κ} {K : Type ℓ} {V : Type κ} where
  -- sum(f(v) for v in d.values())
  abbrev pub tally : (V → ℕ) → Dict K V → ℕ
  tally f [] = 0
  tally f ((k, v) ∷ d) = f v + tally f d

module _ {ℓ κ} {K : Type ℓ} {V : Type κ} ⦃e : Eq K⦄ where
  abbrev pub HasDistinctKeys : Dict K V → Type 0
  HasDistinctKeys [] = Unit
  HasDistinctKeys ((k, v) ∷ d) = (has k d ≡ false) × HasDistinctKeys d

  pub has-insert : (k j : K) (v : V) (d : Dict K V) → has j (insert k v d) ≡ (has j d || (k == j))
  unfolding has insert
  has-insert k j v [] = ground arith
  has-insert k j v ((i, w) ∷ d) =
      ground (arith, has-insert k j v d, e.same_iff i k, e.same_iff i j, e.same_iff k j)

  has-erase : (k j : K) (d : Dict K V) → has j d ≡ false → has j (erase k d) ≡ false
  unfolding has erase
  has-erase k j [] h = h
  has-erase k j ((i, w) ∷ d) h = ground (arith, has-erase k j d)

  pub has-erase_key : (k j : K) (d : Dict K V) → has j (erase k d) ≡ (has j d && not (k == j))
  unfolding has erase
  has-erase_key k j [] = refl
  has-erase_key k j ((i, w) ∷ d) =
      ground (arith, has-erase_key k j d, e.same_iff i k, e.same_iff i j, e.same_iff k j)

  pub HasDistinctKeys-insert :
      (k : K) (v : V) (d : Dict K V) → HasDistinctKeys d → HasDistinctKeys (insert k v d)
  unfolding has insert
  HasDistinctKeys-insert k v [] h = (refl, tt)
  HasDistinctKeys-insert k v ((i, w) ∷ d) h =
      ground (
        arith,
        HasDistinctKeys-insert k v d h.1,
        has-insert k i v d,
        e.same_iff i k,
        e.same_iff k i,
      )

  pub HasDistinctKeys-erase :
      (k : K) (d : Dict K V) → HasDistinctKeys d → HasDistinctKeys (erase k d)
  unfolding erase
  HasDistinctKeys-erase k [] h = h
  HasDistinctKeys-erase k ((i, w) ∷ d) h =
      ground (arith, HasDistinctKeys-erase k d h.1, has-erase k i d h.0)

  pub erase_absent : (k : K) (d : Dict K V) → has k d ≡ false → erase k d ≡ d
  unfolding has erase
  erase_absent k [] h = refl
  erase_absent k ((i, w) ∷ d) h = ground (arith, erase_absent k d)

  module _ (f : V → ℕ) where
    pub tally-insert_new :
        (k : K) (v : V) (d : Dict K V)
        → lookup k d ≡ none
        → tally f (insert k v d) ≡ tally f d + f v
    unfolding lookup insert
    tally-insert_new k v [] h = omega arith
    tally-insert_new k v ((i, w) ∷ d) h = ground (arith, tally-insert_new k v d)

    pub tally-insert :
        (k : K) (v old : V) (d : Dict K V)
        → lookup k d ≡ some old
        → tally f (insert k v d) + f old ≡ tally f d + f v
    unfolding lookup insert
    tally-insert k v old [] h = cc
    tally-insert k v old ((i, w) ∷ d) h = ground (arith, tally-insert k v old d)

    pub tally-erase :
        (k : K) (old : V) (d : Dict K V)
        → HasDistinctKeys d
        → lookup k d ≡ some old
        → tally f (erase k d) + f old ≡ tally f d
    unfolding lookup erase
    tally-erase k old [] u h = cc
    tally-erase k old ((i, w) ∷ d) u h =
        ground (arith, tally-erase k old d u.1, erase_absent k d, u.0, e.same_iff i k)

module _ {ℓ κ μ} {K : Type ℓ} {V : Type κ} ⦃e : Eq K⦄ (P : V → Type μ) where
  -- What holds of every value holds of the one that a key is looked up to.
  pub All-values : (k : K) (v : V) (d : Dict K V) → All (λ kv. P kv.1) d → lookup k d ≡ some v → P v
  unfolding lookup
  All-values k v [] a h = cc
  All-values k v ((j, w) ∷ d) a h = elim (Bool-cases (j == k)) [
    | inl q ↦ some_path P (rw (q, lookup) at h) a.0
    | inr q ↦ All-values k v d a.1 (rw (q, lookup) at h)
  ]

module _ {ℓ κ} {K : Type ℓ} {V : Type κ} ⦃e : Eq K⦄ where
  -- The items that a dict answers with: what a snapshot of its items satisfies.
  abbrev pub IsItemOf : Dict K V → K × V → Type κ
  IsItemOf d kv = lookup kv.0 d ≡ some kv.1

  pub All-IsItemOf-erase :
      (k : K) (d rest : Dict K V)
      → has k rest ≡ false
      → All (IsItemOf d) rest
      → All (IsItemOf (erase k d)) rest
  unfolding has
  All-IsItemOf-erase k d [] h a = tt
  All-IsItemOf-erase k d ((j, v) ∷ rest) h a =
      ground
        (arith, All-IsItemOf-erase k d rest, lookup-erase k j d, e.same_iff j k, e.same_iff k j)

  skip_item :
      (k : K) (v : V) (d rest : Dict K V)
      → has k rest ≡ false
      → All (IsItemOf d) rest
      → All (IsItemOf ((k, v) ∷ d)) rest
  unfolding has lookup
  skip_item k v d [] h a = tt
  skip_item k v d ((j, w) ∷ rest) h a =
      ground (arith, skip_item k v d rest, e.same_iff j k, e.same_iff k j)

  pub All-IsItemOf : (d : Dict K V) → HasDistinctKeys d → All (IsItemOf d) d
  unfolding lookup
  All-IsItemOf [] h = tt
  All-IsItemOf ((k, v) ∷ d) h =
      (ground (arith, e.same_iff k k), skip_item k v d d h.0 (All-IsItemOf d h.1))

  has-filter :
      (p : K × V → Bool) (k : K) (d : Dict K V) → has k d ≡ false → has k (filter p d) ≡ false
  unfolding has filter
  has-filter p k [] h = h
  has-filter p k ((j, v) ∷ d) h = ground (arith, has-filter p k d)

  pub HasDistinctKeys-filter :
      (p : K × V → Bool) (d : Dict K V) → HasDistinctKeys d → HasDistinctKeys (filter p d)
  unfolding filter has
  HasDistinctKeys-filter p [] h = h
  HasDistinctKeys-filter p ((j, v) ∷ d) h =
      ground (arith, HasDistinctKeys-filter p d h.1, has-filter p j d h.0)

  pub has-filter_value :
      (f : V → Bool) (k : K) (d : Dict K V)
      → HasDistinctKeys d
      → has k (filter (λ kv. f kv.1) d) ≡ elim (lookup k d) [ none ↦ false | some v ↦ f v ]
  unfolding has filter lookup
  has-filter_value f k [] u = refl
  has-filter_value f k ((j, v) ∷ d) u =
      ground (arith, has-filter_value f k d u.1, has-filter (λ kv. f kv.1) j d u.0, e.same_iff j k)

  -- A dict filtered by its keys.
  pub has-filter_key :
      (f : K → Bool) (k : K) (d : Dict K V) → has k (filter (λ kv. f kv.0) d) ≡ (has k d && f k)
  unfolding has filter
  has-filter_key f k [] = refl
  has-filter_key f k ((j, v) ∷ d) = elim (Bool-cases (j == k)) [
    | inl q ↦ let same = (e.same_iff j k).0 q in ground (arith, has-filter_key f k d, ap f same)
    | inr q ↦ ground (arith, has-filter_key f k d)
  ]

  pub lookup-filter_key :
      (f : K → Bool) (k : K) (d : Dict K V)
      → lookup k (filter (λ kv. f kv.0) d) ≡ (if f k then lookup k d else none)
  unfolding lookup filter
  lookup-filter_key f k [] = ground arith
  lookup-filter_key f k ((j, v) ∷ d) = elim (Bool-cases (j == k)) [
    | inl q ↦ let same = (e.same_iff j k).0 q in ground (arith, lookup-filter_key f k d, ap f same)
    | inr q ↦ ground (arith, lookup-filter_key f k d)
  ]
