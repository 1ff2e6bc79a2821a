-- ===== src/Negotiation.antt =====
-- core/protocol/negotiation.py: the merge of capabilities.
pub mod Tests
use grafux_mcp.Base.{
  Bool, Dict, Option, Option-cases, String, [], ap, eq_of_==, false, has, has-lookup, if◌then◌else◌,
  inl, inr, insert, lookup, lookup-insert, none, refl, some, sym, true, ◌==◌, ◌∙◌, ◌∷◌, ◌≡◌, nat_eq,
  string_eq, pair_eq,
}
use grafux_mcp.Json.{Json}

-- for k, v in local_caps.items(): if k not in merged: merged[k] = v
unfoldable pub merge_each : Dict String Json → Dict String Json → Dict String Json
unfolding has
merge_each [] merged = merged
merge_each ((k, v) ∷ local) merged =
    merge_each local (if has k merged then merged else insert k v merged)

unfoldable pub merge_capabilities : Dict String Json → Option (Dict String Json) → Dict String Json
merge_capabilities server none = server
merge_capabilities server (some local) = merge_each local server

-- The first that is there.
abbrev pub first_of : Option Json → Option Json → Option Json
first_of none b = b
first_of (some v) b = some v

put_absent :
    (b : Bool) (o : Option Json) (v : Json)
    → (b ≡ true → o ≡ none)
    → (if b then some v else o) ≡ (if b then first_of o (some v) else o)
put_absent true o v h = sym (ap (λ p. first_of p (some v)) (h refl))
put_absent false o v h = refl

keep_present :
    (b : Bool) (o : Option Json) (v w : Json)
    → (b ≡ true → o ≡ some w)
    → o ≡ (if b then first_of o (some v) else o)
keep_present true o v w h = h refl ∙ sym (ap (λ p. first_of p (some v)) (h refl))
keep_present false o v w h = refl

merge_step :
    (k j : String) (v : Json) (merged : Dict String Json)
    → lookup j (if has k merged then merged else insert k v merged)
      ≡ (if k == j then first_of (lookup j merged) (some v) else lookup j merged)
merge_step k j v merged =
    let same = λ (q : (k == j) ≡ true). ap (λ s. lookup s merged) (sym (eq_of_== k j q)) in
    let there = has-lookup k merged in
    elim (Option-cases (lookup k merged)) [
      | inl q ↦
          ap (λ b. lookup j (if b then merged else insert k v merged)) (there ∙ ap found q)
          ∙ lookup-insert k j v merged
          ∙ put_absent (k == j) (lookup j merged) v (λ h. same h ∙ q)
      | inr (w, q) ↦
          ap (λ b. lookup j (if b then merged else insert k v merged)) (there ∙ ap found q)
          ∙ keep_present (k == j) (lookup j merged) v w (λ h. same h ∙ q)
    ]
  where
    found : Option Json → Bool
    found none = false
    found (some w) = true

lookup-merge_each :
    (local merged : Dict String Json) (k : String)
    → lookup k (merge_each local merged) ≡ first_of (lookup k merged) (lookup k local)
unfolding merge_each lookup
lookup-merge_each [] merged k = none_after (lookup k merged)
  where
    none_after : (o : Option Json) → o ≡ first_of o none
    none_after none = refl
    none_after (some v) = refl
lookup-merge_each ((j, v) ∷ local) merged k =
    lookup-merge_each local (if has j merged then merged else insert j v merged) k
    ∙ ap (λ o. first_of o (lookup k local)) (merge_step j k v merged)
    ∙ by_key (j == k) (lookup k merged)
  where
    by_key :
        (b : Bool) (o : Option Json)
        → first_of (if b then first_of o (some v) else o) (lookup k local)
          ≡ first_of o (if b then some v else lookup k local)
    by_key true none = refl
    by_key true (some w) = refl
    by_key false o = refl

-- What the server reports is kept for every name; the local value is taken for exactly the names that
-- the server does not report.
pub lookup-merge_capabilities :
    (server local : Dict String Json) (k : String)
    → (lookup k (merge_capabilities server (some local))
        ≡ first_of (lookup k server) (lookup k local))
      × (merge_capabilities server none ≡ server)
unfolding merge_capabilities
lookup-merge_capabilities server local k = (lookup-merge_each local server k, refl)
