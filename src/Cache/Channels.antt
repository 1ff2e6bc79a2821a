-- ===== src/Cache/Channels.antt =====
-- Who gets a published message, and in which order.
use grafux_mcp.Base.{
  Bool, Dict, List, Option, String, [], ap, contains, eq_of_==, false, if◌then◌else◌, insert,
  length, lookup, lookup-insert, none, refl, some, sym, true, ℕ, ◌++◌, ◌==◌, ◌||◌, ◌∙◌, ◌∷◌, ◌≡◌,
  nat_eq, string_eq, pair_eq,
}
use grafux_mcp.Cache.{Redis, publish, publish_to, put_each, waiting}

-- A set of queues holds each once.
abbrev pub HoldsOnce : List ℕ → Type 0
HoldsOnce [] = Unit
HoldsOnce (q ∷ qs) = (contains qs q ≡ false) × HoldsOnce qs

-- The queues of a channel.
abbrev pub queues_of : Option (List ℕ) → List ℕ
queues_of none = []
queues_of (some qs) = qs

abbrev pub subscribers : String → Redis → List ℕ
subscribers channel r = queues_of (lookup channel r.channels)

waiting-insert :
    (q j : ℕ) (ms : List String) (d : Dict ℕ (List String))
    → waiting j (insert q ms d) ≡ (if q == j then ms else waiting j d)
waiting-insert q j ms d =
    ap (λ o. elim o as (λ x. List String) [ none ↦ [] | some s ↦ s ]) (lookup-insert q j ms d)
    ∙ by_key (q == j)
  where
    by_key :
        (b : Bool)
        → elim (if b then some ms else lookup j d) as (λ x. List String) [ none ↦ [] | some s ↦ s ]
          ≡ (if b then ms else waiting j d)
    by_key true = refl
    by_key false = refl

put_step :
    (k c : Bool) (old new ms : List String)
    → (k ≡ true → (c ≡ false) × (old ≡ new))
    → (if c then (if k then old ++ ms else new) ++ ms else (if k then old ++ ms else new))
      ≡ (if k || c then new ++ ms else new)
put_step true true old new ms h = cc (h refl).0
put_step true false old new ms h = ap (λ o. o ++ ms) (h refl).1
put_step false true old new ms h = refl
put_step false false old new ms h = refl

waiting-put_each :
    (qs : List ℕ) (m : String) (d : Dict ℕ (List String)) (j : ℕ)
    → HoldsOnce qs
    → waiting j (put_each qs m d) ≡ (if contains qs j then waiting j d ++ m ∷ [] else waiting j d)
unfolding put_each contains
waiting-put_each [] m d j u = refl
waiting-put_each (q ∷ qs) m d j u =
    waiting-put_each qs m (insert q (waiting q d ++ m ∷ []) d) j u.1
    ∙ ap (λ ms. if contains qs j then ms ++ m ∷ [] else ms)
        (waiting-insert q j (waiting q d ++ m ∷ []) d)
    ∙ put_step (q == j) (contains qs j) (waiting q d) (waiting j d) (m ∷ [])
        (λ h. let e = eq_of_== q j h in (ap (contains qs) (sym e) ∙ u.0, ap (λ s. waiting s d) e))

-- A published message goes to the end of the queue of every subscriber of its channel, and to no
-- other queue; the number that is given back is that of the subscribers.
pub publish_lem :
    (channel message : String) (r : Redis) (j : ℕ)
    → HoldsOnce (subscribers channel r)
    → ((publish channel message r).0 ≡ length (subscribers channel r))
      × (waiting j (publish channel message r).1.queues ≡ (
          if contains (subscribers channel r) j
          then waiting j r.queues ++ message ∷ []
          else waiting j r.queues))
unfolding publish contains
publish_lem channel message r j = go (lookup channel r.channels)
  where
    go :
        (o : Option (List ℕ))
        → HoldsOnce (queues_of o)
        → ((publish_to o message r).0 ≡ length (queues_of o))
          × (waiting j (publish_to o message r).1.queues ≡ (
              if contains (queues_of o) j
              then waiting j r.queues ++ message ∷ []
              else waiting j r.queues))
    go none u = (refl, refl)
    go (some qs) u = (refl, waiting-put_each qs message r.queues j u)
