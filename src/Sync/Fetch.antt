-- ===== src/Sync/Fetch.antt =====
-- core/runtime/cloud_syncer.py: what a pass over objects does, object by object.
use grafux_mcp.Base.{
  All, List, Option, String, [], add, ap, if_elim, inl, inr, insert, none, refl, some, sym, true,
  ◌+◌, ◌∙◌, ◌∷◌, ◌≡◌, nat_eq, string_eq, pair_eq,
}
use grafux_mcp.Exceptions.{Exc, Result, Result-cases, ok, thrown}
use grafux_mcp.Sync.{Cloud, Object, Pass, fetch, is_fresh, pass, s3_etag, store, then_all, visit}

-- The pass with one more object passed over, or stored.
abbrev pub skipping : Pass → Pass
skipping p = record p { skipped = p.skipped + 1 }

abbrev pub storing : Object → (local content : String) → Pass → Pass
storing o local content p = record p {
  files = insert local content p.files;
  etags = insert o.key (s3_etag o) p.etags;
  synced = p.synced + 1;
}

abbrev pub seeing : String → Pass → Pass
seeing local p = record p { seen = add local p.seen }

module _ {ℓ} (P : Result (Unit {0}) × Pass → Type ℓ) (c : Cloud) (o : Object) (local : String)
    (p : Pass) where
  store_elim :
      ((e : Exc) → c.mkdir local ≡ thrown e → P (thrown e, p))
      → ((e : Exc) → c.download o.key ≡ thrown e → P (ok tt, p))
      → ((content : String) → c.download o.key ≡ ok content → P (ok tt, storing o local content p))
      → P (store o local (c.mkdir local) (c.download o.key) p)
  unfolding store
  store_elim refused unchanged stored = elim (Result-cases (c.mkdir local)) [
    | inr (e, q) ↦ rw (q, store) (refused e q)
    | inl (u, q) ↦ elim (Result-cases (c.download o.key)) [
      | inr (e, r) ↦ rw (q, store) (rw (r, store) (unchanged e r))
      | inl (content, r) ↦ rw (q, store) (rw (r, store) (stored content r))
    ]
  ]

  -- What can happen to an object that is not passed over.
  pub fetch_elim :
      (is_fresh o local p.etags p.files ≡ true → P (ok tt, skipping p))
      → ((e : Exc) → c.mkdir local ≡ thrown e → P (thrown e, p))
      → ((e : Exc) → c.download o.key ≡ thrown e → P (ok tt, p))
      → ((content : String) → c.download o.key ≡ ok content → P (ok tt, storing o local content p))
      → P (fetch c o local p)
  unfolding fetch
  fetch_elim fresh refused unchanged stored =
      if_elim P (is_fresh o local p.etags p.files) _ _ fresh
        (λ q. store_elim refused unchanged stored)

-- A property that every visit keeps is kept by the pass, also by one that raises.
module _ {ℓ} (c : Cloud) (target : Object → Option String) (P : Pass → Type ℓ) where
  then_all_keeps :
      (next : Pass → Result (Unit {0}) × Pass) (r : Result (Unit {0}) × Pass)
      → ((p : Pass) → P p → P (next p).1)
      → P r.1
      → P (then_all next r).1
  then_all_keeps next (ok u, p) step h = step p h
  then_all_keeps next (thrown e, p) step h = h

  pub pass_keeps :
      (os : List Object)
      → All (λ o. (p : Pass) → P p → P (visit c o (target o) p).1) os
      → (p : Pass) → P p
      → P (pass c target os p).1
  unfolding pass
  pass_keeps [] steps p h = h
  pass_keeps (o ∷ os) steps p h =
      then_all_keeps (pass c target os) (visit c o (target o) p) (pass_keeps os steps.1)
        (steps.0 p h)

module _ (c : Cloud) (made : (path : String) → c.mkdir path ≡ ok tt) where
  fetch_goes_on : (o : Object) (local : String) (p : Pass) → (fetch c o local p).0 ≡ ok tt
  fetch_goes_on o local p =
      fetch_elim (λ (r : Result (Unit {0}) × Pass). r.0 ≡ ok tt) c o local p (λ q. refl)
        (λ e q. let clash : ok tt ≡ thrown e = sym (made local) ∙ q in cc) (λ e q. refl)
        (λ content q. refl)

  visit_goes_on : (o : Object) (t : Option String) (p : Pass) → (visit c o t p).0 ≡ ok tt
  unfolding visit
  visit_goes_on o none p = refl
  visit_goes_on o (some local) p = fetch_goes_on o local (seeing local p)

  then_all_goes_on :
      (next : Pass → Result (Unit {0}) × Pass) (r : Result (Unit {0}) × Pass)
      → r.0 ≡ ok tt
      → then_all next r ≡ next r.1
  then_all_goes_on next (ok u, p) h = refl
  then_all_goes_on next (thrown e, p) h = cc

  -- Where every directory can be made, the pass goes on from each object to the next.
  pub pass_step :
      (target : Object → Option String) (o : Object) (os : List Object) (p : Pass)
      → pass c target (o ∷ os) p ≡ pass c target os (visit c o (target o) p).1
  unfolding pass
  pass_step target o os p =
      then_all_goes_on (pass c target os) (visit c o (target o) p) (visit_goes_on o (target o) p)

  pub pass_goes_on :
      (target : Object → Option String) (os : List Object) (p : Pass)
      → (pass c target os p).0 ≡ ok tt
  unfolding pass
  pass_goes_on target [] p = refl
  pass_goes_on target (o ∷ os) p =
      ap (λ r. r.0) (pass_step target o os p) ∙ pass_goes_on target os (visit c o (target o) p).1
