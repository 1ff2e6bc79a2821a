-- ===== src/Sync/Mirror.antt =====
-- core/runtime/cloud_syncer.py: what a pass leaves on the disk and in the etag cache.
use grafux_mcp.Base.{
  ==_refl, All, Bool, Dict, List, Option, Option-cases, String, [], add, any, ap, arith, contains,
  contains-add, false, has-insert, inl, inr, lookup-insert, lookup-insert_self, none, refl, some,
  subst, sym, true, ◌==◌, ◌||◌, ◌∙◌, ◌∷◌, ◌≡◌, nat_eq, string_eq, pair_eq,
}
use grafux_mcp.Exceptions.{Result, ok, thrown}
use grafux_mcp.Sync.{Cloud, Object, Pass, is_fresh, pass, s3_etag, visit}
use grafux_mcp.Sync.Fetch.{fetch_elim, pass_keeps, pass_step, seeing, storing}

-- The objects of a bucket have different keys.
abbrev pub IsListing : List Object → Type 0
IsListing [] = Unit
IsListing (o ∷ os) = All (λ p. (p.key == o.key) ≡ false) os × IsListing os

-- The object is the one that a target names.
abbrev pub aims_at : String → Option String → Bool
aims_at path none = false
aims_at path (some local) = local == path

-- The local keys that a pass adds to a set.
abbrev pub seen_after : (Object → Option String) → List Object → List String → List String
seen_after target [] seen = seen
seen_after target (o ∷ os) seen =
    seen_after target os (elim (target o) [ none ↦ seen | some local ↦ add local seen ])

-- An object that can be downloaded is on the disk, under the etag that the cache has for it.
abbrev pub IsMirrored :
    Cloud → (Object → Option String) → Dict String String → Dict String String → Object → Type 0
IsMirrored c target etags files o =
    (local : String)
    → target o ≡ some local
    → (content : String) → c.download o.key ≡ ok content
    → is_fresh o local etags files ≡ true

abbrev IsFreshIn : Object → String → Pass → Type 0
IsFreshIn o local p = is_fresh o local p.etags p.files ≡ true

storing-fresh :
    (o : Object) (local content : String) (p : Pass) → IsFreshIn o local (storing o local content p)
unfolding is_fresh
storing-fresh o local content p = ground (
  arith,
  lookup-insert_self o.key (s3_etag o) p.etags,
  has-insert local local content p.files,
  ==_refl local,
  ==_refl (s3_etag o),
)

storing-keeps_fresh :
    (o other : Object) (local path content : String) (p : Pass)
    → (other.key == o.key) ≡ false
    → IsFreshIn o local p
    → IsFreshIn o local (storing other path content p)
unfolding is_fresh
storing-keeps_fresh o other local path content p differs h = ground (
  arith,
  lookup-insert other.key o.key (s3_etag other) p.etags,
  has-insert path local content p.files,
)

module _ (c : Cloud) (o other : Object) (local : String) where
  visit-keeps_fresh :
      (t : Option String) (p : Pass)
      → (other.key == o.key) ≡ false
      → IsFreshIn o local p
      → IsFreshIn o local (visit c other t p).1
  unfolding visit
  visit-keeps_fresh none p differs h = h
  visit-keeps_fresh (some path) p differs h =
      fetch_elim (λ (r : Result (Unit {0}) × Pass). IsFreshIn o local r.1) c other path
        (seeing path p) (λ q. h) (λ e q. h) (λ e q. h)
        (λ content q. storing-keeps_fresh o other local path content (seeing path p) differs h)

visit-fresh :
    (c : Cloud) (o : Object) (local content : String) (p : Pass)
    → c.mkdir local ≡ ok tt
    → c.download o.key ≡ ok content
    → IsFreshIn o local (visit c o (some local) p).1
unfolding visit
visit-fresh c o local content p made got =
    fetch_elim (λ (r : Result (Unit {0}) × Pass). IsFreshIn o local r.1) c o local (seeing local p)
      (λ q. q) (λ e q. let clash : ok tt ≡ thrown e = sym made ∙ q in cc)
      (λ e q. let clash : ok content ≡ thrown e = sym got ∙ q in cc)
      (λ got_content q. storing-fresh o local got_content (seeing local p))

module _ (c : Cloud) (target : Object → Option String) where
  pass-keeps_fresh :
      (o : Object) (local : String) (os : List Object) (p : Pass)
      → All (λ other. (other.key == o.key) ≡ false) os
      → IsFreshIn o local p
      → IsFreshIn o local (pass c target os p).1
  pass-keeps_fresh o local os p differ =
      pass_keeps c target (IsFreshIn o local) os (steps os differ) p
    where
      steps :
          (os : List Object)
          → All (λ other. (other.key == o.key) ≡ false) os
          → All
              (λ other.
                (p : Pass)
                → IsFreshIn o local p
                → IsFreshIn o local (visit c other (target other) p).1)
              os
      steps [] d = tt
      steps (other ∷ os) d =
          (λ p h. visit-keeps_fresh c o other local (target other) p d.0 h, steps os d.1)

  module _ (made : (path : String) → c.mkdir path ≡ ok tt) where
    pub pass-IsMirrored :
        (os : List Object) (p : Pass)
        → IsListing os
        → All (IsMirrored c target (pass c target os p).1.etags (pass c target os p).1.files) os
    pass-IsMirrored [] p listing = tt
    pass-IsMirrored (o ∷ os) p listing =
        let next = (visit c o (target o) p).1 in
        subst
          (λ (r : Result (Unit {0}) × Pass). All (IsMirrored c target r.1.etags r.1.files) (o ∷ os))
          (sym (pass_step c made target o os p))
          (
            λ local aim content got.
                pass-keeps_fresh o local os next listing.0
                  (rw aim (visit-fresh c o local content p (made local) got)),
            pass-IsMirrored os next listing.1,
          )

    visit-seen :
        (o : Object) (t : Option String) (p : Pass)
        → (visit c o t p).1.seen ≡ elim t [ none ↦ p.seen | some local ↦ add local p.seen ]
    unfolding visit
    visit-seen o none p = refl
    visit-seen o (some local) p =
        fetch_elim (λ (r : Result (Unit {0}) × Pass). r.1.seen ≡ add local p.seen) c o local
          (seeing local p) (λ q. refl) (λ e q. refl) (λ e q. refl) (λ content q. refl)

    pub pass-seen :
        (os : List Object) (p : Pass) → (pass c target os p).1.seen ≡ seen_after target os p.seen
    unfolding pass
    pass-seen [] p = refl
    pass-seen (o ∷ os) p =
        ap (λ r. r.1.seen) (pass_step c made target o os p)
        ∙ pass-seen os (visit c o (target o) p).1
        ∙ ap (seen_after target os) (visit-seen o (target o) p)

  pub contains-seen_after :
      (os : List Object) (seen : List String) (path : String)
      → contains (seen_after target os seen) path
        ≡ (contains seen path || any (λ o. aims_at path (target o)) os)
  unfolding any
  contains-seen_after [] seen path = ground arith
  contains-seen_after (o ∷ os) seen path = elim (Option-cases (target o)) [
    | inl q ↦ rw q (contains-seen_after os seen path)
    | inr (local, q) ↦
        rw q (
          ground
            (arith, contains-seen_after os (add local seen) path, contains-add local path seen))
  ]
