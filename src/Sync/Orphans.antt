-- ===== src/Sync/Orphans.antt =====
-- core/runtime/cloud_syncer.py: what sync_all leaves of the files that the listing does not name, and
-- of those that it does.
use grafux_mcp.Base.{
  Bool, Dict, List, Option, String, [], ap, contains, false, if◌then◌else◌, lookup, refl, true,
  truthy_text, ℕ, ◌∙◌, ◌∷◌, ◌≡◌, nat_eq, string_eq, pair_eq,
}
use grafux_mcp.Exceptions.{Result, ok, thrown, ◌>>=◌}
use grafux_mcp.Plugins.{Registry}
use grafux_mcp.Sync.{Cloud, Local, Object, Pass, Report, finish, pass, reloaded, save_etags, start}
use grafux_mcp.Plugins.Tree.{Counts, reload_plugins}
use grafux_mcp.Sync.Whole.{
  after_pass, clean, collect, delete_orphans, sync_all, target_of, with_objects,
}
use grafux_mcp.Sync.Fetch.{pass_goes_on}
use grafux_mcp.Sync.Mirror.{pass-seen, seen_after}

-- Everything that sync_all asks for before the objects answers, and directories can be made.
pub record IsOnline (c : Cloud) (os : List Object) : Type 0 where
  pub available : c.available ≡ true
  pub key : truthy_text c.access_key ≡ true
  pub listed : (c.client >>= λ _. collect (c.pages "users/")) ≡ ok os
  pub made : (path : String) → c.mkdir path ≡ ok tt

-- The local tree that the pass of sync_all begins with.
abbrev pub cleaned : Bool → (username project : Option String) → Local → Local
cleaned clean_first username project l = record l {
  files = if clean_first then clean username project l.files else l.files;
}

module _ (c : Cloud) (target : Object → Option String) (path : String)
    (files : Dict String String) where
  -- A path that is not in the set has the file that it had.
  IsUntouched : Pass → Type 0
  IsUntouched p = contains p.seen path ≡ false → lookup path p.files ≡ lookup path files

reloaded-local :
    (report : ℕ → Report) (l : Local) (r : Result Counts × Registry)
    → (reloaded report l r).1 ≡ record l { registry = r.1 }
reloaded-local report l (ok n, reg) = refl
reloaded-local report l (thrown e, reg) = refl

pub finish-local :
    (c : Cloud) (changed : Bool) (report : ℕ → Report) (l : Local)
    → (reg : Registry) × ((finish c changed report l).1 ≡ record l { registry = reg })
unfolding finish
finish-local c true report l =
    (_, reloaded-local report l (reload_plugins (c.tree l.files) l.registry))
finish-local c false report l = (l.registry, refl)

-- What is left by a pass that goes on to its end: the plugins may be loaded anew.
pub after_pass-local :
    (c : Cloud) (l : Local) (r : Result (Unit {0}) × Pass)
    → r.0 ≡ ok tt
    → (reg : Registry) × ((after_pass c l r).1 ≡ record l {
      files = delete_orphans c r.1.seen r.1.files;
      etag_file = save_etags c.writable r.1.etags l.etag_file;
      registry = reg;
    })
unfolding after_pass
after_pass-local c l (thrown e, p) h = cc
after_pass-local c l (ok u, p) h = finish-local c _ _ _

-- A run that gets to the objects is the pass over them.
pub sync_all_online :
    (c : Cloud) (username project : Option String) (clean_first : Bool) (o : Object)
    (os : List Object) (l : Local)
    → IsOnline c (o ∷ os)
    → sync_all c username project clean_first l
      ≡ after_pass c (cleaned clean_first username project l) (
          pass c
            (target_of username project)
            (o ∷ os)
            (start (cleaned clean_first username project l)))
unfolding sync_all with_objects
sync_all_online c username project clean_first o os l online =
    rw (online.available, online.key) (rw (online.listed, with_objects) refl)

module _ (c : Cloud) (username project : Option String) (clean_first : Bool) (o : Object)
    (os : List Object) (l : Local) (online : IsOnline c (o ∷ os)) where
  abbrev target : Object → Option String
  target = target_of username project

  abbrev passed : Pass
  passed = (pass c target (o ∷ os) (start (cleaned clean_first username project l))).1

  -- The files and the etags that a run leaves.
  pub sync_all-local :
      (reg : Registry) × ((sync_all c username project clean_first l).1 ≡ record l {
        files = delete_orphans c (seen_after target (o ∷ os) []) passed.files;
        etag_file = save_etags c.writable passed.etags l.etag_file;
        registry = reg;
      })
  sync_all-local =
      let l' = cleaned clean_first username project l in
      let left =
        after_pass-local c l' (pass c target (o ∷ os) (start l'))
          (pass_goes_on c online.made target (o ∷ os) (start l')) in
      (
        left.0,
        ap (λ r. r.1) (sync_all_online c username project clean_first o os l online)
            ∙ left.1
            ∙ ap {B = Local}
                (λ seen. record l {
                  files = delete_orphans c seen passed.files;
                  etag_file = save_etags c.writable passed.etags l.etag_file;
                  registry = left.0;
                })
                (pass-seen c target online.made (o ∷ os) (start l')),
      )
