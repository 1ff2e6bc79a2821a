-- ===== src/Sync/Again.antt =====
-- core/runtime/cloud_syncer.py: a sync_all mirrors the listing, and a second one has nothing to do.
use grafux_mcp.Base.{
  Bool, Dict, List, Option, String, [], some, true, ℕ, ◌∷◌, ◌≡◌, nat_eq, string_eq, pair_eq,
}
use grafux_mcp.Exceptions.{Result, ok}
use grafux_mcp.Plugins.{Registry}
use grafux_mcp.Sync.{Cloud, Local, Object, Pass, is_fresh, pass, start}
use grafux_mcp.Sync.Whole.{delete_orphans, target_of}
use grafux_mcp.Sync.Mirror.{IsListing, seen_after}
use grafux_mcp.Sync.Orphans.{IsOnline, cleaned}

-- The passes that have nothing to download differ in the skipped objects and the set of keys.
module _ (c : Cloud) (target : Object → Option String) where
  abbrev IsUpToDate : Dict String String → Dict String String → Object → Type 0
  IsUpToDate etags files o =
      (local : String) → target o ≡ some local → is_fresh o local etags files ≡ true

  abbrev idle : ℕ → List String → Pass → Result (Unit {0}) × Pass
  idle n seen p = (ok tt, record p { skipped = n; seen = seen })

module _ (c : Cloud) (username project : Option String) (clean_first : Bool) (o : Object)
    (os : List Object) (l : Local) (online : IsOnline c (o ∷ os))
    (listing : IsListing (o ∷ os)) where
  abbrev target : Object → Option String
  target = target_of username project

  abbrev first : Pass
  first = (pass c target (o ∷ os) (start (cleaned clean_first username project l))).1

  abbrev named : List String
  named = seen_after target (o ∷ os) []

  module _ (writable : c.writable ≡ true) where
    -- What the run leaves: the registries may be loaded anew.
    abbrev mirror : Registry → Local
    mirror reg = record l {
      files = delete_orphans c named first.files;
      etag_file = some (ok first.etags);
      registry = reg;
    }
