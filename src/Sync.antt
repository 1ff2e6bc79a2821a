-- ===== src/Sync.antt =====
-- core/runtime/cloud_syncer.py: what is pulled from cloud storage onto the local data tree. Sync has
-- the pass over S3 objects that sync_all and sync_tool make, Sync.Whole and Sync.Single the two.
-- The local tree is a dict from relative paths, in the normal form of pathlib, to contents.
pub mod Whole
pub mod Single
pub mod Fetch
pub mod Mirror
pub mod Orphans
pub mod Again
pub mod Supabase
pub mod Folders
pub mod Pull
pub mod Uids
pub mod Tests
use grafux_mcp.Base.{
  Bool, Dict, List, Option, String, [], add, false, has, if◌then◌else◌, insert, lookup, none, some,
  strip_code, true, ℕ, ◌&&◌, ◌+◌, ◌==◌, ◌∷◌, nat_eq, string_eq, pair_eq,
}
use grafux_mcp.Exceptions.{Result, ok, thrown}
use grafux_mcp.Plugins.{Registry}
use grafux_mcp.Plugins.Tree.{Counts, DataTree, reload_plugins}

-- An entry of "Contents".
pub record Object : Type 0 where
  pub key : String
  pub etag : Option String

-- boto3 and the credentials, and what the file system answers. A failed download leaves the local
-- file, since boto3 writes it under another name first.
pub record Cloud : Type 0 where
  -- S3_AVAILABLE
  pub available : Bool
  -- AWS_ACCESS_KEY_ID
  pub access_key : String
  -- boto3.client("s3", ...)
  pub client : Result (Unit {0})
  -- the pages of list_objects_v2 for a prefix
  pub pages : String → List (Result (List Object))
  -- the content that is downloaded for a key
  pub download : String → Result String
  -- local_path.parent.mkdir(parents=True, exist_ok=True)
  pub mkdir : String → Result (Unit {0})
  -- lf.unlink() succeeds
  pub removable : String → Bool
  -- writing the etag file succeeds
  pub writable : Bool
  -- what the plugin loader finds in the files
  pub tree : Dict String String → DataTree

-- The data tree, the content of .s3_etag_cache.json (none: no such file; or it cannot be read),
-- _uid_cache, and the plugin registries.
pub record Local : Type 0 where
  pub files : Dict String String
  pub etag_file : Option (Result (Dict String String))
  pub uids : Dict (String × String) String
  pub registry : Registry

-- What the methods return: "success" false with the error, the message that S3 has no files, or the
-- counts.
pub data Report : Type 0 where
  failed : String → Report
  nothing : Report
  done : (synced skipped deleted loaded : ℕ) → Report

-- The variables of a pass over objects. (sync_tool does not use `seen`, the set s3_files.)
pub record Pass : Type 0 where
  pub files : Dict String String
  pub etags : Dict String String
  pub seen : List String
  pub synced : ℕ
  pub skipped : ℕ

unfoldable pub load_etags : Option (Result (Dict String String)) → Dict String String
load_etags none = []
load_etags (some (thrown e)) = []
load_etags (some (ok cache)) = cache

unfoldable pub save_etags :
    Bool
    → Dict String String
    → Option (Result (Dict String String))
    → Option (Result (Dict String String))
save_etags true cache old = some (ok cache)
save_etags false cache old = old

-- obj.get("ETag", "").strip('"')
unfoldable pub s3_etag : Object → String
unfolding strip_code
s3_etag o = elim o.etag [ none ↦ "" | some raw ↦ strip_code b'"' raw ]

-- etag_cache.get(key) == s3_etag and local_path.exists()
unfoldable pub is_fresh : Object → String → Dict String String → Dict String String → Bool
unfolding lookup has s3_etag
is_fresh o local etags files =
    elim (lookup o.key etags) [ none ↦ false | some etag ↦ etag == s3_etag o ] && has local files

-- The directory is made, then the object is downloaded: `made` and `got` are what these two gave.
unfoldable pub store :
    Object
    → String
    → (made : Result (Unit {0})) (got : Result String) → Pass
    → Result (Unit {0}) × Pass
unfolding insert
store o local (thrown e) got p = (thrown e, p)
store o local (ok _) (thrown e) p = (ok tt, p)
store o local (ok _) (ok content) p = (
  ok tt,
  record p {
    files = insert local content p.files;
    etags = insert o.key (s3_etag o) p.etags;
    synced = p.synced + 1;
  },
)

unfoldable pub fetch : Cloud → Object → String → Pass → Result (Unit {0}) × Pass
unfolding is_fresh store
fetch c o local p =
    if is_fresh o local p.etags p.files
    then (ok tt, record p { skipped = p.skipped + 1 })
    else store o local (c.mkdir local) (c.download o.key) p

-- One object: `target` is its local key, if it is not passed over.
unfoldable pub visit : Cloud → Object → (target : Option String) → Pass → Result (Unit {0}) × Pass
unfolding fetch add
visit c o none p = (ok tt, p)
visit c o (some local) p = fetch c o local (record p { seen = add local p.seen })

abbrev pub then_all :
    (Pass → Result (Unit {0}) × Pass) → Result (Unit {0}) × Pass → Result (Unit {0}) × Pass
then_all next (ok _, p) = next p
then_all next (thrown e, p) = (thrown e, p)

-- for obj in objs: ...
unfoldable pub pass :
    Cloud → (Object → Option String) → List Object → Pass → Result (Unit {0}) × Pass
unfolding visit
pass c target [] p = (ok tt, p)
pass c target (o ∷ os) p = then_all (pass c target os) (visit c o (target o) p)

abbrev pub start : Local → Pass
start l = record {
  files = l.files;
  etags = load_etags l.etag_file;
  seen = [];
  synced = 0;
  skipped = 0;
}

abbrev pub reloaded : (ℕ → Report) → Local → Result Counts × Registry → Report × Local
reloaded report l (ok n, reg) = (report n.tools, record l { registry = reg })
reloaded report l (thrown e, reg) = (failed e.message, record l { registry = reg })

-- The plugins are reloaded if a file has changed.
unfoldable pub finish : Cloud → Bool → (ℕ → Report) → Local → Report × Local
unfolding reload_plugins
finish c changed report l =
    if changed
    then reloaded report l (reload_plugins (c.tree l.files) l.registry)
    else (report 0, l)
