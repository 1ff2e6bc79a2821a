-- ===== src/Sync/Whole.antt =====
-- core/runtime/cloud_syncer.py: sync_all.
use grafux_mcp.Base.{
  Bool, Dict, List, Option, String, [], contains, ends_with, filter, has_text, if◌then◌else◌,
  joined, length, ltb, none, not, some, split, starts_with, truthy_text, without_last, ℕ, ◌&&◌,
  ◌++◌, ◌==◌, ◌^^◌, ◌||◌, ◌∷◌, nat_eq, string_eq, pair_eq,
}
use grafux_mcp.Exceptions.{Result, ok, thrown, ◌>>=◌, ◌>>=◌}
use grafux_mcp.Json.{given}
use grafux_mcp.Plugins.{text_of}
use grafux_mcp.Sync.{
  Cloud, Local, Object, Pass, Report, done, failed, finish, load_etags, nothing, pass, save_etags,
  start,
}

-- all_objs: the listing is read to its end first.
unfoldable pub collect : List (Result (List Object)) → Result (List Object)
collect [] = ok []
collect (page ∷ pages) = page >>= λ objs. (collect pages >>= λ rest. ok (objs ++ rest))

-- The guards that pass an object over.
unfoldable pub is_selected : Option String → Option String → String → Bool
unfolding given has_text ends_with
is_selected username project key =
    not (ends_with key "/")
    && not (given username && not (has_text key (text_of username)))
    && not (given project && not (has_text key (text_of project)))
    && has_text key "/tools/"

-- "/".join(parts[2:]), for a key under users/
unfoldable pub local_of_parts : List String → String → String
unfolding joined
local_of_parts (u ∷ uid ∷ part ∷ parts) key = if u == "users" then joined (part ∷ parts) else key
local_of_parts _ key = key

unfoldable pub local_key : String → String
unfolding split local_of_parts
local_key key = local_of_parts (split key b'/') key

unfoldable pub target_of : Option String → Option String → Object → Option String
unfolding is_selected local_key
target_of username project o =
    if is_selected username project o.key then some (local_key o.key) else none

-- shutil.rmtree of the user's or the project's directory
unfoldable pub clean : Option String → Option String → Dict String String → Dict String String
unfolding given filter starts_with
clean username project files =
    let dir =
      if given project
      then text_of username ^^ "/" ^^ text_of project ^^ "/"
      else text_of username ^^ "/" in
    if given username then filter (λ f. not (starts_with f.0 dir)) files else files

-- The file is below a directory named tools.
unfoldable pub in_tools : String → Bool
unfolding contains split
in_tools path = contains (without_last (split path b'/')) "tools"

-- A file that the pass over the tools directories removes.
unfoldable pub is_orphan : Cloud → List String → String → Bool
unfolding in_tools contains
is_orphan c seen path = in_tools path && not (contains seen path) && c.removable path

unfoldable pub delete_orphans : Cloud → List String → Dict String String → Dict String String
unfolding is_orphan filter
delete_orphans c seen files = filter (λ f. not (is_orphan c seen f.0)) files

-- files_deleted
unfoldable pub deleted : Cloud → List String → Dict String String → ℕ
unfolding is_orphan filter
deleted c seen files = length (filter (λ f. is_orphan c seen f.0) files)

unfoldable pub after_pass : Cloud → Local → Result (Unit {0}) × Pass → Report × Local
unfolding delete_orphans deleted save_etags finish
after_pass c l (thrown e, p) = (failed e.message, record l { files = p.files })
after_pass c l (ok _, p) =
    let n = deleted c p.seen p.files in
    finish c (ltb 0 p.synced || ltb 0 n) (done p.synced p.skipped n) (record l {
      files = delete_orphans c p.seen p.files;
      etag_file = save_etags c.writable p.etags l.etag_file;
    })

unfoldable pub with_objects :
    Cloud
    → (username project : Option String) → (clean_first : Bool) → Result (List Object)
    → Local
    → Report × Local
unfolding clean pass after_pass load_etags
with_objects c username project clean_first (thrown e) l = (failed e.message, l)
with_objects c username project clean_first (ok []) l = (nothing, l)
with_objects c username project clean_first (ok (o ∷ os)) l =
    let l' = record l { files = if clean_first then clean username project l.files else l.files } in
    after_pass c l' (pass c (target_of username project) (o ∷ os) (start l'))

unfoldable pub sync_all :
    Cloud → (username project : Option String) → (clean_first : Bool) → Local → Report × Local
unfolding truthy_text collect with_objects
sync_all c username project clean_first l =
    if not c.available
    then (failed "boto3 not installed", l)
    else if not (truthy_text c.access_key)
    then (failed "AWS credentials not configured", l)
    else with_objects c username project clean_first (c.client >>= λ _. collect (c.pages "users/"))
        l
