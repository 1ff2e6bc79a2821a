-- ===== src/Sync/Single.antt =====
-- core/runtime/cloud_syncer.py: lookup_user_id and sync_tool.
use grafux_mcp.Base.{
  List, Option, String, [], ends_with, has_text, if◌then◌else◌, insert, joined, lookup, ltb, none,
  not, some, split, truthy_text, ◌==◌, ◌^^◌, ◌∷◌, nat_eq, string_eq, pair_eq,
}
use grafux_mcp.Exceptions.{Result, ok, thrown}
use grafux_mcp.Json.{given}
use grafux_mcp.Plugins.{text_of}
use grafux_mcp.Sync.{
  Cloud, Local, Object, Pass, Report, done, failed, finish, load_etags, pass, save_etags, start,
  then_all,
}

-- parts[1], for a key under users/
unfoldable pub uid_of_parts : List String → Option String
uid_of_parts (u ∷ uid ∷ parts) = if u == "users" then some uid else none
uid_of_parts _ = none

unfoldable pub find_uid : String → List Object → Option String
unfolding has_text split uid_of_parts
find_uid pattern [] = none
find_uid pattern (o ∷ os) =
    let rest = find_uid pattern os in
    if has_text o.key pattern
    then (elim (uid_of_parts (split o.key b'/')) [ some uid ↦ some uid | none ↦ rest ])
    else rest

-- The pages in turn; a page that raises ends the search, and the default stays.
unfoldable pub search_pages : String → List (Result (List Object)) → Option String
unfolding find_uid
search_pages pattern [] = none
search_pages pattern (thrown e ∷ pages) = none
search_pages pattern (ok objs ∷ pages) = elim (find_uid pattern objs) [
  | some uid ↦ some uid
  | none ↦ search_pages pattern pages
]

unfoldable pub scan_uid : Cloud → String → Result (Unit {0}) → Option String
unfolding search_pages
scan_uid c pattern (thrown e) = none
scan_uid c pattern (ok _) = search_pages pattern (c.pages "users/")

abbrev pub uid_or_default : Option String → String
uid_or_default none = "10"
uid_or_default (some uid) = uid

unfoldable pub lookup_user_id : Cloud → (username project : String) → Local → String × Local
unfolding lookup insert truthy_text scan_uid
lookup_user_id c username project l = elim (lookup (username, project) l.uids) [
  | some uid ↦ (uid, l)
  | none ↦
      let pattern =
        if truthy_text project then username ^^ "/" ^^ project ^^ "/" else username ^^ "/" in
      let uid = uid_or_default (scan_uid c pattern c.client) in
      (uid, record l { uids = insert (username, project) uid l.uids })
]

-- key.split("/", 2)[2]
unfoldable pub tool_local_key : List String → String → String
unfolding joined
tool_local_key (u ∷ uid ∷ part ∷ parts) key = joined (part ∷ parts)
tool_local_key _ key = key

unfoldable pub tool_target : Object → Option String
unfolding ends_with split tool_local_key
tool_target o = if ends_with o.key "/" then none else some (tool_local_key (split o.key b'/') o.key)

-- The pages in turn, each one's objects before the next page is asked for.
unfoldable pub pass_pages : Cloud → List (Result (List Object)) → Pass → Result (Unit {0}) × Pass
unfolding pass tool_target
pass_pages c [] p = (ok tt, p)
pass_pages c (thrown e ∷ pages) p = (thrown e, p)
pass_pages c (ok objs ∷ pages) p = then_all (pass_pages c pages) (pass c tool_target objs p)

unfoldable pub tool_prefix : (uid username project tool_name : String) → Option String → String
unfolding given
tool_prefix uid username project tool_name category =
    let base = "users/" ^^ uid ^^ "/" ^^ username ^^ "/" ^^ project ^^ "/tools/" in
    if given category
    then base ^^ text_of category ^^ "/" ^^ tool_name ^^ "/"
    else base ^^ tool_name ^^ "/"

unfoldable pub after_tool_pass : Cloud → Local → Result (Unit {0}) × Pass → Report × Local
unfolding save_etags finish
after_tool_pass c l (thrown e, p) = (failed e.message, record l { files = p.files })
after_tool_pass c l (ok _, p) =
    finish c (ltb 0 p.synced) (done p.synced p.skipped 0)
      (record l { files = p.files; etag_file = save_etags c.writable p.etags l.etag_file })

-- user_id or self.lookup_user_id(username, project)
unfoldable pub uid_for :
    Cloud → (username project : String) → (user_id : Option String) → Local → String × Local
unfolding given lookup_user_id
uid_for c username project user_id l =
    if given user_id then (text_of user_id, l) else lookup_user_id c username project l

unfoldable pub with_client :
    Cloud
    → (username project tool_name : String) → (category user_id : Option String) → Result (Unit {0})
    → Local
    → Report × Local
unfolding uid_for tool_prefix pass_pages after_tool_pass load_etags
with_client c username project tool_name category user_id (thrown e) l = (failed e.message, l)
with_client c username project tool_name category user_id (ok _) l =
    let (uid, l') = uid_for c username project user_id l in
    after_tool_pass c l'
      (pass_pages c (c.pages (tool_prefix uid username project tool_name category)) (start l'))

unfoldable pub sync_tool :
    Cloud
    → (username project tool_name : String) → (category user_id : Option String) → Local
    → Report × Local
unfolding truthy_text with_client
sync_tool c username project tool_name category user_id l =
    if not c.available
    then (failed "boto3 not installed", l)
    else if not (truthy_text c.access_key)
    then (failed "AWS credentials not configured", l)
    else with_client c username project tool_name category user_id c.client l
