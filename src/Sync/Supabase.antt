-- ===== src/Sync/Supabase.antt =====
-- core/runtime/cloud_syncer.py: sync_tool_from_supabase. The recursion of _list_recursive is on fuel,
-- which stands for Python's recursion limit.
use grafux_mcp.Base.{
  Bool, Dict, List, Option, String, [], add, ends_with, if◌then◌else◌, insert, ltb, none, not, some,
  split, starts_with, suc, truthy_text, zero, ℕ, ◌++◌, ◌+◌, ◌==◌, ◌^^◌, ◌||◌, ◌∷◌, nat_eq,
  string_eq, pair_eq,
}
use grafux_mcp.Exceptions.{Result, ok, thrown}
use grafux_mcp.Json.{given}
use grafux_mcp.Plugins.{text_of}
use grafux_mcp.Sync.{Cloud, Local, Report, done, failed, finish}

-- An entry of a listing; a folder has no id.
pub record StoredItem : Type 0 where
  pub name : String
  pub id : Option String

-- The storage service by what its requests give, status and body, and what the file system answers.
pub record Supabase : Type 0 where
  pub url : String
  pub service_key : String
  -- POST /storage/v1/object/list/{bucket} for a prefix
  pub listing : String → Result (ℕ × List StoredItem)
  -- GET /storage/v1/object/{bucket}/{path}
  pub object : String → Result (ℕ × String)
  -- making the directory and writing the file
  pub place : String → Result (Unit {0})
  pub cloud : Cloud
  -- how deep _list_recursive can call itself
  pub recursion_limit : ℕ

-- not name or name.startswith(".")
unfoldable pub is_passed_over : String → Bool
unfolding truthy_text starts_with
is_passed_over name = not (truthy_text name) || starts_with name "."

unfoldable pub categories : (base tool_name : String) → List StoredItem → List String
unfolding is_passed_over
categories base tool_name [] = []
categories base tool_name (i ∷ is) =
    let rest = categories base tool_name is in
    elim i.id [
      | some _ ↦ rest
      | none ↦ if is_passed_over i.name then rest else (base ^^ i.name ^^ "/" ^^ tool_name) ∷ rest
    ]

-- The category folders that the listing discovers; a failed listing discovers none.
unfoldable pub discovered : Supabase → (base tool_name : String) → List String
unfolding categories
discovered s base tool_name = elim (s.listing base) [
  | thrown _ ↦ []
  | ok reply ↦ if reply.0 == 200 then categories base tool_name reply.1 else []
]

-- The loop over the candidates; `ordered` has the members of the set `seen`.
unfoldable pub dedupe : List String → (ordered : List String) → List String
unfolding add
dedupe [] ordered = ordered
dedupe (p ∷ ps) ordered = dedupe ps (add p ordered)

unfoldable pub prefixes_to_try :
    Supabase → (username project tool_name : String) → Option String → List String
unfolding given discovered dedupe
prefixes_to_try s username project tool_name category =
    let base = username ^^ "/" ^^ project ^^ "/tools/" in
    if given category
    then (base ^^ text_of category ^^ "/" ^^ tool_name) ∷ []
    else dedupe ((base ^^ tool_name) ∷ discovered s base tool_name) []

-- The loop over the items of a folder, with what the recursive call gives for a folder below it.
unfoldable pub list_items :
    (String → List String) → (prefix : String) → List StoredItem → List String
unfolding is_passed_over
list_items below prefix [] = []
list_items below prefix (i ∷ is) =
    let rest = list_items below prefix is in
    let child = prefix ^^ "/" ^^ i.name in
    if is_passed_over i.name
    then rest
    else (elim i.id [ none ↦ below child ++ rest | some _ ↦ child ∷ rest ])

unfoldable pub list_reply :
    (String → List String) → (prefix : String) → Result (ℕ × List StoredItem) → List String
unfolding list_items
list_reply below prefix (thrown e) = []
list_reply below prefix (ok (status, is)) = if status == 200 then list_items below prefix is else []

unfoldable pub list_recursive : Supabase → ℕ → (prefix : String) → List String
unfolding list_reply
list_recursive s zero prefix = []
list_recursive s (suc fuel) prefix = list_reply (list_recursive s fuel) prefix (s.listing prefix)

-- The files under the first prefix that has any.
unfoldable pub first_found : (String → List String) → List String → List String
first_found below [] = []
first_found below (p ∷ ps) = elim (below p) [ [] ↦ first_found below ps | x ∷ xs ↦ x ∷ xs ]

abbrev last_part : List String → String
last_part [] = ""
last_part (p ∷ []) = p
last_part (p ∷ q ∷ ps) = last_part (q ∷ ps)

unfoldable pub is_source : String → Bool
unfolding split ends_with
is_source path =
    let filename = last_part (split path b'/') in
    ends_with filename ".py" || ends_with filename ".txt" || ends_with filename ".json"

-- The local files, and files_synced.
abbrev pub Pulled : Type 0
Pulled = Dict String String × ℕ

unfoldable pub write :
    (path : String) (placed : Result (Unit {0})) (content : String)
    → Pulled
    → Result (Unit {0}) × Pulled
unfolding insert
write path (thrown e) content (files, n) = (thrown e, (files, n))
write path (ok _) content (files, n) = (ok tt, (insert path content files, n + 1))

unfoldable pub pull_reply :
    Supabase → (path : String) (reply : Result (ℕ × String)) → Pulled → Result (Unit {0}) × Pulled
unfolding write
pull_reply s path (thrown e) st = (ok tt, st)
pull_reply s path (ok (status, content)) st =
    if status == 200 then write path (s.place path) content st else (ok tt, st)

unfoldable pub pull_one : Supabase → (path : String) → Pulled → Result (Unit {0}) × Pulled
unfolding is_source pull_reply
pull_one s path st = if is_source path then pull_reply s path (s.object path) st else (ok tt, st)

abbrev pub then_pull :
    (Pulled → Result (Unit {0}) × Pulled) → Result (Unit {0}) × Pulled → Result (Unit {0}) × Pulled
then_pull next (ok _, st) = next st
then_pull next (thrown e, st) = (thrown e, st)

unfoldable pub pull_files : Supabase → (paths : List String) → Pulled → Result (Unit {0}) × Pulled
unfolding pull_one
pull_files s [] st = (ok tt, st)
pull_files s (path ∷ paths) st = then_pull (pull_files s paths) (pull_one s path st)

unfoldable pub after_pull : Supabase → Local → Result (Unit {0}) × Pulled → Report × Local
unfolding finish
after_pull s l (thrown e, (files, n)) = (failed e.message, record l { files = files })
after_pull s l (ok _, (files, n)) =
    finish s.cloud (ltb 0 n) (done n 0 0) (record l { files = files })

unfoldable pub file_paths :
    Supabase → (username project tool_name : String) → Option String → List String
unfolding first_found list_recursive prefixes_to_try
file_paths s username project tool_name category =
    first_found (list_recursive s s.recursion_limit)
      (prefixes_to_try s username project tool_name category)

unfoldable pub sync_tool_from_supabase :
    Supabase → (username project tool_name : String) → Option String → Local → Report × Local
unfolding truthy_text file_paths pull_files after_pull
sync_tool_from_supabase s username project tool_name category l =
    if not (truthy_text s.url) || not (truthy_text s.service_key)
    then (
      failed
          "Supabase credentials not configured on MCP server (set SUPABASE_URL and SUPABASE_SERVICE_ROLE_KEY)",
      l,
    )
    else after_pull s l
        (pull_files s (file_paths s username project tool_name category) (l.files, 0))
