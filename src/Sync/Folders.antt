-- ===== src/Sync/Folders.antt =====
-- core/runtime/cloud_syncer.py: which files sync_tool_from_supabase finds.
use grafux_mcp.Base.{
  Bool-cases, List, Option, String, [], add, ap, append-nil, append_assoc, contains, eq_of_==,
  false, if◌then◌else◌, inl, inr, ltb, none, refl, some, suc, sym, true, ℕ, ◌++◌, ◌==◌, ◌^^◌, ◌∙◌,
  ◌∷◌, ◌≡◌, nat_eq, string_eq, pair_eq,
}
use grafux_mcp.Exceptions.{ok}
use grafux_mcp.Json.{given}
use grafux_mcp.Sync.Supabase.{
  StoredItem, Supabase, dedupe, discovered, file_paths, first_found, is_passed_over, list_recursive,
  prefixes_to_try,
}

-- A folder of the bucket: its entries in the order of the listing.
pub data Folder : Type 0 where
  empty : Folder
  file : String → Folder → Folder
  folder : (name : String) → (inner rest : Folder) → Folder

abbrev items_of : Folder → List StoredItem
items_of empty = []
items_of (file name rest) = record { name = name; id = some "id" } ∷ items_of rest
items_of (folder name inner rest) = record { name = name; id = none } ∷ items_of rest

abbrev child : (prefix name : String) → String
child prefix name = prefix ^^ "/" ^^ name

-- The storage service answers for the visible folders below a prefix.
abbrev ServesBelow : Supabase → (prefix : String) → Folder → Type 0
ServesBelow s prefix empty = Unit
ServesBelow s prefix (file name rest) = ServesBelow s prefix rest
ServesBelow s prefix (folder name inner rest) =
    (is_passed_over name ≡ false
      → (s.listing (child prefix name) ≡ ok (200, items_of inner))
        × ServesBelow s (child prefix name) inner)
    × ServesBelow s prefix rest

-- The storage service answers for the folder at a prefix.
abbrev pub Serves : Supabase → (prefix : String) → Folder → Type 0
Serves s prefix b = (s.listing prefix ≡ ok (200, items_of b)) × ServesBelow s prefix b

abbrev larger : ℕ → ℕ → ℕ
larger a b = if ltb a b then b else a

-- How many folders lie within each other, the folder itself counted.
abbrev pub depth : Folder → ℕ
depth empty = 1
depth (file name rest) = depth rest
depth (folder name inner rest) = larger (suc (depth inner)) (depth rest)

-- The visible files at and below a prefix, in the order of the listings.
abbrev pub paths : (prefix : String) → Folder → List String
paths prefix empty = []
paths prefix (file name rest) =
    if is_passed_over name then paths prefix rest else child prefix name ∷ paths prefix rest
paths prefix (folder name inner rest) =
    if is_passed_over name
    then paths prefix rest
    else paths (child prefix name) inner ++ paths prefix rest

module _ (below : String → List String) where
  first_found_cons :
      (p : String) (xs ys : List String)
      → first_found below xs ≡ first_found below ys
      → first_found below (p ∷ xs) ≡ first_found below (p ∷ ys)
  unfolding first_found
  first_found_cons p xs ys h =
      ap (λ r. elim (below p) as (λ z. List String) [ [] ↦ r | x ∷ rest ↦ x ∷ rest ]) h

  first_found_skip :
      (p : String) (tried ps : List String)
      → below p ≡ []
      → first_found below (tried ++ p ∷ ps) ≡ first_found below (tried ++ ps)
  unfolding first_found
  first_found_skip p [] ps h = rw (h, first_found) refl
  first_found_skip p (t ∷ tried) ps h =
      first_found_cons t (tried ++ p ∷ ps) (tried ++ ps) (first_found_skip p tried ps h)

  -- Where the first prefix finds something, the others do not matter.
  first_found_first :
      (p : String) (xs ys found : List String)
      → below p ≡ found
      → (found ≡ [] → first_found below xs ≡ first_found below ys)
      → first_found below (p ∷ xs) ≡ first_found below (p ∷ ys)
  unfolding first_found
  first_found_first p xs ys [] h k = first_found_cons p xs ys (k refl)
  first_found_first p xs ys (f ∷ found) h k = rw (h, first_found) refl

  -- A prefix that has been tried finds nothing new.
  first_found_again :
      (p : String) (tried ps : List String)
      → contains tried p ≡ true
      → first_found below (tried ++ p ∷ ps) ≡ first_found below (tried ++ ps)
  unfolding contains
  first_found_again p [] ps h = cc
  first_found_again p (t ∷ tried) ps h = elim (Bool-cases (t == p)) [
    | inl q ↦
        first_found_first t (tried ++ p ∷ ps) (tried ++ ps) (below t) refl
          (λ none_found. first_found_skip p tried ps (ap below (sym (eq_of_== t p q)) ∙ none_found))
    | inr q ↦
        first_found_cons t (tried ++ p ∷ ps) (tried ++ ps)
          (first_found_again p tried ps (rw q at h))
  ]

  first_found-dedupe :
      (ps ordered : List String)
      → first_found below (dedupe ps ordered) ≡ first_found below (ordered ++ ps)
  unfolding dedupe add
  first_found-dedupe [] ordered = ap (first_found below) (sym (append-nil ordered))
  first_found-dedupe (p ∷ ps) ordered = elim (Bool-cases (contains ordered p)) [
    | inl q ↦ rw q (first_found-dedupe ps ordered ∙ sym (first_found_again p ordered ps q))
    | inr q ↦ rw q (
        first_found-dedupe ps (ordered ++ p ∷ [])
        ∙ ap (first_found below) (append_assoc ordered (p ∷ []) ps))
  ]

-- Taking the repeated prefixes out does not change which files are found.
pub file_paths_lem :
    (s : Supabase) (username project tool_name : String) (category : Option String)
    → given category ≡ false
    → file_paths s username project tool_name category
      ≡ first_found (list_recursive s s.recursion_limit) (
          (username ^^ "/" ^^ project ^^ "/tools/" ^^ tool_name)
          ∷ discovered s (username ^^ "/" ^^ project ^^ "/tools/") tool_name)
unfolding file_paths prefixes_to_try
file_paths_lem s username project tool_name category none_given = rw none_given (
    first_found-dedupe (list_recursive s s.recursion_limit)
      ((username ^^ "/" ^^ project ^^ "/tools/" ^^ tool_name)
        ∷ discovered s (username ^^ "/" ^^ project ^^ "/tools/") tool_name)
      [])
