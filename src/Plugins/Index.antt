-- ===== src/Plugins/Index.antt =====
-- TOOLS and NAME_INDEX agree: what registering keeps, whatever is registered.
use grafux_mcp.Base.{
  Bool-cases, Dict, List, String, [], arith, contains, contains-concat, eq_iff, false,
  if◌then◌else◌, inl, inr, insert, lookup, lookup-insert, refl, some, true, ◌++◌, ◌==◌, ◌||◌, ◌∷◌,
  ◌≡◌, nat_eq, string_eq, pair_eq,
}
use grafux_mcp.Plugins.{Registry, ToolInfo, append_new, index_of, key_of, register_tool}

-- No text stands twice in the list.
abbrev pub IsDistinct : List String → Type 0
IsDistinct [] = Unit
IsDistinct (k ∷ ks) = (contains ks k ≡ false) × IsDistinct ks

-- The secondary index against the registry: an entry stands under its own key, is listed under its
-- display name, and what is listed is registered, once.
pub record IsCoherent (reg : Registry) : Type 0 where
  pub keyed : (k : String) (i : ToolInfo) → lookup k reg.tools ≡ some i → key_of i ≡ k
  pub complete :
      (k : String) (i : ToolInfo)
      → lookup k reg.tools ≡ some i
      → contains (index_of reg.name_index i.name) k ≡ true
  pub sound :
      (n k : String)
      → contains (index_of reg.name_index n) k ≡ true
      → (i : ToolInfo) × (lookup k reg.tools ≡ some i)
  pub distinct : (n : String) → IsDistinct (index_of reg.name_index n)

pub index_of-insert :
    (m n : String) (ks : List String) (index : Dict String (List String))
    → index_of (insert m ks index) n ≡ (if m == n then ks else index_of index n)
unfolding index_of
index_of-insert m n ks index = ground (arith, lookup-insert m n ks index)

pub contains-append_new :
    (k j : String) (ks : List String) → contains (append_new k ks) j ≡ (contains ks j || (k == j))
unfolding append_new
contains-append_new k j ks = elim (Bool-cases (contains ks k)) [
  | inl old ↦ rw old (ground (arith, eq_iff k j))
  | inr new ↦ rw new (contains-concat ks k j)
]

IsDistinct-concat :
    (ks : List String) (k : String)
    → IsDistinct ks
    → contains ks k ≡ false
    → IsDistinct (ks ++ k ∷ [])
unfolding contains
IsDistinct-concat [] k d h = (refl, tt)
IsDistinct-concat (j ∷ ks) k d h = (
  ground (arith, contains-concat ks k j, eq_iff j k, eq_iff k j),
  IsDistinct-concat ks k d.1 (ground arith),
)

IsDistinct-append_new :
    (k : String) (ks : List String) → IsDistinct ks → IsDistinct (append_new k ks)
unfolding append_new
IsDistinct-append_new k ks d = elim (Bool-cases (contains ks k)) [
  | inl old ↦ rw old d
  | inr new ↦ rw new (IsDistinct-concat ks k d new)
]

module _ (info : ToolInfo) (reg : Registry) (c : IsCoherent reg) where
  register-keyed :
      (k : String) (i : ToolInfo) → lookup k (register_tool info reg).tools ≡ some i → key_of i ≡ k
  unfolding register_tool
  register-keyed k i h =
      ground
        (arith, lookup-insert (key_of info) k info reg.tools, eq_iff (key_of info) k, c.keyed k i)

  register_complete :
      (k : String) (i : ToolInfo)
      → lookup k (register_tool info reg).tools ≡ some i
      → contains (index_of (register_tool info reg).name_index i.name) k ≡ true
  unfolding register_tool
  register_complete k i h = ground (
    arith,
    lookup-insert (key_of info) k info reg.tools,
    eq_iff (key_of info) k,
    eq_iff info.name i.name,
    index_of-insert info.name i.name (append_new (key_of info) (index_of reg.name_index info.name))
        reg.name_index,
    contains-append_new (key_of info) k (index_of reg.name_index info.name),
    c.complete k i,
  )

  listed_before :
      (n k : String)
      → contains (index_of (register_tool info reg).name_index n) k ≡ true
      → (key_of info == k) ≡ false
      → contains (index_of reg.name_index n) k ≡ true
  unfolding register_tool
  listed_before n k h e = ground (
    arith,
    eq_iff info.name n,
    index_of-insert info.name n (append_new (key_of info) (index_of reg.name_index info.name))
        reg.name_index,
    contains-append_new (key_of info) k (index_of reg.name_index info.name),
  )

  register_sound :
      (n k : String)
      → contains (index_of (register_tool info reg).name_index n) k ≡ true
      → (i : ToolInfo) × (lookup k (register_tool info reg).tools ≡ some i)
  unfolding register_tool
  register_sound n k h = elim (Bool-cases (key_of info == k)) [
    | inl e ↦ (info, rw (lookup-insert (key_of info) k info reg.tools, e))
    | inr e ↦
        (let (i, l) = c.sound n k (listed_before n k h e) in
          (i, rw (lookup-insert (key_of info) k info reg.tools, e) l))
  ]

  register-IsDistinct : (n : String) → IsDistinct (index_of (register_tool info reg).name_index n)
  unfolding register_tool
  register-IsDistinct n =
      rw
        (index_of-insert info.name n (append_new (key_of info) (index_of reg.name_index info.name))
          reg.name_index)
        (elim (Bool-cases (info.name == n)) [
          | inl e ↦ rw e (IsDistinct-append_new _ _ (c.distinct info.name))
          | inr e ↦ rw e (c.distinct n)
        ])

-- Registering a tool keeps TOOLS and NAME_INDEX in agreement.
pub register_tool-IsCoherent :
    (info : ToolInfo) (reg : Registry) → IsCoherent reg → IsCoherent (register_tool info reg)
register_tool-IsCoherent info reg c = record {
  keyed = register-keyed info reg c;
  complete = register_complete info reg c;
  sound = register_sound info reg c;
  distinct = register-IsDistinct info reg c;
}
