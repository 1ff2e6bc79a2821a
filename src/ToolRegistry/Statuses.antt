-- ===== src/ToolRegistry/Statuses.antt =====
-- What a listing does to the statuses of the rows.
use grafux_mcp.Base.{
  Bool, Bool-cases, List, Option, String, [], ap, arith, contains, eq_iff, eq_of_==, false,
  if◌then◌else◌, inl, inr, insert, lookup, lookup-insert, none, not, refl, some, sym, true, ◌&&◌,
  ◌==◌, ◌||◌, ◌∙◌, ◌∷◌, ◌≡◌, nat_eq, string_eq, pair_eq,
}
use grafux_mcp.Exceptions.{}
use grafux_mcp.ToolRegistry.{
  Listed, Row, RowKey, Rows, ToolStatus, available, has_duplicates, listed_status, lost,
  mark_missing, names, run_upsert, status_of, unavailable, upsert_each, upsert_tools, upserted,
}

status_of-insert :
    (k j : RowKey) (row : Row) (rows : Rows)
    → status_of j (insert k row rows) ≡ (if k == j then some row.status else status_of j rows)
unfolding status_of
status_of-insert k j row rows = ground (arith, lookup-insert k j row rows)

status_of-cons :
    (k j : RowKey) (row : Row) (rows : Rows)
    → status_of k ((j, row) ∷ rows) ≡ (if j == k then some row.status else status_of k rows)
unfolding status_of lookup
status_of-cons k j row rows = by_key (j == k)
  where
    by_key :
        (b : Bool)
        → elim (if b then some row else lookup k rows) as (λ x. Option ToolStatus) [
          | none ↦ none
          | some r ↦ some r.status
        ]
          ≡ (if b then some row.status else status_of k rows)
    by_key true = refl
    by_key false = refl

combine_mark :
    (e mj mk : Bool) (s : ToolStatus) (rest o : Option ToolStatus)
    → (e ≡ true → mj ≡ mk)
    → rest ≡ (if mk then lost o else o)
    → (if e then some (if mj then unavailable else s) else rest)
      ≡ (if mk then lost (if e then some s else o) else (if e then some s else o))
combine_mark true true true s rest o h g = refl
combine_mark true false false s rest o h g = refl
combine_mark true true false s rest o h g = cc (h refl)
combine_mark true false true s rest o h g = cc (h refl)
combine_mark false mj mk s rest o h g = g

combine_upsert :
    (e k c n : Bool) (o : Option ToolStatus)
    → e ≡ (k && n)
    → (if k && c then some available else (if e then some available else o))
      ≡ (if k && (n || c) then some available else o)
combine_upsert e k c n o h = ground arith

combine_listed :
    (a a' b b' c : Bool) (x : Option ToolStatus)
    → a ≡ a'
    → b ≡ b'
    → (if (a && b) && c then some available else (if a' && not c then lost x else x))
      ≡ (if a' then if c then if b' then some available else x else lost x else x)
combine_listed a a' b b' c x h g = ground arith

module _ (server org : String) where
  abbrev is_missing : List String → RowKey → Bool
  is_missing incoming k = k.0.0 == server && not (contains incoming k.1)

  marked_cons :
      (incoming : List String) (j : RowKey) (row : Row) (rows : Rows) (k : RowKey)
      → status_of k (mark_missing server incoming ((j, row) ∷ rows)) ≡ (
          if j == k
          then some (if is_missing incoming j then unavailable else row.status)
          else status_of k (mark_missing server incoming rows))
  unfolding mark_missing
  marked_cons incoming j row rows k = elim (Bool-cases (is_missing incoming j)) [
    | inl q ↦ rw q (
        status_of-cons k j (record row { status = unavailable })
          (mark_missing server incoming rows))
    | inr q ↦ rw q (status_of-cons k j row (mark_missing server incoming rows))
  ]

  status_of-mark_missing :
      (incoming : List String) (rows : Rows) (k : RowKey)
      → status_of k (mark_missing server incoming rows)
        ≡ (if is_missing incoming k then lost (status_of k rows) else status_of k rows)
  unfolding mark_missing status_of lookup
  status_of-mark_missing incoming [] k = ground arith
  status_of-mark_missing incoming ((j, row) ∷ rows) k =
      marked_cons incoming j row rows k
      ∙ combine_mark (j == k) (is_missing incoming j) (is_missing incoming k) row.status
          (status_of k (mark_missing server incoming rows)) (status_of k rows)
          (λ q. ap (is_missing incoming) (eq_of_== j k q)) (status_of-mark_missing incoming rows k)
      ∙ ap (λ o. if is_missing incoming k then lost o else o) (sym (status_of-cons k j row rows))

  status_of-upsert_each :
      (tools : List Listed) (rows : Rows) (k : RowKey)
      → status_of k (upsert_each server org tools rows) ≡ (
          if (server, org) == k.0 && contains (names tools) k.1
          then some available
          else status_of k rows)
  unfolding upsert_each contains
  status_of-upsert_each [] rows k = ground arith
  status_of-upsert_each (t ∷ ts) rows k =
      let j : RowKey = ((server, org), t.name) in
      let row = upserted t (lookup j rows) in
      status_of-upsert_each ts (insert j row rows) k
      ∙ ap (λ o. if (server, org) == k.0 && contains (names ts) k.1 then some available else o)
          (status_of-insert j k row rows
            ∙ ap (λ o. if j == k then o else status_of k rows) (is_available (lookup j rows)))
      ∙ combine_upsert (j == k) ((server, org) == k.0) (contains (names ts) k.1) (t.name == k.1)
          (status_of k rows) refl
    where
      is_available : (o : Option Row) → some (upserted t o).status ≡ some available
      is_available none = refl
      is_available (some r) = refl

-- A listing in which no name stands twice makes every listed tool of the server and organisation
-- available, makes every other tool of the server that it does not name unavailable, and leaves the
-- tools of other servers; an empty listing changes nothing, so vanished tools stay available; and
-- one with a name twice is refused and changes nothing.
pub upsert_tools_lem :
    (server org : String) (t : Listed) (ts : List Listed) (rows : Rows) (k : RowKey)
    → (has_duplicates (names (t ∷ ts)) ≡ false
        → status_of k (upsert_tools server org (t ∷ ts) rows).1
          ≡ listed_status server org (names (t ∷ ts)) k (status_of k rows))
      × ((upsert_tools server org [] rows).1 ≡ rows)
      × (has_duplicates (names (t ∷ ts)) ≡ true → (upsert_tools server org (t ∷ ts) rows).1 ≡ rows)
unfolding upsert_tools
upsert_tools_lem server org t ts rows ((s, o), n) =
    (distinct, refl, λ q. ap (λ b. (run_upsert b server org (t ∷ ts) rows).1) q)
  where
    k : RowKey
    k = ((s, o), n)

    incoming : List String
    incoming = names (t ∷ ts)

    swap : (a b : String) → (a == b) ≡ (b == a)
    swap a b = ground (arith, eq_iff a b, eq_iff b a)

    distinct :
        has_duplicates incoming ≡ false
        → status_of k (run_upsert (has_duplicates incoming) server org (t ∷ ts) rows).1
          ≡ listed_status server org incoming k (status_of k rows)
    distinct q =
        ap (λ b. status_of k (run_upsert b server org (t ∷ ts) rows).1) q
        ∙ status_of-upsert_each server org (t ∷ ts) (mark_missing server incoming rows) k
        ∙ ap (λ x. if (server, org) == k.0 && contains incoming n then some available else x)
            (status_of-mark_missing server org incoming rows k)
        ∙ combine_listed (server == s) (s == server) (org == o) (o == org) (contains incoming n)
            (status_of k rows) (swap server s) (swap org o)
