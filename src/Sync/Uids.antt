-- ===== src/Sync/Uids.antt =====
-- core/runtime/cloud_syncer.py: the answers of lookup_user_id are remembered.
use grafux_mcp.Base.{
  Option-cases, String, inl, inr, lookup, lookup-insert_self, refl, some, ◌≡◌, nat_eq, string_eq,
  pair_eq,
}
use grafux_mcp.Sync.{Cloud, Local}
use grafux_mcp.Sync.Single.{lookup_user_id}

remembered :
    (c : Cloud) (username project uid : String) (l : Local)
    → lookup (username, project) l.uids ≡ some uid
    → lookup_user_id c username project l ≡ (uid, l)
unfolding lookup_user_id
remembered c username project uid l q = rw (q, lookup_user_id) refl

remembers :
    (c : Cloud) (username project : String) (l : Local)
    → lookup (username, project) (lookup_user_id c username project l).1.uids
      ≡ some (lookup_user_id c username project l).0
unfolding lookup_user_id
remembers c username project l = elim (Option-cases (lookup (username, project) l.uids)) [
  | inr (uid, q) ↦ rw (q, lookup_user_id) q
  | inl q ↦ rw (q, lookup_user_id) (lookup-insert_self (username, project) _ l.uids)
]

-- The answer of lookup_user_id is given again for the same user and project, whatever the cloud
-- answers by then: also the default that stood in for a lookup that failed.
pub lookup_user_id-again :
    (c later : Cloud) (username project : String) (l : Local)
    → lookup_user_id later username project (lookup_user_id c username project l).1
      ≡ lookup_user_id c username project l
lookup_user_id-again c later username project l =
    remembered later username project (lookup_user_id c username project l).0
      (lookup_user_id c username project l).1 (remembers c username project l)
