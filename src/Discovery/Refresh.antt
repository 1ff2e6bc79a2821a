-- ===== src/Discovery/Refresh.antt =====
-- services/discovery_service.py: what discovery leaves in the cache.
use grafux_mcp.Base.{
  filter, All-filter, All, Bool, List, Option, String, [], ap, erase, false, if_elim, if◌then◌else◌,
  lookup, none, refl, some, sym, true, ℕ, ◌+◌, ◌==◌, ◌∙◌, ◌∷◌, ◌≡◌, nat_eq, string_eq, pair_eq,
}
use grafux_mcp.Exceptions.{Exc, Result, exception, is_instance, ok, thrown, ◌>>=◌}
use grafux_mcp.Cache.{Redis, cache_delete, delete, get}
use grafux_mcp.Cache.Expiry.{get-cache_set, seen-erased, seen-get}
use grafux_mcp.Client.{Wrapper}
use grafux_mcp.Servers.{Server, server_capabilities, ttl_capabilities}
use grafux_mcp.ToolRegistry.{Listed, has_duplicates, names, run_upsert, upsert_tools}
use grafux_mcp.Discovery.{org_tools}
use grafux_mcp.Discovery.Service.{
  chosen, then_invalidate, discover, list_named, RawTool, ServerRow, Source, Store, all_listed,
  count_server, discover_each, discover_server, is_local, store_capabilities, store_listing, stored,
  upsert,
}

-- It returns, or raises an exception that a handler of exceptions catches.
abbrev pub Fails {ℓ} : {A : Type ℓ} → Result A → Type 0
Fails (ok a) = Unit
Fails (thrown e) = is_instance e exception ≡ true

thrown_not_ok {ℓ} : {A : Type ℓ} → {e : Exc} → {a : A} → thrown e ≡ ok a → ⊥
thrown_not_ok h = cc

get-cache_delete :
    (later : ℕ) (key j : String) (r : Redis)
    → (get later j (cache_delete key r)).0 ≡ (if key == j then none else (get later j r).0)
unfolding cache_delete delete
get-cache_delete later key j r =
    seen-get later j (record r { store = erase key r.store })
    ∙ seen-erased later key j r.store
    ∙ ap (λ o. if key == j then none else o) (sym (seen-get later j r))

all_listed-Fails : (ts : List RawTool) → Fails (all_listed ts)
unfolding all_listed is_instance
all_listed-Fails [] = tt
all_listed-Fails (t ∷ ts) = go t.name (all_listed ts) (all_listed-Fails ts)
  where
    go : (n : Option String) (r : Result (List Listed)) → Fails r → Fails (list_named t n r)
    go none r h = refl
    go (some name) (ok ts) h = tt
    go (some name) (thrown e) h = h

upsert-Fails :
    (server org : String) (ts : List Listed) (w : Store) → Fails (upsert server org ts w).0
unfolding upsert upsert_tools is_instance
upsert-Fails server org [] w = tt
upsert-Fails server org (t ∷ ts) w =
    if_elim (λ (o : Result ℕ × Store). Fails o.0) w.aborted _ _ (λ q. refl)
      (λ q. ran (has_duplicates (names (t ∷ ts))))
  where
    ran : (twice : Bool) → Fails (run_upsert twice server org (t ∷ ts) w.rows).0
    ran true = refl
    ran false = tt

upsert_redis :
    (server org : String) (ts : List Listed) (w : Store)
    → (upsert server org ts w).1.redis ≡ w.redis
unfolding upsert
upsert_redis server org [] w = refl
upsert_redis server org (t ∷ ts) w =
    if_elim (λ (o : Result ℕ × Store). o.1.redis ≡ w.redis) w.aborted _ _ (λ q. refl) (λ q. refl)

module _ (v : Source) (later : ℕ) (j : String)
    (listings : (id : String) → Fails (v.list_tools id)) where
  -- It fails at most with an exception, and the key answers as before.
  abbrev Leaves : Store → Result ℕ × Store → Type 0
  Leaves w o = Fails o.0 × ((get later j o.1.redis).0 ≡ (get later j w.redis).0)

  get-store_capabilities :
      (id : String) (ns : List String) (w : Store)
      → (server_capabilities id == j) ≡ false
      → (get later j (store_capabilities v id ns w).redis).0 ≡ (get later j w.redis).0
  unfolding store_capabilities
  get-store_capabilities id ns w other =
      get-cache_set v.now later (server_capabilities id) j _ (some ttl_capabilities) w.redis
      ∙ rw other refl

  stored-Leaves :
      (id : String) (ts : List Listed) (w : Store) (o : Result ℕ × Store)
      → (server_capabilities id == j) ≡ false
      → Leaves w o
      → Leaves w (stored v id ts o)
  stored-Leaves id ts w (thrown e, w') other h = h
  stored-Leaves id ts w (ok n, w') other h =
      (tt, get-store_capabilities id (names ts) w' other ∙ h.1)

  store_listing-Leaves :
      (s : Server) (r : Result (List Listed)) (w : Store)
      → (server_capabilities s.id == j) ≡ false
      → Fails r
      → Leaves w (store_listing v s r w)
  store_listing-Leaves s (thrown e) w other h = (h, refl)
  store_listing-Leaves s (ok ts) w other h =
      stored-Leaves s.id ts w (upsert s.id s.org_id ts w) other (
        upsert-Fails s.id s.org_id ts w,
        ap (λ r. (get later j r).0) (upsert_redis s.id s.org_id ts w),
      )

  listing-Fails : (r : Result (List RawTool)) → Fails r → Fails (r >>= all_listed)
  listing-Fails (ok ts) h = all_listed-Fails ts
  listing-Fails (thrown e) h = h

  discover_server-Leaves :
      (s : Server) (w : Store)
      → (server_capabilities s.id == j) ≡ false
      → Leaves w (discover_server v s w)
  unfolding discover_server
  discover_server-Leaves s w other =
      if_elim (λ (o : Result ℕ × Store). Leaves w o) (is_local s.server_type) _ _
        (λ q. (tt, get-store_capabilities s.id v.local_names w other))
        (λ q. by_client (lookup s.id v.active_connections))
    where
      by_client :
          (o : Option Wrapper)
          → Leaves w (elim o [
            | none ↦ (ok 0, w)
            | some client ↦ store_listing v s (v.list_tools s.id >>= all_listed) w
          ])
      by_client none = (tt, refl)
      by_client (some client) =
          store_listing-Leaves s (v.list_tools s.id >>= all_listed) w other
            (listing-Fails (v.list_tools s.id) (listings s.id))

  -- The sweep returns, and the key answers as before.
  abbrev Returns : Store → Result ℕ × Store → Type 0
  Returns w o = (n : ℕ) × ((o.0 ≡ ok n) × ((get later j o.1.redis).0 ≡ (get later j w.redis).0))

  count_server-Returns :
      (total : ℕ) (w : Store) (o : Result ℕ × Store) → Leaves w o → Returns w (count_server total o)
  count_server-Returns total w (ok n, w') h = (total + n, (refl, h.1))
  count_server-Returns total w (thrown e, w') h = (total, (rw h.0 refl, rw h.0 h.1))

  discover_each-Returns :
      (rows : List ServerRow) (total : ℕ) (w : Store)
      → All (λ row. (server_capabilities row.server.id == j) ≡ false) rows
      → Returns w (discover_each v rows total w)
  unfolding discover_each
  discover_each-Returns [] total w h = (total, (refl, refl))
  discover_each-Returns (row ∷ rows) total w h =
      after (count_server total (discover_server v row.server w))
        (count_server-Returns total w (discover_server v row.server w)
          (discover_server-Leaves row.server w h.0))
        (λ n w'. discover_each-Returns rows n w' h.1)
    where
      after :
          (o : Result ℕ × Store)
          → Returns w o
          → ((n : ℕ) (w' : Store) → Returns w' (discover_each v rows n w'))
          → Returns w (elim o.0 [
            | thrown e ↦ (thrown e, o.1)
            | ok total' ↦ discover_each v rows total' o.1
          ])
      after (ok n, w') g swept = let rest = swept n w' in (rest.0, (rest.1.0, rest.1.1 ∙ g.1.1))
      after (thrown e, w') g swept = elim (thrown_not_ok g.1.0) [ ]

-- Discovery returns whatever the servers' listings are and however their clients fail, as long as
-- nothing is cancelled. Then the cache has no listing of the organisation, and every other key answers
-- as before, except for the capabilities of a server: also the listing of a project.
pub discover-refreshes :
    (v : Source) (later : ℕ) (j org_id : String) (server_id : Option String) (w : Store)
    → ((id : String) → Fails (v.list_tools id))
    → All (λ row. (server_capabilities row.server.id == j) ≡ false) v.servers
    → (n : ℕ) × (((discover v org_id server_id w).0 ≡ ok n)
        × ((get later j (discover v org_id server_id w).1.redis).0
            ≡ (if org_tools org_id == j then none else (get later j w.redis).0)))
unfolding discover
discover-refreshes v later j org_id server_id w listings others =
    let swept =
      discover_each-Returns v later j listings (filter (chosen org_id server_id) v.servers) 0 w
        (All-filter _ (chosen org_id server_id) v.servers others) in
    after (discover_each v (filter (chosen org_id server_id) v.servers) 0 w) swept
  where
    after :
        (o : Result ℕ × Store)
        → Returns v later j listings w o
        → (n : ℕ) × (((then_invalidate org_id o).0 ≡ ok n)
            × ((get later j (then_invalidate org_id o).1.redis).0
                ≡ (if org_tools org_id == j then none else (get later j w.redis).0)))
    after (ok n, w') g = (
      n,
      (
        refl,
        get-cache_delete later (org_tools org_id) j w'.redis
            ∙ ap (λ o. if org_tools org_id == j then none else o) g.1.1,
      ),
    )
    after (thrown e, w') g = elim (thrown_not_ok g.1.0) [ ]
