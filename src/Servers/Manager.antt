-- ===== src/Servers/Manager.antt =====
-- core/lifecycle/server_manager.py: the status that connect leaves.
use grafux_mcp.Base.{
  Bool-cases, Option, String, [], ap, false, if◌then◌else◌, inl, inr, insert, lookup, lookup-insert,
  none, refl, some, ℕ, ◌++◌, ◌==◌, ◌∙◌, ◌∷◌, ◌≡◌, nat_eq, string_eq, pair_eq,
}
use grafux_mcp.Exceptions.{Exc, Result, Result-cases, ok, thrown}
use grafux_mcp.Json.{Json, given}
use grafux_mcp.Client.{Wrapper}
use grafux_mcp.Servers.{
  Env, ConnectReply, Server, ServerStatus, Fleet, active, cache_write, connect_client_of,
  connect_remote, connected, error, health_payload, new_connection, no_endpoint, or_record,
  raise_recorded, record_connected, record_error, register_client, replying, server_capabilities,
  server_health, set_status, then_record, then_write, ttl_capabilities, ttl_health, write_health,
}

-- The statuses of the other servers are as they were.
abbrev pub Spares : String → Fleet → Fleet → Type 0
Spares id w w' =
    (other : String) → (id == other) ≡ false → lookup other w'.statuses ≡ lookup other w.statuses

-- The server has this status, and the other servers have theirs.
abbrev pub Sets : String → ServerStatus → Fleet → Fleet → Type 0
Sets id status w w' =
    (other : String)
    → lookup other w'.statuses ≡ (if id == other then some status else lookup other w.statuses)

pub Sets-Spares :
    (id : String) (status : ServerStatus) (w w' : Fleet) → Sets id status w w' → Spares id w w'
Sets-Spares id status w w' h other differs = h other ∙ rw differs

pub Spares-Sets :
    (id : String) (status : ServerStatus) (w v w' : Fleet)
    → Spares id w v
    → Sets id status v w'
    → Sets id status w w'
Spares-Sets id status w v w' spare h other = elim (Bool-cases (id == other)) [
  | inl q ↦ h other ∙ rw q
  | inr q ↦ h other ∙ rw q (spare other q)
]

pub set_status-Sets :
    (id : String) (status : ServerStatus) (w : Fleet) → Sets id status w (set_status id status w)
set_status-Sets id status w other = lookup-insert id other status w.statuses

-- The cache does not change the statuses and the clients.
module _ (env : Env) where
  pub cache_write_keeps :
      (outcome : Result (Unit {0})) (key : String) (v : Json) (ttl : ℕ) (w : Fleet)
      → ((cache_write env outcome key v ttl w).1.statuses ≡ w.statuses)
        × ((cache_write env outcome key v ttl w).1.active_connections ≡ w.active_connections)
  unfolding cache_write
  cache_write_keeps (thrown e) key v ttl w = (refl, refl)
  cache_write_keeps (ok u) key v ttl w = (refl, refl)

  pub write_health_keeps :
      (org_id id status : String) (e : Option String) (w : Fleet)
      → ((write_health env org_id id status e w).1.statuses ≡ w.statuses)
        × ((write_health env org_id id status e w).1.active_connections ≡ w.active_connections)
  unfolding write_health
  write_health_keeps org_id id status e w =
      cache_write_keeps env.caching_health (server_health org_id id)
        (health_payload env id status e) ttl_health w

  module _ (s : Server) where
    pub record_error-Sets :
        (message : String) (w : Fleet)
        → env.failing ≡ ok tt
        → Sets s.id error w (record_error env s message w).1
          × ((record_error env s message w).1.active_connections ≡ w.active_connections)
    unfolding record_error
    record_error-Sets message w fine =
        let v = set_status s.id error w in
        let kept = write_health_keeps s.org_id s.id "error" (some message) v in
        rw (fine, then_write)
          (λ other. ap (lookup other) kept.0 ∙ set_status-Sets s.id error w other, kept.1)

    -- A connection that is recorded makes the status active; one that is not leaves it.
    abbrev pub Recorded : Fleet → Result (Unit {0}) × Fleet → Type 0
    Recorded w r = elim r.0 [ ok _ ↦ Sets s.id active w r.1 | thrown _ ↦ Spares s.id w r.1 ]

    Sets-Recorded :
        (w : Fleet) (r : Result (Unit {0}) × Fleet) → Sets s.id active w r.1 → Recorded w r
    Sets-Recorded w (ok u, w') h = h
    Sets-Recorded w (thrown e, w') h = Sets-Spares s.id active w w' h

    pub record_connected-Recorded :
        (w : Fleet)
        → Recorded w (record_connected env s w)
          × ((record_connected env s w).1.active_connections ≡ w.active_connections)
    unfolding record_connected
    record_connected-Recorded w = elim (Result-cases env.recording) [
      | inr (e, q) ↦ rw (q, then_write) (λ other d. refl, refl)
      | inl (u, q) ↦
          let v : Fleet = record (set_status s.id active w) {
            connections = w.connections ++ new_connection env s ∷ [];
          } in
          let kept = write_health_keeps s.org_id s.id "connected" none v in
          rw (q, then_write)
            (
              Sets-Recorded w (write_health env s.org_id s.id "connected" none v)
                  (λ other. ap (lookup other) kept.0 ∙ set_status-Sets s.id active w other),
              kept.1,
            )
    ]

-- The status that a call of connect leaves.
abbrev pub status_after : Result ConnectReply → ServerStatus
status_after (ok reply) = active
status_after (thrown e) = error

module _ (env : Env) (s : Server) where
  -- What holds of the end of the try block.
  abbrev Tried : Fleet → Result ConnectReply × Fleet → Type 0
  Tried w r = elim r.0 [ ok _ ↦ Sets s.id active w r.1 | thrown _ ↦ Spares s.id w r.1 ]

  replying-Tried :
      (reply : ConnectReply) (w : Fleet) (r : Result (Unit {0}) × Fleet)
      → Recorded env s w r
      → Tried w (replying reply r)
  replying-Tried reply w (ok u, w') h = h
  replying-Tried reply w (thrown e, w') h = h

  rebase :
      (w v : Fleet) (r : Result ConnectReply × Fleet)
      → v.statuses ≡ w.statuses
      → Tried v r
      → Tried w r
  rebase w v (ok reply, w') same h =
      λ other. h other ∙ ap (λ d. if s.id == other then some active else lookup other d) same
  rebase w v (thrown e, w') same h = λ other d. h other d ∙ ap (lookup other) same

  then_record-Tried :
      (caps : Json) (w : Fleet) (r : Result (Unit {0}) × Fleet)
      → r.1.statuses ≡ w.statuses
      → Tried w (then_record env s caps r)
  then_record-Tried caps w (thrown e, w') same = λ other d. ap (lookup other) same
  then_record-Tried caps w (ok u, w') same =
      rebase w w' (replying (connected caps) (record_connected env s w')) same (
        replying-Tried (connected caps) w' (record_connected env s w')
          (record_connected-Recorded env s w').0)

  pub raise_recorded-Sets :
      (e : Exc) (w : Fleet)
      → env.failing ≡ ok tt
      → Sets s.id (status_after (raise_recorded env s e w).0) w (raise_recorded env s e w).1
  unfolding raise_recorded
  raise_recorded-Sets e w fine =
      let h = (record_error-Sets env s e.message w fine).0 in
      elim (Result-cases (record_error env s e.message w).0) [
        | inl (u, q) ↦ rw (q, raise_recorded) h
        | inr (x, q) ↦ rw (q, raise_recorded) h
      ]

  register_client-Tried :
      (c : Result Json × Wrapper) (w : Fleet) → Tried w (register_client env s c w)
  unfolding register_client
  register_client-Tried (thrown e, client) w = λ other d. refl
  register_client-Tried (ok caps, client) w =
      let v : Fleet = record w { active_connections = insert s.id client w.active_connections } in
      then_record-Tried caps w
        (cache_write env env.caching_capabilities (server_capabilities s.id) caps ttl_capabilities
          v)
        (cache_write_keeps env env.caching_capabilities (server_capabilities s.id) caps
          ttl_capabilities v).0

  abbrev pub Ends : Fleet → Result ConnectReply × Fleet → Type 0
  Ends w r = Sets s.id (status_after r.0) w r.1

  or_record-Ends :
      (w : Fleet) (r : Result ConnectReply × Fleet)
      → env.failing ≡ ok tt
      → Tried w r
      → Ends w (or_record env s r)
  or_record-Ends w (ok reply, w') fine h = h
  or_record-Ends w (thrown e, w') fine h =
      Spares-Sets s.id (status_after (raise_recorded env s e w').0) w w'
        (raise_recorded env s e w').1 h (raise_recorded-Sets e w' fine)

  no_endpoint-Ends : (w : Fleet) → env.failing ≡ ok tt → Ends w (no_endpoint env s w)
  unfolding no_endpoint
  no_endpoint-Ends w fine =
      let h = (record_error-Sets env s "No endpoint URL configured" w fine).0 in
      elim (Result-cases (record_error env s "No endpoint URL configured" w).0) [
        | inl (u, q) ↦ rw (q, no_endpoint) h
        | inr (x, q) ↦ rw (q, no_endpoint) h
      ]

  pub connect_remote-Ends : (w : Fleet) → env.failing ≡ ok tt → Ends w (connect_remote env s w)
  unfolding connect_remote
  connect_remote-Ends w fine = elim (Bool-cases (given s.endpoint_url)) [
    | inl q ↦ rw q (
        or_record-Ends w (register_client env s (connect_client_of env s) w) fine
          (register_client-Tried (connect_client_of env s) w))
    | inr q ↦ rw q (no_endpoint-Ends w fine)
  ]
