-- ===== src/Servers/Clients.antt =====
-- core/lifecycle/server_manager.py: the clients that connect and disconnect leave.
use grafux_mcp.Base.{
  ap, false, has, has-lookup, inl, inr, insert, lookup, lookup-insert_self, none, refl, some, true,
  ◌∙◌, ◌≡◌, ◌≢◌, nat_eq, string_eq, pair_eq,
}
use grafux_mcp.Exceptions.{Exc, Result, Result-cases, ok, thrown}
use grafux_mcp.Json.{Json, given}
use grafux_mcp.Router.{ServerType, composio, device, e2b, local_plugin, remote_http, remote_sse}
use grafux_mcp.Client.{Wrapper}
use grafux_mcp.Servers.{
  Env, ConnectReply, Server, Fleet, already_connected, cache_write, connect, connect_by_type,
  connect_client_of, connect_remote, connected, connecting, get_client, or_record, raise_recorded,
  record_connected, record_error, register_client, replying, server_capabilities, set_status,
  then_record, ttl_capabilities,
}
use grafux_mcp.Servers.Manager.{cache_write_keeps, record_connected-Recorded, record_error-Sets}

module _ (env : Env) (s : Server) where
  pub raise_recorded_clients :
      (e : Exc) (w : Fleet)
      → env.failing ≡ ok tt
      → (raise_recorded env s e w).1.active_connections ≡ w.active_connections
  unfolding raise_recorded
  raise_recorded_clients e w fine =
      let h = (record_error-Sets env s e.message w fine).1 in
      elim (Result-cases (record_error env s e.message w).0) [
        | inl (u, q) ↦ rw (q, raise_recorded) h
        | inr (x, q) ↦ rw (q, raise_recorded) h
      ]

  or_record_clients :
      (r : Result ConnectReply × Fleet)
      → env.failing ≡ ok tt
      → (or_record env s r).1.active_connections ≡ r.1.active_connections
  or_record_clients (ok reply, w) fine = refl
  or_record_clients (thrown e, w) fine = raise_recorded_clients e w fine

  replying_clients :
      (reply : ConnectReply) (r : Result (Unit {0}) × Fleet)
      → (replying reply r).1.active_connections ≡ r.1.active_connections
  replying_clients reply (ok u, w) = refl
  replying_clients reply (thrown e, w) = refl

  then_record_clients :
      (caps : Json) (r : Result (Unit {0}) × Fleet)
      → (then_record env s caps r).1.active_connections ≡ r.1.active_connections
  then_record_clients caps (thrown e, w) = refl
  then_record_clients caps (ok u, w) =
      replying_clients (connected caps) (record_connected env s w)
      ∙ (record_connected-Recorded env s w).1

  register_client_clients :
      (caps : Json) (client : Wrapper) (w : Fleet)
      → (register_client env s (ok caps, client) w).1.active_connections
        ≡ insert s.id client w.active_connections
  unfolding register_client
  register_client_clients caps client w =
      let v : Fleet = record w { active_connections = insert s.id client w.active_connections } in
      then_record_clients caps (
        cache_write env env.caching_capabilities (server_capabilities s.id) caps ttl_capabilities v)
      ∙ (cache_write_keeps env env.caching_capabilities (server_capabilities s.id) caps
          ttl_capabilities v).1

  pub connect_remote_clients :
      (caps : Json) (client : Wrapper) (w : Fleet)
      → env.failing ≡ ok tt
      → given s.endpoint_url ≡ true
      → connect_client_of env s ≡ (ok caps, client)
      → (connect_remote env s w).1.active_connections ≡ insert s.id client w.active_connections
  unfolding connect_remote
  connect_remote_clients caps client w fine url opened =
      rw (url, opened)
        (or_record_clients (register_client env s (ok caps, client) w) fine
          ∙ register_client_clients caps client w)

  connect_by_type_clients :
      (t : ServerType) (caps : Json) (client : Wrapper) (w : Fleet)
      → env.failing ≡ ok tt
      → t ≢ local_plugin
      → given s.endpoint_url ≡ true
      → connect_client_of env s ≡ (ok caps, client)
      → (connect_by_type env s t w).1.active_connections ≡ insert s.id client w.active_connections
  unfolding connect_by_type
  connect_by_type_clients local_plugin caps client w fine remote = elim (remote refl) [ ]
  connect_by_type_clients remote_sse caps client w fine remote =
      connect_remote_clients caps client w fine
  connect_by_type_clients remote_http caps client w fine remote =
      connect_remote_clients caps client w fine
  connect_by_type_clients composio caps client w fine remote =
      connect_remote_clients caps client w fine
  connect_by_type_clients e2b caps client w fine remote = connect_remote_clients caps client w fine
  connect_by_type_clients device caps client w fine remote =
      connect_remote_clients caps client w fine

  pub connect_opens :
      (caps : Json) (client : Wrapper) (w : Fleet)
      → has s.id w.active_connections ≡ false
      → env.marking ≡ ok tt
      → env.failing ≡ ok tt
      → s.server_type ≢ local_plugin
      → given s.endpoint_url ≡ true
      → connect_client_of env s ≡ (ok caps, client)
      → (connect env s w).1.active_connections ≡ insert s.id client w.active_connections
  unfolding connect
  connect_opens caps client w new marked fine remote url opened =
      rw (new, marked)
        (connect_by_type_clients s.server_type caps client (set_status s.id connecting w) fine
          remote url opened)

pub connect_again :
    (env : Env) (s : Server) (w : Fleet)
    → has s.id w.active_connections ≡ true
    → connect env s w ≡ (ok already_connected, w)
unfolding connect
connect_again env s w h = rw h refl

-- Once the client of a server has connected it stays registered, also where connect then raises and
-- records an error, since the connection or the cache could not be written. Every later connect
-- answers that the server is connected already, and changes nothing.
pub connect-stays :
    (env later : Env) (s : Server) (w : Fleet) (caps : Json) (client : Wrapper)
    → has s.id w.active_connections ≡ false
    → env.marking ≡ ok tt
    → env.failing ≡ ok tt
    → s.server_type ≢ local_plugin
    → given s.endpoint_url ≡ true
    → connect_client_of env s ≡ (ok caps, client)
    → (get_client (connect env s w).1 s.id ≡ some client)
      × (connect later s (connect env s w).1 ≡ (ok already_connected, (connect env s w).1))
unfolding get_client
connect-stays env later s w caps client new marked fine remote url opened =
    let clients = connect_opens env s caps client w new marked fine remote url opened in
    let kept = lookup-insert_self s.id client w.active_connections in
    (
      ap (lookup s.id) clients ∙ kept,
      connect_again later s (connect env s w).1 (
          has-lookup s.id (connect env s w).1.active_connections
          ∙ ap (λ d. elim (lookup s.id d) [ none ↦ false | some c ↦ true ]) clients
          ∙ ap (λ o. elim o [ none ↦ false | some c ↦ true ]) kept),
    )
