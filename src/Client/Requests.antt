-- ===== src/Client/Requests.antt =====
-- core/protocol/mcp_client.py: how often a call is sent, and when connecting fails.
use grafux_mcp.Base.{
  Bool, ap, false, if_elim, if◌then◌else◌, refl, true, ◌^^◌, ◌≡◌, nat_eq, string_eq, pair_eq,
}
use grafux_mcp.Exceptions.{Exc, Result, connection, exc, import_error, is_instance, ok, thrown}
use grafux_mcp.Json.{Json}
use grafux_mcp.Client.{Remote, Wrapper, connect, connect_failed, http_probe}

if_true {ℓ} : {A : Type ℓ} {b : Bool} (x y : A) → b ≡ true → (if b then x else y) ≡ x
if_true x y h = rw h

if_false {ℓ} : {A : Type ℓ} {b : Bool} (x y : A) → b ≡ false → (if b then x else y) ≡ y
if_false x y h = rw h

-- Without the SDK connecting never fails, also where the server cannot be reached, and no session is
-- opened; with it, an exception becomes a connection error, and no session is opened either.
pub connect_fails :
    (r : Remote) (e : Exc) (w : Wrapper)
    → r.initialize w.transport ≡ thrown e
    → ((connect r w).1 ≡ w)
      × (is_instance e import_error ≡ true → (connect r w).0 ≡ ok (http_probe r))
      × (is_instance e import_error ≡ false
          → (connect r w).0
            ≡ thrown (
                exc connection
                  ("Failed to connect to MCP server " ^^ r.endpoint_url ^^ ": " ^^ e.message)))
unfolding connect connect_failed
connect_fails r e w failed =
    rw (failed, connect)
      (
        if_elim (λ (x : Result Json × Wrapper). x.1 ≡ w) (is_instance e import_error) _ _
            (λ q. refl) (λ q. refl),
        λ q. ap (λ (x : Result Json × Wrapper). x.0) (if_true _ _ q),
        λ q. ap (λ (x : Result Json × Wrapper). x.0) (if_false _ _ q),
      )
