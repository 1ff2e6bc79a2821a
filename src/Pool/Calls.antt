-- ===== src/Pool/Calls.antt =====
-- core/protocol/connection_pool.py: acquire, call_tool and list_tools with their one reconnection.
-- A call is described from where the lock of its entry is granted to it.
use grafux_mcp.Base.{
  Bool, List, [], false, if◌then◌else◌, insert, lookup, none, not, some, true, ◌&&◌, ◌+◌, ◌==◌, ◌∷◌,
  nat_eq, string_eq, pair_eq,
}
use grafux_mcp.Exceptions.{
  Exc, Kind, Result, broken_pipe, connection, is_instance_of_any, ok, os_error, runtime, thrown,
}
use grafux_mcp.Pool.{Entry, Env, Key, Pool, get_entry, hard_close}

-- What the wrapper gives back in one round trip: for `connect`, and for the call.
pub record Trip {ℓ} (A : Type ℓ) : Type ℓ where
  pub connecting : Result (Unit {0})
  pub answer : Result A

abbrev pub put : Key → Entry → Pool → Pool
put k e p = record p { entries = insert k e p.entries }

-- entry.loop is loop
unfoldable pub is_here : Env → Entry → Bool
is_here env e = elim e.loop [ none ↦ false | some l ↦ l == env.loop ]

-- A session of another loop is closed before the entry is used.
unfoldable pub close_foreign : Env → Entry → Pool → Entry × Pool
unfolding hard_close
close_foreign env e p = if e.connected && not (is_here env e) then hard_close e p else (e, p)

-- The entry in use: locked, with its time of use.
abbrev pub in_use : Env → Entry → Entry
in_use env e = record e { last_used = env.now; locked = true }

abbrev pub connected_here : Env → Entry → Entry
connected_here env e = record e { connected = true; loop = some env.loop }

unfoldable pub connect_entry :
    Env → Key → Result (Unit {0}) → Entry → Pool → Result (Unit {0}) × Pool
connect_entry env k (thrown x) e p = (thrown x, put k (record e { locked = false }) p)
connect_entry env k (ok u) e p =
    (ok tt, put k (in_use env (connected_here env e)) (record p { opened = p.opened + 1 }))

unfoldable pub enter : Env → Key → Result (Unit {0}) → Entry × Pool → Result (Unit {0}) × Pool
enter env k connecting (e, p) =
    if e.connected then (ok tt, put k (in_use env e) p) else connect_entry env k connecting e p

unfoldable pub acquire : Env → Key → Result (Unit {0}) → Pool → Result (Unit {0}) × Pool
acquire env k connecting p =
    let (e, q) = get_entry env k p in enter env k connecting (close_foreign env e q)

-- The lock is released at the end of the block, however it ends.
unfoldable pub release : Key → Pool → Pool
release k p = elim (lookup k p.entries) [
  | none ↦ p
  | some e ↦ put k (record e { locked = false }) p
]

unfoldable pub mark_broken : Key → Pool → Pool
unfolding hard_close
mark_broken k p = elim (lookup k p.entries) [
  | none ↦ p
  | some e ↦ let (e', q) = hard_close e p in put k e' q
]

abbrev pub answered {ℓ} : {A : Type ℓ} → Key → Result A → Result (Unit {0}) × Pool → Result A × Pool
answered k answer (thrown x, p) = (thrown x, p)
answered k answer (ok u, p) = (answer, release k p)

-- async with self.acquire(...) as wrapper: return await wrapper.call_tool(...)
unfoldable pub round_trip {ℓ} : {A : Type ℓ} → Env → Key → Trip A → Pool → Result A × Pool
round_trip env k t p = answered k t.answer (acquire env k t.connecting p)

abbrev pub reconnectable : List Kind
reconnectable = connection ∷ broken_pipe ∷ os_error ∷ runtime ∷ []

unfoldable pub reconnect {ℓ} :
    {A : Type ℓ} → Bool → Env → Key → Trip A → Exc → Pool → Result A × Pool
reconnect true env k t x p = round_trip env k t (mark_broken k p)
reconnect false env k t x p = (thrown x, p)

unfoldable pub or_reconnect {ℓ} :
    {A : Type ℓ} → Env → Key → Trip A → Result A × Pool → Result A × Pool
or_reconnect env k t (ok v, p) = (ok v, p)
or_reconnect env k t (thrown x, p) = reconnect (is_instance_of_any x reconnectable) env k t x p

-- call_tool and list_tools: `first` is the round trip tried, `second` the one after reconnecting.
unfoldable pub call_tool {ℓ} : {A : Type ℓ} → Env → Key → Trip A → Trip A → Pool → Result A × Pool
call_tool env k first second p = or_reconnect env k second (round_trip env k first p)
