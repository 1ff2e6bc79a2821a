-- ===== src/Pool/Reuse.antt =====
-- What a call answers, against the round trips it makes, and what a sweep of idle entries leaves.
use grafux_mcp.Base.{
  Bool, Option, Option-cases, ap, arith, false, if◌then◌else◌, inl, inr, lookup, lookup-insert_self,
  none, refl, some, true, ◌&&◌, ◌∙◌, ◌≡◌, nat_eq, string_eq, pair_eq,
}
use grafux_mcp.Exceptions.{Result, is_instance_of_any, ok, thrown, ◌>>=◌, ◌>>=◌}
use grafux_mcp.Pool.{
  Entry, Env, Key, Pool, entry_or_new, fresh, get_entry, hard_close, prune_closed_loops,
}
use grafux_mcp.Pool.Calls.{
  Trip, acquire, answered, call_tool, close_foreign, connect_entry, enter, is_here, mark_broken,
  or_reconnect, reconnect, reconnectable, round_trip,
}
use grafux_mcp.Pool.Balance.{}
use grafux_mcp.Pool.Sessions.{AllLoopsOpen, prune_nothing}

-- There is a live session of the running loop under the key.
abbrev pub is_usable : Env → Option Entry → Bool
is_usable env none = false
is_usable env (some e) = e.connected && is_here env e

-- The answer of one round trip: a handshake first, unless there is a session to reuse.
abbrev pub trip_answer {ℓ} : {A : Type ℓ} → Bool → Trip A → Result A
trip_answer true t = t.answer
trip_answer false t = t.connecting >>= (λ u. t.answer)

-- The answer of a call: that of the first round trip, or, where it failed in a way that a new session
-- may mend, that of a second one with a handshake.
abbrev pub call_answer {ℓ} : {A : Type ℓ} → Result A → Trip A → Result A
call_answer (ok v) second = ok v
call_answer (thrown x) second =
    if is_instance_of_any x reconnectable then trip_answer false second else thrown x

close_foreign_connected :
    (env : Env) (e : Entry) (p : Pool)
    → (close_foreign env e p).0.connected ≡ (e.connected && is_here env e)
unfolding close_foreign hard_close
close_foreign_connected env e p = ground arith

enter_result :
    (env : Env) (k : Key) (c : Result (Unit {0})) (e : Entry) (p : Pool)
    → (enter env k c (e, p)).0 ≡ (if e.connected then ok tt else c)
unfolding enter connect_entry
enter_result env k (ok u) e p = ground arith
enter_result env k (thrown x) e p = ground arith

entered :
    (env : Env) (k : Key) (c : Result (Unit {0})) (p : Pool) (o : Option Entry)
    → let r = entry_or_new env k o p in
      (enter env k c (close_foreign env r.0 r.1)).0 ≡ (if is_usable env o then ok tt else c)
entered env k c p o = enter_result env k c _ _ ∙ ap (λ b. if b then ok tt else c) (usable o)
  where
    usable :
        (o : Option Entry)
        → let r = entry_or_new env k o p in
          (close_foreign env r.0 r.1).0.connected ≡ is_usable env o
    usable none = close_foreign_connected env (fresh env.now) (entry_or_new env k none p).1
    usable (some e) = close_foreign_connected env e p

acquire_result :
    (env : Env) (k : Key) (c : Result (Unit {0})) (p : Pool)
    → AllLoopsOpen env
    → (acquire env k c p).0 ≡ (if is_usable env (lookup k p.entries) then ok tt else c)
unfolding acquire get_entry prune_closed_loops
acquire_result env k c p h =
    ap
      (λ d.
        let q = record p { entries = d } in
        let r = entry_or_new env k (lookup k d) q in (enter env k c (close_foreign env r.0 r.1)).0)
      (prune_nothing env p.entries p.entries h)
    ∙ entered env k c p (lookup k p.entries)

mark_broken-usable :
    (env : Env) (k : Key) (p : Pool) → is_usable env (lookup k (mark_broken k p).entries) ≡ false
unfolding mark_broken hard_close
mark_broken-usable env k p = elim (Option-cases (lookup k p.entries)) [
  | inl q ↦ rw (q, mark_broken) (ap (is_usable env) q)
  | inr (e, q) ↦
      rw (q, mark_broken)
        (ap (is_usable env) (lookup-insert_self k (record e { connected = false }) p.entries))
]

module _ {ℓ} {A : Type ℓ} (env : Env) (k : Key) (h : AllLoopsOpen env) where
  answered_result :
      (a : Result A) (r : Result (Unit {0}) × Pool) → (answered k a r).0 ≡ (r.0 >>= (λ u. a))
  answered_result a (ok u, p) = refl
  answered_result a (thrown x, p) = refl

  round_trip_result :
      (t : Trip A) (p : Pool)
      → (round_trip env k t p).0 ≡ trip_answer (is_usable env (lookup k p.entries)) t
  unfolding round_trip
  round_trip_result t p =
      answered_result t.answer (acquire env k t.connecting p)
      ∙ ap (λ r. r >>= (λ u. t.answer)) (acquire_result env k t.connecting p h)
      ∙ by_use (is_usable env (lookup k p.entries))
    where
      by_use :
          (b : Bool) → ((if b then ok tt else t.connecting) >>= (λ u. t.answer)) ≡ trip_answer b t
      by_use true = refl
      by_use false = refl

  or_reconnect_result :
      (second : Trip A) (r : Result A × Pool)
      → (or_reconnect env k second r).0 ≡ call_answer r.0 second
  unfolding or_reconnect reconnect
  or_reconnect_result second (ok v, p) = refl
  or_reconnect_result second (thrown x, p) = go (is_instance_of_any x reconnectable)
    where
      go :
          (b : Bool)
          → (reconnect b env k second x p).0 ≡ (if b then trip_answer false second else thrown x)
      go true =
          round_trip_result second (mark_broken k p)
          ∙ ap (λ u. trip_answer u second) (mark_broken-usable env k p)
      go false = refl

  -- A call reuses the live session of its endpoint, or makes a handshake where there is none. It is
  -- tried once more, always with a new handshake, exactly where the first round trip failed with a
  -- connection, OS or runtime error; any other failure is the call's. (No loop has been closed.)
  pub call_tool_lem :
      (first second : Trip A) (p : Pool)
      → (call_tool env k first second p).0
        ≡ call_answer (trip_answer (is_usable env (lookup k p.entries)) first) second
  unfolding call_tool
  call_tool_lem first second p =
      or_reconnect_result second (round_trip env k first p)
      ∙ ap (λ r. call_answer r second) (round_trip_result first p)
