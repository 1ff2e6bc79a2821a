-- ===== src/Pool.antt =====
-- core/protocol/connection_pool.py: the entries of the pool, capacity, idle eviction, shutdown.
-- The session of an entry is kept as a count: how many were opened, and how many were closed.
pub mod Calls
pub mod Balance
pub mod Idle
pub mod Reuse
pub mod Eviction
pub mod Lifetime
pub mod Sessions
mod Tests
use grafux_mcp.Base.{
  Bool, Dict, List, Option, String, [], erase, false, filter, if◌then◌else◌, insert, length, lookup,
  ltb, none, not, some, values, ℕ, ◌&&◌, ◌+◌, ◌-◌, ◌∷◌, nat_eq, string_eq, pair_eq,
}

-- (endpoint_url, transport)
abbrev pub Key : Type 0
Key = String × String

-- _Entry, with `lock.locked()`, and the running loop as a number.
pub record Entry : Type 0 where
  pub loop : Option ℕ
  pub connected : Bool
  pub last_used : ℕ
  pub locked : Bool

pub record Pool : Type 0 where
  pub entries : Dict Key Entry
  pub opened : ℕ
  pub shut : ℕ

abbrev pub empty_pool : Pool
empty_pool = record { entries = []; opened = 0; shut = 0 }

-- settings.remote_pool_max_size, which loops are closed, the running loop, and time.monotonic()
pub record Env : Type 0 where
  pub max_size : ℕ
  pub is_closed : ℕ → Bool
  pub loop : ℕ
  pub now : ℕ

abbrev pub fresh : ℕ → Entry
fresh now = record { loop = none; connected = false; last_used = now; locked = false }

-- 1 for an entry that holds a live session
abbrev pub live : Entry → ℕ
live e = if e.connected then 1 else 0

-- The session of an entry is closed, whether `disconnect` raises or not.
unfoldable pub hard_close : Entry → Pool → Entry × Pool
hard_close e p = (record e { connected = false }, record p { shut = p.shut + live e })

-- _hard_close(entry), then _entries.pop(key, None)
unfoldable pub drop : Key → Entry → Pool → Pool
unfolding hard_close
drop k e p = let q = (hard_close e p).1 in record q { entries = erase k q.entries }

abbrev pub on_closed_loop : Env → Entry → Bool
on_closed_loop env e = elim e.loop [ none ↦ false | some l ↦ env.is_closed l ]

-- The entries of closed loops are popped as they are: their sessions died with the loop.
unfoldable pub prune_each : Env → Dict Key Entry → Dict Key Entry → Dict Key Entry
prune_each env [] d = d
prune_each env ((k, e) ∷ rest) d =
    prune_each env rest (if on_closed_loop env e then erase k d else d)

unfoldable pub prune_closed_loops : Env → Pool → Pool
unfolding prune_each
prune_closed_loops env p = record p { entries = prune_each env p.entries p.entries }

-- min(candidates, key=last_used): the first of the least
unfoldable pub older : Key × Entry → Key × Entry → Key × Entry
older a b = if ltb b.1.last_used a.1.last_used then b else a

unfoldable pub least_recent : Key × Entry → List (Key × Entry) → Key × Entry
unfolding older
least_recent a [] = a
least_recent a (b ∷ bs) = least_recent (older a b) bs

abbrev pub unlocked : Dict Key Entry → List (Key × Entry)
unlocked d = filter (λ kv. not kv.1.locked) d

unfoldable pub evict_one : List (Key × Entry) → Pool → Pool
unfolding drop least_recent
evict_one [] p = p
evict_one (a ∷ rest) p = let victim = least_recent a rest in drop victim.0 victim.1 p

unfoldable pub evict_to_capacity : Env → Pool → Pool
unfolding evict_one
evict_to_capacity env p =
    if ltb (length p.entries) env.max_size then p else evict_one (unlocked p.entries) p

-- A missing entry is made, once there is room or nothing more can be evicted.
abbrev pub entry_or_new : Env → Key → Option Entry → Pool → Entry × Pool
entry_or_new env k (some e) p = (e, p)
entry_or_new env k none p =
    let q = evict_to_capacity env p in
    (fresh env.now, record q { entries = insert k (fresh env.now) q.entries })

unfoldable pub get_entry : Env → Key → Pool → Entry × Pool
unfolding prune_closed_loops
get_entry env k p = let q = prune_closed_loops env p in entry_or_new env k (lookup k q.entries) q

abbrev pub is_stale : ℕ → ℕ → Entry → Bool
is_stale now max_idle e = ltb max_idle (now - e.last_used) && not e.locked

unfoldable pub drop_each : List (Key × Entry) → Pool → Pool
unfolding drop
drop_each [] p = p
drop_each ((k, e) ∷ rest) p = drop_each rest (drop k e p)

unfoldable pub evict_idle : ℕ → ℕ → Pool → Pool
unfolding drop_each filter
evict_idle now max_idle p = drop_each (filter (λ kv. is_stale now max_idle kv.1) p.entries) p

unfoldable pub close_each : List Entry → Pool → Pool
unfolding hard_close
close_each [] p = p
close_each (e ∷ es) p = close_each es (hard_close e p).1

unfoldable pub aclose_all : Pool → Pool
unfolding close_each
aclose_all p = record (close_each (values p.entries) p) { entries = [] }
