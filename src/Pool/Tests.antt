-- ===== src/Pool/Tests.antt =====
-- Tests of the connection pool, and its theorems at concrete pools.
use grafux_mcp.Base.{
  Bool, HasDistinctKeys, [], erase, false, filter, has, insert, length, lookup, refl, some, tally,
  true, ℕ, ◌+◌, ◌<◌, ◌∷◌, ◌≡◌, ◌≤◌, ◌⊎◌, nat_eq, string_eq, pair_eq,
}
use grafux_mcp.Json.{Json, str}
use grafux_mcp.Exceptions.{broken_pipe, exc, is_instance_of_any, ok, thrown}
use grafux_mcp.Pool.{
  Entry, Env, Key, Pool, aclose_all, drop, empty_pool, evict_idle, evict_to_capacity, get_entry,
  live, unlocked,
}
use grafux_mcp.Pool.Calls.{
  Trip, acquire, call_tool, close_foreign, connect_entry, enter, mark_broken, or_reconnect,
  reconnect, release, round_trip,
}
use grafux_mcp.Pool.Sessions.{AllLoopsOpen}
use grafux_mcp.Pool.Lifetime.{Reached-sessions, called, start}
use grafux_mcp.Pool.Eviction.{IsVictim, evict_to_capacity_lem}
use grafux_mcp.Pool.Reuse.{call_answer, call_tool_lem, is_usable, trip_answer}

abbrev env : Env
env = record { max_size = 2; is_closed = λ l. false; loop = 0; now = 5 }

abbrev all_open : AllLoopsOpen env
all_open l = refl

abbrev a : Key
a = ("https://a", "http")

abbrev b : Key
b = ("https://b", "sse")

abbrev c : Key
c = ("https://c", "http")

abbrev good : Trip Json
good = record { connecting = ok tt; answer = ok (str "42") }

abbrev gone : Trip Json
gone = record { connecting = ok tt; answer = thrown (exc broken_pipe "gone") }

abbrev entry_at : ℕ → Bool → Entry
entry_at used held = record { loop = some 0; connected = true; last_used = used; locked = held }

-- Two live sessions; a call holds the older one.
abbrev full : Pool
full = record { entries = (a, entry_at 1 true) ∷ (b, entry_at 2 false) ∷ []; opened = 2; shut = 0 }

abbrev all_held : Pool
all_held = record full { entries = (a, entry_at 1 true) ∷ (b, entry_at 2 true) ∷ [] }

-- The call of a new endpoint closes the free session, and its own broken one is opened again.
reconnected : call_tool env c gone good full ≡ (
  ok (str "42"),
  record {
    entries =
        (a, entry_at 1 true)
        ∷ (c, record { loop = some 0; connected = true; last_used = 5; locked = false })
        ∷ [];
    opened = 4;
    shut = 2;
  },
)
unfolding call_tool or_reconnect round_trip acquire enter close_foreign get_entry lookup
    connect_entry reconnect is_instance_of_any mark_broken release insert evict_to_capacity filter
    erase
reconnected = refl

swept_free : (evict_idle 9 3 full).entries ≡ (a, entry_at 1 true) ∷ []
unfolding evict_idle erase
swept_free = refl

full-HasDistinctKeys : HasDistinctKeys full.entries
unfolding has
full-HasDistinctKeys = (refl, (refl, tt))

all_held-HasDistinctKeys : HasDistinctKeys all_held.entries
unfolding has
all_held-HasDistinctKeys = (refl, (refl, tt))

Reached-sessions_example :
    let p = (call_tool env a gone good empty_pool).1 in
    (p.opened ≡ p.shut + tally live p.entries)
    × ((aclose_all p).opened ≡ (aclose_all p).shut)
    × ((aclose_all p).entries ≡ [])
Reached-sessions_example =
    Reached-sessions (call_tool env a gone good empty_pool).1
      (called env a gone good all_open start)

evict_to_capacity_lem_example :
    (length full.entries < env.max_size → evict_to_capacity env full ≡ full)
    × (env.max_size ≤ length full.entries
        → ((unlocked full.entries ≡ []) × (evict_to_capacity env full ≡ full))
          ⊎ ((k : Key) × (e : Entry) × IsVictim full.entries k e
              × (evict_to_capacity env full ≡ drop k e full)))
evict_to_capacity_lem_example = evict_to_capacity_lem env full full-HasDistinctKeys

call_tool_lem_example :
    (call_tool env b gone good full).0
    ≡ call_answer (trip_answer (is_usable env (lookup b full.entries)) gone) good
call_tool_lem_example = call_tool_lem env b all_open gone good full
