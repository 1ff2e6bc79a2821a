-- ===== src/Cache/Mode.antt =====
-- cache/redis_client.py: the choice between the Redis server and the in-process stand-in.
use grafux_mcp.Base.{
  Bool, List, Option, String, [], false, true, none, some, if◌then◌else◌, refl, if_elim, ap, ◌∙◌,
  subst, sym, ◌≡◌, ◌∷◌, ◌+◌, ◌^^◌, ℕ,
}
use grafux_mcp.Exceptions.{Exc, Result, exception, is_instance, ok, thrown}
use grafux_mcp.Cache.{Redis, empty_redis}

-- _redis_pool, by a number, _fallback and _use_fallback; how many pools have been made, and those
-- that have been told to close.
pub record Pools : Type 0 where
  pub redis_pool : Option ℕ
  pub fallback : Option Redis
  pub use_fallback : Bool
  pub made : ℕ
  pub closed : List ℕ

-- What get_redis_pool gives.
pub data Backend : Type 0 where
  server : ℕ → Backend
  in_process : Redis → Backend

-- How aioredis.from_url, ping and aclose of the server end.
pub record Answers : Type 0 where
  pub from_url : Result (Unit {0})
  pub ping : Result (Unit {0})
  pub aclose : Result (Unit {0})

abbrev pub at_import : Pools
at_import = record {
  redis_pool = none;
  fallback = none;
  use_fallback = false;
  made = 0;
  closed = [];
}

abbrev pub stand_in : Option Redis → Redis
stand_in none = empty_redis
stand_in (some r) = r

abbrev pub server_pool : Result (Unit {0}) → Option ℕ → Pools → Result Backend × Pools
server_pool from_url (some n) m = (ok (server n), m)
server_pool (thrown e) none m = (thrown e, m)
server_pool (ok _) none m =
    (ok (server m.made), record m { redis_pool = some m.made; made = m.made + 1 })

unfoldable pub get_redis_pool : Answers → Pools → Result Backend × Pools
get_redis_pool a m =
    if m.use_fallback
    then (ok (in_process (stand_in m.fallback)), record m { fallback = some (stand_in m.fallback) })
    else server_pool a.from_url m.redis_pool m

-- An exception of aclose is logged; a cancellation leaves the pool where it is.
abbrev pub close_server : Result (Unit {0}) → Option ℕ → Pools → Result (Unit {0}) × Pools
close_server r none m = (ok tt, m)
close_server (ok _) (some n) m = (ok tt, record m { redis_pool = none; closed = n ∷ m.closed })
close_server (thrown e) (some n) m =
    if is_instance e exception
    then (ok tt, record m { redis_pool = none; closed = n ∷ m.closed })
    else (thrown e, record m { closed = n ∷ m.closed })

unfoldable pub close_redis_pool : Answers → Pools → Result (Unit {0}) × Pools
unfolding is_instance
close_redis_pool a m = close_server a.aclose m.redis_pool m

-- The stand-in answers every ping.
abbrev pub ping_of : Answers → Backend → Result (Unit {0})
ping_of a (server n) = a.ping
ping_of a (in_process r) = ok tt

-- The handler of init_redis: from then on the stand-in is used.
abbrev pub then_unavailable : Exc → Result (Unit {0}) × Pools → Result String × Pools
then_unavailable e (ok _, m) =
    (ok ("unavailable (" ^^ e.message ^^ ") — using in-process fallback (single-instance only)"), m)
then_unavailable e (thrown e', m) = (thrown e', m)

unfoldable pub turn_to_stand_in : Answers → Exc → Pools → Result String × Pools
unfolding is_instance close_redis_pool
turn_to_stand_in a e m =
    if is_instance e exception
    then then_unavailable e (close_redis_pool a (record m { use_fallback = true }))
    else (thrown e, m)

abbrev pub after_ping : Answers → (url : String) → Result (Unit {0}) → Pools → Result String × Pools
after_ping a url (ok _) m = (ok ("connected (" ^^ url ^^ ")"), m)
after_ping a url (thrown e) m = turn_to_stand_in a e m

-- redis.ping(), if there is a pool
unfoldable pub reach : Answers → Result Backend → Result (Unit {0})
reach a (ok b) = ping_of a b
reach a (thrown e) = thrown e

unfoldable pub init_redis : Answers → (url : String) → Pools → Result String × Pools
unfolding get_redis_pool reach turn_to_stand_in
init_redis a url m = let o = get_redis_pool a m in after_ping a url (reach a o.0) o.1

-- What the program does with the pool.
pub data Use : Type 0 where
  starts : Answers → String → Use
  asks closes : Answers → Use

unfoldable pub use_pool : Use → Pools → Pools
unfolding init_redis get_redis_pool close_redis_pool
use_pool (starts a url) m = (init_redis a url m).1
use_pool (asks a) m = (get_redis_pool a m).1
use_pool (closes a) m = (close_redis_pool a m).1

unfoldable pub use_all : List Use → Pools → Pools
unfolding use_pool
use_all [] m = m
use_all (u ∷ us) m = use_all us (use_pool u m)

-- The stand-in is in use, with this store.
abbrev pub FallsBack : Redis → Pools → Type 0
FallsBack r m = (m.use_fallback ≡ true) × (stand_in m.fallback ≡ r)

-- Asking for the pool and closing it keep the stand-in.
close-FallsBack :
    (r : Redis) (a : Answers) (m : Pools) → FallsBack r m → FallsBack r (close_redis_pool a m).1
unfolding close_redis_pool
close-FallsBack r a m h = go m.redis_pool a.aclose
  where
    go :
        (pool : Option ℕ) (closing : Result (Unit {0}))
        → FallsBack r (close_server closing pool m).1
    go none closing = h
    go (some n) (ok _) = h
    go (some n) (thrown e) =
        if_elim (λ (o : Result (Unit {0}) × Pools). FallsBack r o.1) (is_instance e exception) _ _
          (λ q. h) (λ q. h)

asked :
    (a : Answers) (m : Pools)
    → m.use_fallback ≡ true
    → get_redis_pool a m
      ≡ (ok (in_process (stand_in m.fallback)), record m { fallback = some (stand_in m.fallback) })
unfolding get_redis_pool
asked a m h =
    ap {B = Result Backend × Pools}
      (λ b.
        if b
        then (
          ok (in_process (stand_in m.fallback)),
          record m { fallback = some (stand_in m.fallback) },
        )
        else server_pool a.from_url m.redis_pool m)
      h

use_pool-FallsBack : (r : Redis) (u : Use) (m : Pools) → FallsBack r m → FallsBack r (use_pool u m)
unfolding use_pool init_redis reach
use_pool-FallsBack r (starts a url) m h =
    subst (λ (o : Result Backend × Pools). FallsBack r (after_ping a url (reach a o.0) o.1).1)
      (sym (asked a m h.0)) h
use_pool-FallsBack r (asks a) m h =
    subst (λ (o : Result Backend × Pools). FallsBack r o.1) (sym (asked a m h.0)) h
use_pool-FallsBack r (closes a) m h = close-FallsBack r a m h

use_all-FallsBack :
    (r : Redis) (us : List Use) (m : Pools) → FallsBack r m → FallsBack r (use_all us m)
unfolding use_all
use_all-FallsBack r [] m h = h
use_all-FallsBack r (u ∷ us) m h =
    use_all-FallsBack r us (use_pool u m) (use_pool-FallsBack r u m h)

-- Asking for the pool keeps the store of the stand-in.
store-get_redis_pool :
    (a : Answers) (m : Pools) → stand_in (get_redis_pool a m).1.fallback ≡ stand_in m.fallback
unfolding get_redis_pool
store-get_redis_pool a m =
    if_elim (λ (o : Result Backend × Pools). stand_in o.1.fallback ≡ stand_in m.fallback)
      m.use_fallback _ _ (λ q. refl) (λ q. go m.redis_pool a.from_url)
  where
    go :
        (pool : Option ℕ) (from_url : Result (Unit {0}))
        → stand_in (server_pool from_url pool m).1.fallback ≡ stand_in m.fallback
    go (some n) from_url = refl
    go none (ok _) = refl
    go none (thrown e) = refl

then_unavailable-FallsBack :
    (r : Redis) (e : Exc) (o : Result (Unit {0}) × Pools)
    → FallsBack r o.1
    → FallsBack r (then_unavailable e o).1
then_unavailable-FallsBack r e (ok _, m) h = h
then_unavailable-FallsBack r e (thrown e', m) h = h

-- Once a start has not reached the server, since making the pool or its ping raised an exception, every
-- request for the pool gets the stand-in with the one store: whatever is asked, closed or started
-- again after that, and also where the server can be reached by then.
pub init_redis-stays :
    (a later : Answers) (url : String) (m : Pools) (e : Exc) (us : List Use)
    → reach a (get_redis_pool a m).0 ≡ thrown e
    → is_instance e exception ≡ true
    → (get_redis_pool later (use_all us (init_redis a url m).1)).0
      ≡ ok (in_process (stand_in m.fallback))
unfolding init_redis turn_to_stand_in
init_redis-stays a later url m e us fails caught =
    let r = stand_in m.fallback in
    let o = get_redis_pool a m in
    let turned : Pools = record o.1 { use_fallback = true } in
    let failed : FallsBack r (turn_to_stand_in a e o.1).1 =
      subst
        (λ b.
          FallsBack r
            (if b then then_unavailable e (close_redis_pool a turned) else (thrown e, o.1)).1)
        (sym caught)
        (then_unavailable-FallsBack r e (close_redis_pool a turned)
          (close-FallsBack r a turned (refl, store-get_redis_pool a m))) in
    let begun : FallsBack r (init_redis a url m).1 =
      subst (λ x. FallsBack r (after_ping a url x o.1).1) (sym fails) failed in
    let final = use_all-FallsBack r us (init_redis a url m).1 begun in
    ap (λ (x : Result Backend × Pools). x.0)
      (asked later (use_all us (init_redis a url m).1) final.0)
    ∙ ap (λ x. ok (in_process x)) final.1
