-- ===== src/Cache/Tests.antt =====
-- Tests of the in-process cache, and its theorems at concrete stores.
use grafux_mcp.Base.{
  Bool, String, [], contains, discard, erase, insert, lookup, none, refl, some, ◌==◌, ◌∷◌, ◌≡◌,
  nat_eq, string_eq, pair_eq,
}
use grafux_mcp.Json.{str}
use grafux_mcp.Cache.{
  Redis, cache_delete_pattern, cache_get, delete, delete_matching, expired, get, get_message,
  cache_delete, clear, unsubscribe, unsubscribe_all, empty_redis, publish, put_each,
}
use grafux_mcp.Exceptions.{ok, thrown, exc, exception, is_instance}
use grafux_mcp.Cache.Mode.{
  Answers, at_import, server, in_process, closes, starts, use_all, init_redis, get_redis_pool,
  reach, init_redis-stays,
}
use grafux_mcp.Cache.Channels.{HoldsOnce, subscribers}

abbrev filled : Redis
filled = record {
  store = ("mcp:o:tools", ("[]", some 10)) ∷ ("mcp:o:x", ("1", none)) ∷ [];
  channels = ("c", 1 ∷ 2 ∷ []) ∷ [];
  queues = (1, "a" ∷ []) ∷ [];
}

abbrev is_tools : String → Bool
is_tools k = k == "mcp:o:tools"

read_in_time : (get 9 "mcp:o:tools" filled).0 ≡ some "[]"
unfolding get expired lookup
read_in_time = refl

read_too_late : (get 10 "mcp:o:tools" filled).0 ≡ none
unfolding get expired lookup
read_too_late = refl

parsed_or_text : (cache_get (λ t. none) 0 "mcp:o:x" filled).0 ≡ some (str "1")
unfolding cache_get get expired lookup
parsed_or_text = refl

pattern_count : (cache_delete_pattern 0 is_tools filled).0 ≡ 1
unfolding cache_delete_pattern delete_matching expired lookup delete erase
pattern_count = refl

first_in_first_out : (get_message 1 (publish "c" "b" filled).1).0 ≡ some "a"
unfolding get_message publish put_each lookup insert
first_in_first_out = refl

filled-HoldsOnce : HoldsOnce (subscribers "c" filled)
unfolding contains lookup
filled-HoldsOnce = (refl, (refl, tt))

closed_queue : (publish "c" "b" (unsubscribe_all 1 ("c" ∷ "d" ∷ []) filled)).0 ≡ 1
unfolding unsubscribe_all unsubscribe publish put_each lookup insert discard
closed_queue = refl

deleted_key : (get 0 "mcp:o:tools" (cache_delete "mcp:o:tools" filled)).0 ≡ none
unfolding cache_delete delete get expired lookup erase
deleted_key = refl

cleared : (publish "c" "b" (clear filled)).0 ≡ 0
unfolding clear publish lookup
cleared = refl

abbrev server_up : Answers
server_up = record { from_url = ok tt; ping = ok tt; aclose = ok tt }

abbrev server_down : Answers
server_down = record server_up { ping = thrown (exc exception "refused") }

connected : (init_redis server_up "redis://r" at_import).0 ≡ ok "connected (redis://r)"
unfolding init_redis get_redis_pool reach
connected = refl

same_server :
    (get_redis_pool server_up (init_redis server_up "redis://r" at_import).1).0 ≡ ok (server 0)
unfolding init_redis get_redis_pool reach
same_server = refl

init_redis-stays_example :
    (get_redis_pool server_up (
      use_all
        (closes server_up ∷ starts server_up "redis://r" ∷ [])
        (init_redis server_down "redis://r" at_import).1)).0
    ≡ ok (in_process empty_redis)
unfolding get_redis_pool reach is_instance
init_redis-stays_example =
    init_redis-stays server_down server_up "redis://r" at_import (exc exception "refused")
      (closes server_up ∷ starts server_up "redis://r" ∷ []) refl refl
