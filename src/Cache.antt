-- ===== src/Cache.antt =====
-- cache/redis_client.py: the in-process stand-in for Redis, and the typed helpers over it.
-- The clock, time.monotonic(), is an argument; a waiting message queue is a list.
pub mod Expiry
pub mod Channels
pub mod Patterns
pub mod Mode
pub mod Tests
use grafux_mcp.Base.{
  Bool, Dict, List, Option, String, [], add, discard, erase, false, has, if◌then◌else◌, insert,
  keys, leb, length, lookup, none, not, some, suc, true, zero, ℕ, ◌&&◌, ◌++◌, ◌+◌, ◌∷◌, nat_eq,
  string_eq, pair_eq,
}
use grafux_mcp.Json.{Json, str}

-- (value, expiry)
abbrev pub Item : Type 0
Item = String × Option ℕ

-- _InMemoryRedis: _store and _channels, with each subscriber's queue.
pub record Redis : Type 0 where
  pub store : Dict String Item
  pub channels : Dict String (List ℕ)
  pub queues : Dict ℕ (List String)

abbrev pub empty_redis : Redis
empty_redis = record { store = []; channels = []; queues = [] }

-- expiry is not None and expiry <= time.monotonic()
abbrev pub is_past : ℕ → Option ℕ → Bool
is_past now none = false
is_past now (some t) = leb t now

-- _expired, which also drops an item that is past its time
abbrev pub expired_item : ℕ → String → Option Item → Redis → Bool × Redis
expired_item now key none r = (true, r)
expired_item now key (some (value, expiry)) r =
    if is_past now expiry then (true, record r { store = erase key r.store }) else (false, r)

unfoldable pub expired : ℕ → String → Redis → Bool × Redis
expired now key r = expired_item now key (lookup key r.store) r

abbrev value_at : String → Redis → Option String
value_at key r = elim (lookup key r.store) [ none ↦ none | some item ↦ some item.0 ]

abbrev pub unless_expired : String → Bool × Redis → Option String × Redis
unless_expired key (true, r) = (none, r)
unless_expired key (false, r) = (value_at key r, r)

unfoldable pub get : ℕ → String → Redis → Option String × Redis
unfolding lookup
get now key r = unless_expired key (expired now key r)

unfoldable pub set : String → String → Redis → Redis
set key value r = record r { store = insert key (value, none) r.store }

unfoldable pub setex : ℕ → String → ℕ → String → Redis → Redis
setex now key ttl value r = record r { store = insert key (value, some (now + ttl)) r.store }

-- delete(*keys): how many were there, expired ones included
unfoldable pub delete : List String → Redis → ℕ × Redis
unfolding has
delete [] r = (0, r)
delete (key ∷ keys) r =
    let rest = delete keys (record r { store = erase key r.store }) in
    ((if has key r.store then 1 else 0) + rest.0, rest.1)

-- scan_iter, to its end, over the keys that were there at its start. `matches` is
-- fnmatch.fnmatch(key, match).
unfoldable pub scan : ℕ → (String → Bool) → List String → Redis → List String × Redis
unfolding expired
scan now matches [] r = ([], r)
scan now matches (key ∷ keys) r =
    let (gone, r') = expired now key r in
    let rest = scan now matches keys r' in
    if not gone && matches key then (key ∷ rest.0, rest.1) else rest

unfoldable pub scan_iter : ℕ → (String → Bool) → Redis → List String × Redis
scan_iter now matches r = scan now matches (keys r.store) r

-- cache_set: a truthy ttl sets an expiry
unfoldable pub cache_set : ℕ → String → String → Option ℕ → Redis → Redis
cache_set now key serialized none r = set key serialized r
cache_set now key serialized (some zero) r = set key serialized r
cache_set now key serialized (some (suc n)) r = setex now key (suc n) serialized r

-- cache_get, where `parse` is json.loads, with nothing for an error: then the text is given back.
unfoldable pub cache_get : (String → Option Json) → ℕ → String → Redis → Option Json × Redis
cache_get parse now key r =
    let (raw, r') = get now key r in
    (
      elim raw [
        | none ↦ none
        | some text ↦ elim (parse text) [ none ↦ some (str text) | some v ↦ some v ]
      ],
      r',
    )

unfoldable pub cache_delete : String → Redis → Redis
unfolding delete
cache_delete key r = (delete (key ∷ []) r).1

-- async for key in scan_iter(pattern): delete(key). Each key is looked at when its turn comes.
unfoldable pub delete_matching : ℕ → (String → Bool) → List String → Redis → ℕ × Redis
unfolding expired
delete_matching now matches [] r = (0, r)
delete_matching now matches (key ∷ keys) r =
    let (gone, r') = expired now key r in
    let kept = delete_matching now matches keys r' in
    let rest = delete_matching now matches keys (delete (key ∷ []) r').1 in
    if not gone && matches key then (suc rest.0, rest.1) else kept

unfoldable pub cache_delete_pattern : ℕ → (String → Bool) → Redis → ℕ × Redis
cache_delete_pattern now matches r = delete_matching now matches (keys r.store) r

-- _InMemoryPubSub.subscribe: the queue is added to the channel's set.
unfoldable pub subscribe : ℕ → String → Redis → Redis
subscribe queue channel r = record r {
  channels =
      insert channel (add queue (elim (lookup channel r.channels) [ none ↦ [] | some qs ↦ qs ]))
        r.channels;
}

abbrev pub put_or_pop : String → List ℕ → Dict String (List ℕ) → Dict String (List ℕ)
put_or_pop channel [] d = erase channel d
put_or_pop channel (q ∷ qs) d = insert channel (q ∷ qs) d

-- _InMemoryPubSub.unsubscribe(channel)
unfoldable pub unsubscribe : ℕ → String → Redis → Redis
unsubscribe queue channel r = elim (lookup channel r.channels) [
  | none ↦ r
  | some qs ↦ record r { channels = put_or_pop channel (discard queue qs) r.channels }
]

-- unsubscribe(), which aclose calls: every channel that the queue has subscribed to
unfoldable pub unsubscribe_all : ℕ → (channels : List String) → Redis → Redis
unfolding unsubscribe
unsubscribe_all queue [] r = r
unsubscribe_all queue (channel ∷ channels) r =
    unsubscribe_all queue channels (unsubscribe queue channel r)

-- _InMemoryRedis.aclose: the queues are their subscribers'.
unfoldable pub clear : Redis → Redis
clear r = record r { store = []; channels = [] }

abbrev pub waiting : ℕ → Dict ℕ (List String) → List String
waiting queue d = elim (lookup queue d) [ none ↦ [] | some ms ↦ ms ]

unfoldable pub put_each : List ℕ → String → Dict ℕ (List String) → Dict ℕ (List String)
put_each [] message d = d
put_each (q ∷ qs) message d = put_each qs message (insert q (waiting q d ++ message ∷ []) d)

-- publish: how many got the message
abbrev pub publish_to : Option (List ℕ) → String → Redis → ℕ × Redis
publish_to none message r = (0, r)
publish_to (some qs) message r = (length qs, record r { queues = put_each qs message r.queues })

unfoldable pub publish : String → String → Redis → ℕ × Redis
publish channel message r = publish_to (lookup channel r.channels) message r

-- get_message, with its time limit: the first message, if one is there
abbrev pub take_first : ℕ → List String → Redis → Option String × Redis
take_first queue [] r = (none, r)
take_first queue (m ∷ ms) r = (some m, record r { queues = insert queue ms r.queues })

unfoldable pub get_message : ℕ → Redis → Option String × Redis
get_message queue r = take_first queue (waiting queue r.queues) r
