-- ===== src/Streams.antt =====
-- core/streaming: the WebSockets that are connected, who waits for which invocation, and how a
-- subscriber reads the events of one. A WebSocket is a number, a set is a list.
pub mod Members
pub mod Broadcast
pub mod History
pub mod Subscription
pub mod Tests
use grafux_mcp.Base.{
  Bool, Dict, List, String, [], add, discard, erase, filter, insert, length, lookup, none, not,
  some, tally, ℕ, ◌∷◌, nat_eq, string_eq, pair_eq,
}
use grafux_mcp.Json.{Json}

abbrev pub Socket : Type 0
Socket = ℕ

-- StreamManager
pub record Manager : Type 0 where
  pub connections : Dict String (List Socket)
  pub waiters : Dict String (List Socket)

abbrev pub no_streams : Manager
no_streams = record { connections = []; waiters = [] }

-- d[key] on a defaultdict(set)
unfoldable pub set_of : String → Dict String (List Socket) → List Socket
set_of key d = elim (lookup key d) [ none ↦ [] | some ws ↦ ws ]

unfoldable pub connect : Socket → String → Manager → Manager
connect ws org m = record m {
  connections = insert org (add ws (set_of org m.connections)) m.connections;
}

-- The set without the socket, taken away where it is empty.
abbrev pub put_or_delete :
    String → List Socket → Dict String (List Socket) → Dict String (List Socket)
put_or_delete key [] d = erase key d
put_or_delete key (w ∷ ws) d = insert key (w ∷ ws) d

unfoldable pub discard_each : Socket → Dict String (List Socket) → Dict String (List Socket)
discard_each ws [] = []
discard_each ws ((k, waiting) ∷ d) = (k, discard ws waiting) ∷ discard_each ws d

unfoldable pub disconnect : Socket → String → Manager → Manager
unfolding discard_each
disconnect ws org m = record {
  connections = put_or_delete org (discard ws (set_of org m.connections)) m.connections;
  waiters = discard_each ws m.waiters;
}

unfoldable pub subscribe_invocation : Socket → String → Manager → Manager
subscribe_invocation ws id m = record m {
  waiters = insert id (add ws (set_of id m.waiters)) m.waiters;
}

unfoldable pub unsubscribe_invocation : Socket → String → Manager → Manager
unsubscribe_invocation ws id m = record m {
  waiters = insert id (discard ws (set_of id m.waiters)) m.waiters;
}

unfoldable pub discard_all : List Socket → List Socket → List Socket
discard_all [] ws = ws
discard_all (d ∷ dead) ws = discard_all dead (discard d ws)

-- if dead: self._sets[key].discard(ws) for each of them
abbrev pub without_dead :
    String → List Socket → Dict String (List Socket) → Dict String (List Socket)
without_dead key [] d = d
without_dead key (x ∷ dead) d = insert key (discard_all (x ∷ dead) (set_of key d)) d

-- Sending to each member of a set, where `fails ws` says that sending raises: who got the message,
-- and the manager without those that did not.
unfoldable pub send_to_invocation_waiters :
    (Socket → Bool) → String → Manager → List Socket × Manager
send_to_invocation_waiters fails id m =
    let targets = set_of id m.waiters in
    (
      filter (λ ws. not (fails ws)) targets,
      record m { waiters = without_dead id (filter fails targets) m.waiters },
    )

unfoldable pub broadcast_to_org : (Socket → Bool) → String → Manager → List Socket × Manager
broadcast_to_org fails org m =
    let targets = set_of org m.connections in
    (
      filter (λ ws. not (fails ws)) targets,
      record m { connections = without_dead org (filter fails targets) m.connections },
    )

unfoldable pub connection_count : Manager → ℕ
connection_count m = tally length m.connections
