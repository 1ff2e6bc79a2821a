-- ===== src/Gateway/Departure.antt =====
-- What a connection leaves behind.
use grafux_mcp.Base.{
  ==_refl, List, String, arith, false, none, refl, some, ◌∙◌, ◌≡◌, nat_eq, string_eq, pair_eq,
}
use grafux_mcp.Streams.{Manager, Socket, connect, disconnect}
use grafux_mcp.Streams.Members.{disconnect_lem, is_connected, is_waiting}
use grafux_mcp.Gateway.{Auth, Gate, Host}
use grafux_mcp.Gateway.Session.{
  Connection, Received, anonymous, loop, organisation, refused, serve, valid, websocket_gateway,
}

-- The socket is neither connected to the organisation nor waiting for an invocation.
pub record IsGone (ws : Socket) (org : String) (m : Manager) : Type 0 where
  pub not_connected : is_connected ws org m ≡ false
  pub not_waiting : (id : String) → is_waiting ws id m ≡ false

disconnect-IsGone : (ws : Socket) (org : String) (m : Manager) → IsGone ws org (disconnect ws org m)
disconnect-IsGone ws org m = record {
  not_connected = (disconnect_lem ws ws org org m).0 ∙ ground (arith, ==_refl org, ==_refl ws);
  not_waiting = λ id. (disconnect_lem ws ws org id m).1 ∙ ground (arith, ==_refl ws);
}

serve-IsGone :
    (c : Connection) (turns : List (Host × Received)) (g : Gate)
    → IsGone c.socket (organisation c.auth) (serve c turns g).1.streams
serve-IsGone c turns g =
    let h =
      loop c turns (record g { streams = connect c.socket (organisation c.auth) g.streams }) in
    disconnect-IsGone c.socket (organisation c.auth) h.1.streams

-- However a connection went, when it has ended its socket is in no set of its organisation and waits
-- for no invocation; a connection that is refused changes nothing.
pub websocket_gateway-IsGone :
    (ws : Socket) (a : Auth) (turns : List (Host × Received)) (g : Gate)
    → IsGone ws "anonymous" (websocket_gateway ws anonymous turns g).1.streams
      × IsGone ws a.org_id (websocket_gateway ws (valid a) turns g).1.streams
      × ((websocket_gateway ws refused turns g).1 ≡ g)
unfolding websocket_gateway
websocket_gateway-IsGone ws a turns g = (
  serve-IsGone (record { socket = ws; auth = none }) turns g,
  serve-IsGone (record { socket = ws; auth = some a }) turns g,
  refl,
)
