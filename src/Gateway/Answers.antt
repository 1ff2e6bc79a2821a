-- ===== src/Gateway/Answers.antt =====
-- How requests are answered.
use grafux_mcp.Base.{
  Bool, Dict, List, Option, String, [], false, lookup, none, some, true, ◌∷◌, ◌≡◌, nat_eq,
  string_eq, pair_eq,
}
use grafux_mcp.Json.{Json, entries, null, obj}
use grafux_mcp.Gateway.{Host, Reply, inline, raise, rpc, value}
use grafux_mcp.Gateway.Handlers.{reply_of}
use grafux_mcp.Gateway.Session.{sync_all, sync_tool}

abbrev pub id_of : Json → Option Json
unfolding lookup
id_of (obj fs) = lookup "id" (entries fs)
id_of v = none

-- One frame, with the id of the request.
pub record AnswersOnce (req : Json) (frames : List Json) : Type 0 where
  pub frame : Json
  pub alone : frames ≡ frame ∷ []
  pub echoes : id_of frame ≡ some req

-- A result other than null, or an error: what is answered with one frame.
abbrev pub is_plain : Reply → Bool
is_plain (value null) = false
is_plain (value v) = true
is_plain (inline frames) = false
is_plain (rpc code message) = true
is_plain (raise e) = true

-- The cloud syncer gives no null result.
pub record SyncsPlainly (host : Host) : Type 0 where
  pub all_plain : (params : Dict String Json) → is_plain (reply_of (host.sync_all params)) ≡ true
  pub tool_plain : (params : Dict String Json) → is_plain (reply_of (host.sync_tool params)) ≡ true
