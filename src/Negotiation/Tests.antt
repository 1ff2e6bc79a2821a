-- ===== src/Negotiation/Tests.antt =====
-- A merge of capabilities.
use grafux_mcp.Base.{Dict, String, [], false, true, ◌∷◌, nat_eq, string_eq, pair_eq}
use grafux_mcp.Json.{Json, bool}
use grafux_mcp.Negotiation.{}

abbrev server : Dict String Json
server = ("tools", bool true) ∷ []

abbrev local : Dict String Json
local = ("tools", bool false) ∷ ("prompts", bool true) ∷ []
