-- ===== src/Sandbox/Teardown.antt =====
-- integrations/e2b: no ephemeral sandbox is left behind, and a persistent one is used again.
use grafux_mcp.Base.{
  Bool, List, String, [], if◌then◌else◌, not, ◌&&◌, ◌∷◌, nat_eq, string_eq, pair_eq,
}
use grafux_mcp.Exceptions.{ok, thrown}
use grafux_mcp.Json.{Json}
use grafux_mcp.Sandbox.{Acquired}

-- The sandboxes that a run has to close: the one that it got, if it is new and not persistent.
abbrev pub owned : (persistent : Bool) → Acquired → List String
owned persistent (thrown e) = []
owned persistent (ok (id, is_new)) = if is_new && not persistent then id ∷ [] else []
