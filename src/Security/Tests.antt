-- ===== src/Security/Tests.antt =====
-- The security checks at concrete inputs, and their theorems at them.
use grafux_mcp.Base.{
  String, [], false, if◌then◌else◌, none, refl, some, true, truthy_text, ◌&&◌, ◌==◌, ◌∷◌, ◌≡◌,
  nat_eq, string_eq, pair_eq,
}
use grafux_mcp.Exceptions.{Result, connection, exc, ok, thrown}
use grafux_mcp.Json.{Json, dict, null, str}
use grafux_mcp.Client.{Response}
use grafux_mcp.Security.{
  AuthContext, get_auth_context, get_optional_auth_context, get_ws_auth_context, passed, refused,
  require_internal,
}
use grafux_mcp.Security.Permissions.{
  Tables, assert_server_owned_by_org, assert_tool_accessible, require_role,
}
use grafux_mcp.Security.Trust.{get_auth_context-accepted, identifies, is_accepted, passes}

abbrev texts : Json → String
texts v = elim v [ str s ↦ s | w ↦ "" ]

abbrev claims : Json
claims = dict (("sub", str "u1") ∷ ("organization_id", str "o1") ∷ [])

-- One good token; the backend is down for another.
abbrev backend : String → Result Response
backend token =
    if token == "good"
    then ok (record { status_code = 200; body = ok claims })
    else if token == "down"
    then thrown (exc connection "unreachable")
    else ok (record { status_code = 401; body = ok null })

good :
    get_auth_context texts backend (some "good")
    ≡ passed (record {
      user_id = "u1";
      org_id = "o1";
      project_id = none;
      role = str "member";
      raw = ("sub", str "u1") ∷ ("organization_id", str "o1") ∷ [];
    })
unfolding get_auth_context
good = refl

down : get_auth_context texts backend (some "down") ≡ refused 502 "Authentication service error"
unfolding get_auth_context
down = refl

nobody : get_optional_auth_context texts backend (some "bad") ≡ passed none
unfolding get_optional_auth_context
nobody = refl

internal :
    (require_internal "key" "" ≡ refused 403 "Invalid or missing internal service key")
    × (require_internal "key" "key" ≡ passed tt)
unfolding require_internal
internal = (refl, refl)

get_auth_context-accepted_example :
    (passes (get_auth_context texts backend (some "good"))
      ≡ is_accepted texts backend (some "good"))
    × (identifies texts backend (get_optional_auth_context texts backend (some "good"))
        ≡ is_accepted texts backend (some "good"))
    × (passes (get_ws_auth_context texts backend "down")
        ≡ (truthy_text "down" && is_accepted texts backend (some "down")))
get_auth_context-accepted_example = get_auth_context-accepted texts backend (some "good") "down"

abbrev tables : Tables
tables = record {
  tools = ("t1", "o1") ∷ ("t2", "o2") ∷ [];
  servers = ("s1", "o1") ∷ [];
  org_tools = (("t1", "o1"), true) ∷ [];
  project_tools = (("t1", "p1"), false) ∷ [];
}

abbrev member : AuthContext
member = record {
  user_id = "u1";
  org_id = "o1";
  project_id = some "p1";
  role = str "member";
  raw = [];
}

disabled_for_project :
    assert_tool_accessible ok tables "t1" member ≡ refused 403 "Tool disabled for project"
unfolding assert_tool_accessible
disabled_for_project = refl

of_another : assert_tool_accessible ok tables "t2" member ≡ refused 404 "Tool not found"
unfolding assert_tool_accessible
of_another = refl

owned : assert_server_owned_by_org ok tables "s1" member ≡ passed tt
unfolding assert_server_owned_by_org
owned = refl

roles : require_role (λ r. "no") ("admin" ∷ []) member ≡ refused 403 "no"
unfolding require_role
roles = refl
