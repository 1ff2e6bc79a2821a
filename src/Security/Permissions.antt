-- ===== src/Security/Permissions.antt =====
-- security/permissions.py.
use grafux_mcp.Base.{
  Bool, Dict, List, Option, String, contains, false, if◌then◌else◌, lookup, none, not, some,
  truthy_text, ◌==◌, nat_eq, string_eq, pair_eq,
}
use grafux_mcp.Exceptions.{Result, ok, thrown}
use grafux_mcp.Json.{Json, given, str}
use grafux_mcp.Security.{AuthContext, Checked, crashed, passed, refused}

-- mcp_tools and mcp_servers: the organisation by id; org_mcp_tools and project_mcp_tools: `enabled`
-- by tool and organisation, and by tool and project.
pub record Tables : Type 0 where
  pub tools : Dict String String
  pub servers : Dict String String
  pub org_tools : Dict (String × String) Bool
  pub project_tools : Dict (String × String) Bool

-- uuid.UUID(text): the id, or an exception
abbrev pub Uuid : Type 0
Uuid = String → Result String

abbrev pub with_uuid {ℓ} : {A : Type ℓ} → Result String → (String → Checked A) → Checked A
with_uuid (thrown e) next = crashed e
with_uuid (ok id) next = next id

-- The row is there, and belongs to the organisation.
unfoldable pub belongs : Option String → (org_id : String) → Bool
belongs none org_id = false
belongs (some owner) org_id = owner == org_id

-- There is a row, and it is not enabled.
unfoldable pub is_disabled : Option Bool → Bool
is_disabled none = false
is_disabled (some enabled) = not enabled

-- if auth.project_id: ...
unfoldable pub check_project :
    Uuid → Tables → (tool_id : String) → Option String → Checked (Unit {0})
unfolding given is_disabled lookup
check_project uuid t tool_id none = passed tt
check_project uuid t tool_id (some project) =
    if truthy_text project
    then with_uuid (uuid project) (λ id.
      if is_disabled (lookup (tool_id, id) t.project_tools)
      then refused 403 "Tool disabled for project"
      else passed tt)
    else passed tt

unfoldable pub assert_tool_accessible :
    Uuid → Tables → (tool_id : String) → AuthContext → Checked (Unit {0})
unfolding belongs is_disabled check_project lookup
assert_tool_accessible uuid t tool_id auth = with_uuid (uuid auth.org_id) (λ org.
    if not (belongs (lookup tool_id t.tools) org)
    then refused 404 "Tool not found"
    else if is_disabled (lookup (tool_id, org) t.org_tools)
    then refused 403 "Tool disabled for org"
    else check_project uuid t tool_id auth.project_id)

unfoldable pub assert_server_owned_by_org :
    Uuid → Tables → (server_id : String) → AuthContext → Checked (Unit {0})
unfolding belongs lookup
assert_server_owned_by_org uuid t server_id auth = with_uuid (uuid auth.org_id) (λ org.
    if belongs (lookup server_id t.servers) org then passed tt else refused 404 "Server not found")

-- auth.role in allowed_roles
unfoldable pub has_role : Json → List String → Bool
unfolding contains
has_role (str role) allowed_roles = contains allowed_roles role
has_role v allowed_roles = false

-- The check that require_role(allowed_roles) gives; the detail names the roles.
unfoldable pub require_role :
    (detail : Json → String) → (allowed_roles : List String) → AuthContext → Checked AuthContext
unfolding has_role
require_role detail allowed_roles auth =
    if has_role auth.role allowed_roles then passed auth else refused 403 (detail auth.role)
