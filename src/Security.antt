-- ===== src/Security.antt =====
-- security/auth.py and security/permissions.py: who a request is from, and what it may use. The
-- backend that validates tokens is known by its responses, the tables by their keys.
pub mod Permissions
pub mod Trust
pub mod Tests
use grafux_mcp.Base.{
  Dict, Option, String, if◌then◌else◌, lookup, none, not, some, truthy_text, ℕ, ◌==◌, ◌||◌, nat_eq,
  string_eq, pair_eq,
}
use grafux_mcp.Exceptions.{Exc, Result, attribute_error, exc, exception, is_instance, ok, thrown}
use grafux_mcp.Json.{Json, entries, obj, str, truthy}
use grafux_mcp.Client.{Response}

-- AuthContext
pub record AuthContext : Type 0 where
  pub user_id : String
  pub org_id : String
  pub project_id : Option String
  pub role : Json
  pub raw : Dict String Json

-- A dependency passes, refuses with an HTTPException (status and detail), or raises something else.
pub data Checked {ℓ} (A : Type ℓ) : Type ℓ where
  refused : (status : ℕ) → (detail : String) → Checked A
  crashed : Exc → Checked A
  passed : A → Checked A

-- InternalServiceAuth.__call__, for the header's value, "" where it is missing
unfoldable pub require_internal : (internal_service_key token : String) → Checked (Unit {0})
unfolding truthy_text
require_internal internal_service_key token =
    if not (truthy_text token) || not (token == internal_service_key)
    then refused 403 "Invalid or missing internal service key"
    else passed tt

unfoldable pub claims_of : Response → Checked Json
claims_of resp =
    if resp.status_code == 200
    then (elim resp.body [ ok claims ↦ passed claims | thrown e ↦ crashed e ])
    else if resp.status_code == 401 || resp.status_code == 403
    then refused 401 "Invalid or expired token"
    else refused 502 "Authentication service unavailable"

-- _validate_token_with_backend, with what the request gives
unfoldable pub validate_token : Result Response → Checked Json
unfolding claims_of
validate_token (thrown e) = crashed e
validate_token (ok resp) = claims_of resp

-- claims.get(key), if it is truthy
unfoldable pub claim : String → Dict String Json → Option Json
unfolding lookup truthy
claim key claims = elim (lookup key claims) [
  | none ↦ none
  | some v ↦ if truthy v then some v else none
]

-- claims.get(a) or claims.get(b)
unfoldable pub either_claim : (a b : String) → Dict String Json → Option Json
unfolding claim
either_claim a b claims = elim (claim a claims) [ some v ↦ some v | none ↦ claim b claims ]

-- str(claims["project_id"]), if it is truthy; `to_text` is str
unfoldable pub project_claim : (to_text : Json → String) → Dict String Json → Option String
unfolding claim
project_claim to_text claims = elim (claim "project_id" claims) [
  | none ↦ none
  | some v ↦ some (to_text v)
]

abbrev pub role_claim : Dict String Json → Json
role_claim claims = elim (lookup "role" claims) [ none ↦ str "member" | some v ↦ v ]

abbrev pub context : (Json → String) → Json → Json → Dict String Json → AuthContext
context to_text user org claims = record {
  user_id = to_text user;
  org_id = to_text org;
  project_id = project_claim to_text claims;
  role = role_claim claims;
  raw = claims;
}

abbrev pub with_ids :
    (Json → String) → (user org : Option Json) → Dict String Json → Checked AuthContext
with_ids to_text (some user) (some org) claims = passed (context to_text user org claims)
with_ids to_text _ _ claims = refused 401 "Token missing required claims (sub, org_id)"

-- claims.get raises where the claims are no dict.
unfoldable pub context_of : (Json → String) → Json → Checked AuthContext
unfolding either_claim project_claim
context_of to_text (obj fs) =
    with_ids to_text (either_claim "sub" "user_id" (entries fs))
      (either_claim "org_id" "organization_id" (entries fs)) (entries fs)
context_of to_text v = crashed (exc attribute_error "object has no attribute 'get'")

abbrev pub then_context : (Json → String) → Checked Json → Checked AuthContext
then_context to_text (refused status detail) = refused status detail
then_context to_text (crashed e) =
    if is_instance e exception then refused 502 "Authentication service error" else crashed e
then_context to_text (passed claims) = context_of to_text claims

-- The backend: what the request with a token gives.
unfoldable pub get_auth_context :
    (Json → String)
    → (backend : String → Result Response) → (credentials : Option String) → Checked AuthContext
unfolding validate_token context_of is_instance
get_auth_context to_text backend none = refused 401 "Missing Authorization header"
get_auth_context to_text backend (some token) =
    then_context to_text (validate_token (backend token))

abbrev pub or_nobody : Checked AuthContext → Checked (Option AuthContext)
or_nobody (refused status detail) = passed none
or_nobody (crashed e) = crashed e
or_nobody (passed a) = passed (some a)

unfoldable pub get_optional_auth_context :
    (Json → String)
    → (String → Result Response)
    → (credentials : Option String) → Checked (Option AuthContext)
unfolding get_auth_context
get_optional_auth_context to_text backend none = passed none
get_optional_auth_context to_text backend (some token) =
    or_nobody (get_auth_context to_text backend (some token))

unfoldable pub get_ws_auth_context :
    (Json → String) → (String → Result Response) → (token : String) → Checked AuthContext
unfolding get_auth_context truthy_text
get_ws_auth_context to_text backend token =
    if truthy_text token
    then get_auth_context to_text backend (some token)
    else refused 401 "Missing token"
