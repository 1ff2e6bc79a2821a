-- ===== src/Security/Trust.antt =====
-- security: nobody passes without the backend, and a tool is only usable where nothing disables it.
use grafux_mcp.Base.{
  Bool, Bool-cases, Option, String, false, if_elim, inl, inr, lookup, none, not, refl, some, true,
  truthy_text, ◌&&◌, ◌==◌, ◌||◌, ◌∙◌, ◌≡◌, nat_eq, string_eq, pair_eq,
}
use grafux_mcp.Exceptions.{Exc, Result, Result-cases, exception, is_instance, ok, thrown}
use grafux_mcp.Json.{Json, bool, entries, int, list, null, obj, str}
use grafux_mcp.Client.{Response}
use grafux_mcp.Security.{
  AuthContext, Checked, claims_of, context_of, crashed, either_claim, get_auth_context,
  get_optional_auth_context, get_ws_auth_context, or_nobody, passed, refused, then_context,
  validate_token, with_ids,
}
use grafux_mcp.Security.Permissions.{Tables, Uuid, is_disabled}

abbrev pub passes {ℓ} : {A : Type ℓ} → Checked A → Bool
passes (refused status detail) = false
passes (crashed e) = false
passes (passed a) = true

module _ (to_text : Json → String) where
  -- The claims name a user and an organisation.
  abbrev pub names_both : Json → Bool
  names_both (obj fs) = elim (either_claim "sub" "user_id" (entries fs)) [
    | none ↦ false
    | some user ↦ elim (either_claim "org_id" "organization_id" (entries fs)) [
      | none ↦ false
      | some org ↦ true
    ]
  ]
  names_both v = false

  passes-context_of : (v : Json) → passes (context_of to_text v) ≡ names_both v
  unfolding context_of
  passes-context_of (obj fs) =
      go (either_claim "sub" "user_id" (entries fs))
        (either_claim "org_id" "organization_id" (entries fs))
    where
      go :
          (user org : Option Json)
          → passes (with_ids to_text user org (entries fs))
            ≡ elim user [ none ↦ false | some u ↦ elim org [ none ↦ false | some o ↦ true ] ]
      go none none = refl
      go none (some o) = refl
      go (some u) none = refl
      go (some u) (some o) = refl
  passes-context_of null = refl
  passes-context_of (bool b) = refl
  passes-context_of (int n) = refl
  passes-context_of (str s) = refl
  passes-context_of (list vs) = refl

  -- What the backend answers for a token that it accepts.
  abbrev pub accepts : Result Response → Bool
  accepts (thrown e) = false
  accepts (ok resp) =
      resp.status_code == 200 && elim resp.body [ thrown e ↦ false | ok claims ↦ names_both claims ]

  crash_passes : (e : Exc) → passes (then_context to_text (crashed e)) ≡ false
  crash_passes e =
      if_elim (λ c. passes c ≡ false) (is_instance e exception) _ _ (λ q. refl) (λ q. refl)

  passes-claims_of :
      (resp : Response) → passes (then_context to_text (claims_of resp)) ≡ accepts (ok resp)
  unfolding claims_of
  passes-claims_of resp = elim (Bool-cases (resp.status_code == 200)) [
    | inl q ↦ elim (Result-cases resp.body) [
      | inl (claims, b) ↦ rw (q, b) (passes-context_of claims)
      | inr (e, b) ↦ rw (q, b) (crash_passes e)
    ]
    | inr q ↦ rw q (
        if_elim (λ c. passes (then_context to_text c) ≡ false)
          (resp.status_code == 401 || resp.status_code == 403) _ _ (λ r. refl) (λ r. refl))
  ]

  passes-validate_token :
      (r : Result Response) → passes (then_context to_text (validate_token r)) ≡ accepts r
  unfolding validate_token
  passes-validate_token (thrown e) = crash_passes e
  passes-validate_token (ok resp) = passes-claims_of resp

  module _ (backend : String → Result Response) where
    abbrev pub is_accepted : Option String → Bool
    is_accepted none = false
    is_accepted (some token) = accepts (backend token)

    passes-get_auth_context :
        (credentials : Option String)
        → passes (get_auth_context to_text backend credentials) ≡ is_accepted credentials
    unfolding get_auth_context
    passes-get_auth_context none = refl
    passes-get_auth_context (some token) = passes-validate_token (backend token)

    get_ws_passes :
        (token : String)
        → passes (get_ws_auth_context to_text backend token)
          ≡ (truthy_text token && is_accepted (some token))
    unfolding get_ws_auth_context
    get_ws_passes token = elim (Bool-cases (truthy_text token)) [
      | inl q ↦ rw q (passes-get_auth_context (some token))
      | inr q ↦ rw q refl
    ]

    -- Somebody, not nobody.
    abbrev pub identifies : Checked (Option AuthContext) → Bool
    identifies (refused status detail) = false
    identifies (crashed e) = false
    identifies (passed none) = false
    identifies (passed (some a)) = true

    identifies-or_nobody : (c : Checked AuthContext) → identifies (or_nobody c) ≡ passes c
    identifies-or_nobody (refused status detail) = refl
    identifies-or_nobody (crashed e) = refl
    identifies-or_nobody (passed a) = refl

    get_optional_identifies :
        (credentials : Option String)
        → identifies (get_optional_auth_context to_text backend credentials)
          ≡ is_accepted credentials
    unfolding get_optional_auth_context
    get_optional_identifies none = refl
    get_optional_identifies (some token) =
        identifies-or_nobody (get_auth_context to_text backend (some token))
        ∙ passes-get_auth_context (some token)

-- A request, an optional identity and a WebSocket are identified exactly by a token for which the
-- backend answers 200 with claims that name a user and an organisation: never without a token, and
-- never where the backend fails or cannot be reached.
pub get_auth_context-accepted :
    (to_text : Json → String) (backend : String → Result Response) (credentials : Option String)
    (token : String)
    → (passes (get_auth_context to_text backend credentials)
        ≡ is_accepted to_text backend credentials)
      × (identifies to_text backend (get_optional_auth_context to_text backend credentials)
          ≡ is_accepted to_text backend credentials)
      × (passes (get_ws_auth_context to_text backend token)
          ≡ (truthy_text token && is_accepted to_text backend (some token)))
get_auth_context-accepted to_text backend credentials token = (
  passes-get_auth_context to_text backend credentials,
  get_optional_identifies to_text backend credentials,
  get_ws_passes to_text backend token,
)

module _ (uuid : Uuid) (t : Tables) where
  -- A project in the context does not disable the tool.
  abbrev pub allows_project : (tool_id : String) → Option String → Bool
  allows_project tool_id none = true
  allows_project tool_id (some project) = not (truthy_text project) || elim (uuid project) [
    | thrown e ↦ false
    | ok id ↦ not (is_disabled (lookup (tool_id, id) t.project_tools))
  ]
