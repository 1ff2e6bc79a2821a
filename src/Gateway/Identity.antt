-- ===== src/Gateway/Identity.antt =====
-- For whom a tools/call request is run.
use grafux_mcp.Base.{
  Dict, List, Option, String, [], ap, if_elim, if◌then◌else◌, leb, length, none, refl, some, split,
  sym, true, values, ◌∙◌, ◌∷◌, ◌≡◌, nat_eq, string_eq, pair_eq,
}
use grafux_mcp.Json.{Json, bool, given, int, list, null, obj, str}
use grafux_mcp.Exceptions.{}
use grafux_mcp.Plugins.{Registry, text_of}
use grafux_mcp.Tools.{Caller, is_named}
use grafux_mcp.Tools.Executor.{}
use grafux_mcp.Gateway.{
  Auth, Host, caller_of, claimed, dict_or_empty, fill_user, infer_owner, invalid_params,
  is_data_path, nth, or_else, owner_in_path, rpc, text_param, value,
}
use grafux_mcp.Gateway.Handlers.{call_as, call_named, handle_tools_call, reply_of, timeout_envelope}

owner_in_path-username :
    (s : String) (c : Caller) → given c.username ≡ true → (owner_in_path s c).username ≡ c.username
unfolding owner_in_path split
owner_in_path-username s c h =
    if_elim (λ (u : Option String). u ≡ c.username) (leb 4 (length (split s b'/')))
      (or_else c.username (nth 1 (split s b'/'))) c.username
      (λ q. ap (λ b. if b then c.username else nth 1 (split s b'/')) h) (λ q. refl)

infer_owner-username :
    (vs : List Json) (c : Caller)
    → given c.username ≡ true
    → (infer_owner vs c).username ≡ c.username
unfolding infer_owner
infer_owner-username [] c h = refl
infer_owner-username (str s ∷ vs) c h =
    if_elim (λ (d : Caller). d.username ≡ c.username) (is_data_path s) (owner_in_path s c)
      (infer_owner vs c) (λ q. owner_in_path-username s c h) (λ q. infer_owner-username vs c h)
infer_owner-username (null ∷ vs) c h = infer_owner-username vs c h
infer_owner-username (bool b ∷ vs) c h = infer_owner-username vs c h
infer_owner-username (int n ∷ vs) c h = infer_owner-username vs c h
infer_owner-username (list l ∷ vs) c h = infer_owner-username vs c h
infer_owner-username (obj o ∷ vs) c h = infer_owner-username vs c h

fill_user-named : (auth : Option Auth) (c : Caller) → given c.username ≡ true → fill_user auth c ≡ c
unfolding fill_user
fill_user-named none c h = refl
fill_user-named (some a) c h = ap (λ b. if b then c else record c { username = some a.user_id }) h

caller_of-claimed :
    (params arguments : Dict String Json) (auth : Option Auth)
    → given (text_param "username" params) ≡ true
    → caller_of params arguments auth ≡ caller_of params arguments none
unfolding caller_of
caller_of-claimed params arguments auth h =
    let c = claimed params in
    let d = if is_named c then c else infer_owner (values arguments) c in
    let kept_name : d.username ≡ c.username =
      if_elim (λ (x : Caller). x.username ≡ c.username) (is_named c) c
        (infer_owner (values arguments) c) (λ q. refl)
        (λ q. infer_owner-username (values arguments) c h) in
    let named : given d.username ≡ true = ap given kept_name ∙ h in
    fill_user-named auth d named ∙ sym (fill_user-named none d named)

call_named-claimed :
    (host : Host) (auth : Option Auth) (params : Dict String Json) (name : String)
    (arguments : Option (Dict String Json)) (reg : Registry)
    → given (text_param "username" params) ≡ true
    → call_named host auth params name arguments reg
      ≡ call_named host none params name arguments reg
unfolding call_named
call_named-claimed host auth params name none reg h = refl
call_named-claimed host auth params name (some arguments) reg h =
    ap
      (λ c.
        if host.times_out
        then value (timeout_envelope name)
        else reply_of (call_as host params name arguments reg c))
      (caller_of-claimed params arguments auth h)

-- A tools/call request that names a user gets the same reply whoever has authenticated on the
-- connection, also where nobody has: the name in the request is taken as it is.
pub handle_tools_call-claimed :
    (host : Host) (auth : Option Auth) (params : Dict String Json) (reg : Registry)
    → given (text_param "username" params) ≡ true
    → handle_tools_call host auth params reg ≡ handle_tools_call host none params reg
unfolding handle_tools_call
handle_tools_call-claimed host auth params reg h =
    let name = text_param "name" params in
    ap (λ r. if given name then r else rpc invalid_params "Missing required param: name")
      (call_named-claimed host auth params (text_of name) (dict_or_empty "arguments" params) reg h)
