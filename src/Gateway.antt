-- ===== src/Gateway.antt =====
-- api/ws/gateway.py: the JSON-RPC messages, the caller of a tool, and the method handlers.
-- Messages are the values that are sent, before `json.dumps`.
pub mod Handlers
pub mod Session
pub mod Identity
pub mod Departure
pub mod Tests
pub mod Answers
use grafux_mcp.Base.{
  Bool, Dict, List, Option, String, [], has_text, if◌then◌else◌, leb, length, lookup, none, some,
  split, starts_with, suc, values, zero, ℕ, ◌&&◌, ◌∷◌, nat_eq, string_eq, pair_eq,
}
use grafux_mcp.Json.{Json, bool, dict, entries, given, int, list, minus, null, obj, str, truthy, ℤ}
use grafux_mcp.Exceptions.{Exc, Result, runtime}
use grafux_mcp.Plugins.{Registry}
use grafux_mcp.Plugins.Tree.{DataTree}
use grafux_mcp.Tools.{Caller, is_named}
use grafux_mcp.Tools.Executor.{Runtime}
use grafux_mcp.Outputs.{Disk}
use grafux_mcp.Streams.{Manager}
use grafux_mcp.Streams.Subscription.{Poll}

abbrev version : String × Json
version = ("jsonrpc", str "2.0")

-- _ok: `result or {}`
unfoldable pub ok_message : Json → Json → Json
unfolding truthy
ok_message id result =
    dict (version ∷ ("id", id) ∷ ("result", if truthy result then result else dict []) ∷ [])

-- _err, without data: no caller gives any
unfoldable pub err_message : Json → ℤ → String → Json
err_message id code message = dict (
    version
    ∷ ("id", id)
    ∷ ("error", dict (("code", int code) ∷ ("message", str message) ∷ []))
    ∷ [])

unfoldable pub notification : String → Option Json → Json
notification method none = dict (version ∷ ("method", str method) ∷ [])
notification method (some params) =
    dict (version ∷ ("method", str method) ∷ ("params", params) ∷ [])

-- d.get(k) or {}, where it is a dict; `none` where it is something else
unfoldable pub dict_or_empty : String → Dict String Json → Option (Dict String Json)
unfolding truthy lookup
dict_or_empty k d = elim (lookup k d) [
  | none ↦ some []
  | some v ↦ elim v [ obj fs ↦ some (entries fs) | w ↦ if truthy w then none else some [] ]
]

-- params.get(k), for a parameter that is a text or missing
unfoldable pub text_param : String → Dict String Json → Option String
unfolding lookup
text_param k d = elim (lookup k d) [ none ↦ none | some v ↦ elim v [ str s ↦ some s | w ↦ none ] ]

-- a or b
abbrev pub or_else : Option String → Option String → Option String
or_else a b = if given a then a else b

abbrev pub nth : ℕ → List String → Option String
nth n [] = none
nth zero (x ∷ xs) = some x
nth (suc n) (x ∷ xs) = nth n xs

-- What the first argument that is a path to a tool's data says of the owner.
unfoldable pub owner_in_path : String → Caller → Caller
unfolding split given
owner_in_path path c =
    let parts = split path b'/' in
    record {
      username = if leb 4 (length parts) then or_else c.username (nth 1 parts) else c.username;
      project = if leb 4 (length parts) then or_else c.project (nth 2 parts) else c.project;
      category = if leb 6 (length parts) then or_else c.category (nth 4 parts) else c.category;
    }

unfoldable pub is_data_path : String → Bool
unfolding starts_with has_text
is_data_path s = starts_with s "data/" && has_text s "/tools/"

unfoldable pub infer_owner : List Json → Caller → Caller
unfolding owner_in_path is_data_path
infer_owner [] c = c
infer_owner (str s ∷ vs) c =
    let rest = infer_owner vs c in if is_data_path s then owner_in_path s c else rest
infer_owner (null ∷ vs) c = infer_owner vs c
infer_owner (bool b ∷ vs) c = infer_owner vs c
infer_owner (int n ∷ vs) c = infer_owner vs c
infer_owner (list l ∷ vs) c = infer_owner vs c
infer_owner (obj o ∷ vs) c = infer_owner vs c

-- The authenticated user of the connection, if there is one.
pub record Auth : Type 0 where
  pub org_id : String
  pub user_id : String

-- if auth and not username: username = auth.user_id
unfoldable pub fill_user : Option Auth → Caller → Caller
unfolding given
fill_user none c = c
fill_user (some a) c = if given c.username then c else record c { username = some a.user_id }

-- The owner that the request names.
abbrev pub claimed : Dict String Json → Caller
claimed params = record {
  username = text_param "username" params;
  project = text_param "project" params;
  category = text_param "category" params;
}

-- The caller that a tools/call request is run for.
unfoldable pub caller_of : Dict String Json → Dict String Json → Option Auth → Caller
unfolding is_named infer_owner fill_user
caller_of params arguments auth =
    let c = claimed params in
    fill_user auth (if is_named c then c else infer_owner (values arguments) c)

abbrev pub invalid_params : ℤ
invalid_params = minus 32602

-- What a handler gives: a result, the frames that it has sent itself, or an error.
pub data Reply : Type 0 where
  value : Json → Reply
  inline : List Json → Reply
  rpc : ℤ → String → Reply
  raise : Exc → Reply

-- The services that the handlers call, with what is decided outside of the gateway: the tool runtime
-- and the time limit of a call, the disk, the plugin tree, the events of a subscription, the health
-- entries in the cache, and the cloud syncer.
pub record Host : Type 0 where
  pub runtime : Runtime
  pub times_out : Bool
  pub disk : Disk
  pub tree : DataTree
  pub polls : List Poll
  pub statuses : List Json
  pub sync_all : Dict String Json → Result Json
  pub sync_tool : Dict String Json → Result Json

-- The registries and the stream manager of the process.
pub record Gate : Type 0 where
  pub registry : Registry
  pub streams : Manager
