-- ===== src/Tools/Envelopes.antt =====
-- Every result that a tool call returns is an MCP envelope.
use grafux_mcp.Base.{
  Bool-cases, Dict, List, Option, String, [], arith, has, has-lookup, inl, inr, insert,
  lookup-insert, none, refl, some, true, ◌∷◌, ◌≡◌, nat_eq, string_eq, pair_eq,
}
use grafux_mcp.Json.{Fields, Json, dict, entries, entries-of_entries, obj}
use grafux_mcp.Json.Envelope.{has_content, tool_error-has_content, tool_text-has_content}
use grafux_mcp.Exceptions.{>>=-ok_inv, Result, Result-cases, thrown, ok, ok_path}
use grafux_mcp.Plugins.{Registry, ToolFunc, ToolInfo}
use grafux_mcp.Tools.{
  Access, Caller, Resolved, authorize, granted, missing_identity, resolve, unauthorized,
}
use grafux_mcp.Tools.Editable.{load_editable}
use grafux_mcp.Tools.Executor.{
  Runtime, attach_warnings, attempt, call_tool_direct, enveloped, fall_back, improvements, or_func,
  put_warnings, regenerate, rescue, run_editable, run_resolved,
}

abbrev HasContent : Json → Type 0
HasContent v = has_content v ≡ true

enveloped-has_content : (rt : Runtime) (v : Json) → has_content (enveloped rt v) ≡ true
unfolding enveloped
enveloped-has_content rt v = elim (Bool-cases (has_content v)) [
  | inl e ↦ rw e e
  | inr e ↦ rw e (tool_text-has_content (rt.to_text v)).0
]

has-insert :
    (k j : String) (v : Json) (d : Dict String Json) → has k d ≡ true → has k (insert j v d) ≡ true
has-insert k j v d h =
    rw (has-lookup k (insert j v d), lookup-insert j k v d) (ground (arith, has-lookup k d))

has_content-insert :
    (fs : Fields) (v : Json)
    → has_content (obj fs) ≡ true
    → has_content (dict (insert "diagnostics" v (entries fs))) ≡ true
unfolding has_content
has_content-insert fs v h =
    rw (entries-of_entries (insert "diagnostics" v (entries fs)))
      (has-insert "content" "diagnostics" v (entries fs) h)

put_warnings-has_content :
    (t : String) (fs : Fields) (o : Option Json) (r : Json)
    → has_content (obj fs) ≡ true
    → put_warnings t fs o ≡ ok r
    → has_content r ≡ true
unfolding put_warnings
put_warnings-has_content t fs none r h e = ok_path HasContent e (has_content-insert fs _ h)
put_warnings-has_content t fs (some (obj d)) r h e =
    ok_path HasContent e (has_content-insert fs _ h)
put_warnings-has_content t fs (some v) r h e = cc

attach-has_content :
    (ws : List String) (v r : Json)
    → has_content v ≡ true
    → attach_warnings ws v ≡ ok r
    → has_content r ≡ true
unfolding attach_warnings
attach-has_content [] v r h e = ok_path HasContent e h
attach-has_content (w ∷ ws) (obj fs) r h e = put_warnings-has_content _ fs _ r h e
attach-has_content (w ∷ ws) v r h e = cc

attempt-has_content :
    (rt : Runtime) (info : ToolInfo) (arguments : Dict String Json) (v : Json)
    → attempt rt info arguments ≡ ok v
    → has_content v ≡ true
unfolding attempt
attempt-has_content rt info arguments v h =
    let (g, h', _) = >>=-ok_inv (load_editable rt.files arguments) _ h in
    let (u, h'', _) = >>=-ok_inv (or_func g info.func arguments).result _ h' in
    attach-has_content (or_func g info.func arguments).warned (enveloped rt u) v
      (enveloped-has_content rt u) h''

rescue-has_content :
    (rt : Runtime) (r : Result Json) (v : Json)
    → ((u : Json) → r ≡ ok u → has_content u ≡ true)
    → rescue rt r ≡ ok v
    → has_content v ≡ true
unfolding rescue
rescue-has_content rt (ok u) v k h = ok_path HasContent h (k u refl)
rescue-has_content rt (thrown e) v k h = ground (
  arith,
  (tool_error-has_content (rt.syntax_report e)
      (improvements "Fix syntax error at indicated line.")).0,
  (tool_error-has_content (rt.traceback e) (improvements (rt.hint e))).0,
)

run_editable-has_content :
    (rt : Runtime) (f : ToolFunc) (arguments : Dict String Json) (v : Json)
    → run_editable rt f arguments ≡ ok v
    → has_content v ≡ true
unfolding run_editable
run_editable-has_content rt f arguments v h = elim (Result-cases (f arguments).result) [
  | inl (u, e) ↦ ok_path HasContent (rw (e, run_editable) at h) (enveloped-has_content rt u)
  | inr (x, e) ↦
      (let h' = rw (e, run_editable) at h in
        ground (arith, (tool_error-has_content (rt.traceback x) (improvements (rt.hint x))).0))
]

fall_back-has_content :
    (rt : Runtime) (tool_name : String) (arguments : Dict String Json) (v : Json)
    → fall_back rt tool_name arguments ≡ ok v
    → has_content v ≡ true
unfolding fall_back
fall_back-has_content rt tool_name arguments v h = go (load_editable rt.files arguments) refl
  where
    go :
        (r : Result (Option ToolFunc)) → load_editable rt.files arguments ≡ r → has_content v ≡ true
    go (ok none) e = cc (rw (e, fall_back) at h)
    go (ok (some f)) e = run_editable-has_content rt f arguments v (rw (e, fall_back) at h)
    go (thrown x) e =
        let h' = rw (e, fall_back) at h in
        ground (arith, (tool_error-has_content x.message (improvements regenerate)).0)

run_resolved-has_content :
    (rt : Runtime) (tool_name : String) (arguments : Dict String Json) (c : Caller)
    (info : ToolInfo) (v : Json)
    → run_resolved rt tool_name arguments c info ≡ ok v
    → has_content v ≡ true
unfolding run_resolved
run_resolved-has_content rt tool_name arguments c info v h = go (authorize c info) refl
  where
    go : (a : Access) → authorize c info ≡ a → has_content v ≡ true
    go granted e =
        rescue-has_content rt (attempt rt info arguments) v (attempt-has_content rt info arguments)
          (rw (e, run_resolved) at h)
    go missing_identity e = cc (rw (e, run_resolved) at h)
    go unauthorized e = cc (rw (e, run_resolved) at h)

-- A call that returns, from a registered tool or from editable code, returns a dict with "content".
pub call_tool_direct-has_content :
    (rt : Runtime) (tool_name : String) (arguments : Dict String Json) (c : Caller) (reg : Registry)
    (v : Json)
    → call_tool_direct rt tool_name arguments c reg ≡ ok v
    → has_content v ≡ true
unfolding call_tool_direct
call_tool_direct-has_content rt tool_name arguments c reg v h = go (resolve c tool_name reg) refl
  where
    go : (r : Resolved) → resolve c tool_name reg ≡ r → has_content v ≡ true
    go none e = fall_back-has_content rt tool_name arguments v (rw (e, call_tool_direct) at h)
    go (some (k, info)) e =
        run_resolved-has_content rt tool_name arguments c info v (rw (e, call_tool_direct) at h)
