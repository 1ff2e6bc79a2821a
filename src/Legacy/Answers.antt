-- ===== src/Legacy/Answers.antt =====
-- api/legacy.py: what legacy_call_tool answers.
use grafux_mcp.Base.{
  Bool-cases, [], false, inl, inr, refl, true, ℕ, ◌==◌, ◌^^◌, ◌∙◌, ◌≡◌, nat_eq, string_eq, pair_eq,
}
use grafux_mcp.Exceptions.{Exc, Result-cases, exc, exception, is_instance, ok, thrown, timeout}
use grafux_mcp.Json.{Json}
use grafux_mcp.Json.Envelope.{tool_error}
use grafux_mcp.Plugins.{text_of}
use grafux_mcp.Tools.Executor.{call_tool_direct}
use grafux_mcp.Sync.{Local, Report}
use grafux_mcp.Sync.Supabase.{sync_tool_from_supabase}
use grafux_mcp.Legacy.{Host, files_synced}
use grafux_mcp.Legacy.Calls.{
  Call, after_sync, answer_call, attach_output_files, handle_error, invoke_tool, second_answer,
  sync_and_retry, wants_sync,
}

-- A call answers if it gives a response, and leaves the local tree and the registries.
abbrev pub Answers : Host → Call → Local → Type 0
Answers host c l = (response : ℕ × Json) × (answer_call host c l ≡ (ok response, l))

handle_error_answers :
    (host : Host) (e : Exc) (c : Call) (l : Local)
    → wants_sync e c ≡ false
    → is_instance e exception ≡ true
    → (response : ℕ × Json) × (handle_error host e c l ≡ (ok response, l))
unfolding handle_error
handle_error_answers host e c l local caught = elim (Bool-cases (is_instance e timeout)) [
  | inl q ↦ (
    (504, tool_error ("Tool '" ^^ c.tool_name ^^ "' timed out after 120 s") []),
    rw (local, q) refl,
  )
  | inr q ↦ ((200, tool_error ("Tool error: " ^^ e.message) []), rw (local, q) (rw caught refl))
]

-- Every call is answered with a response, whose error if any is in its body, and changes nothing on
-- the server, if its first run does not fail with an unknown tool of a named owner.
pub answer_call-Answers :
    (host : Host) (c : Call) (l : Local)
    → ((e : Exc)
        → invoke_tool host host.first_times_out c l ≡ thrown e
        → (wants_sync e c ≡ false) × (is_instance e exception ≡ true))
    → Answers host c l
unfolding answer_call
answer_call-Answers host c l known =
    elim (Result-cases (invoke_tool host host.first_times_out c l)) [
      | inl (v, q) ↦ ((200, attach_output_files host.disk c v), rw (q, answer_call) refl)
      | inr (e, q) ↦
          let h = known e q in rw (q, answer_call) (handle_error_answers host e c l h.0 h.1)
    ]

module _ (host : Host) (e : Exc) (c : Call) (l l' : Local) (report : Report)
    (first : invoke_tool host host.first_times_out c l ≡ thrown e) (wants : wants_sync e c ≡ true)
    (synced : sync_tool_from_supabase host.supabase
        (text_of c.caller.username)
        (text_of c.caller.project)
        c.tool_name
        c.caller.category
        l
      ≡ (report, l'))
    (brought : (files_synced report == 0) ≡ false) where
  retried :
      answer_call host c l
      ≡ (second_answer host e c (invoke_tool host host.second_times_out c l'), l')
  unfolding answer_call handle_error sync_and_retry after_sync
  retried = rw (first, answer_call) (rw wants (rw (synced, after_sync) (rw brought refl)))

-- Where the first run fails with an unknown tool of a named owner and the sync brings files, the tool
-- is run again with the registries that the sync has loaded, and what it gives is the answer. But a
-- second run that passes the time limit raises, and is not answered with a 504 as the first one is.
pub answer_call-retried :
    (host : Host) (e : Exc) (c : Call) (l l' : Local) (report : Report)
    → invoke_tool host host.first_times_out c l ≡ thrown e
    → wants_sync e c ≡ true
    → sync_tool_from_supabase host.supabase
        (text_of c.caller.username)
        (text_of c.caller.project)
        c.tool_name
        c.caller.category
        l
      ≡ (report, l')
    → (files_synced report == 0) ≡ false
    → ((v : Json)
        → host.second_times_out ≡ false
        → call_tool_direct host.runtime c.tool_name c.arguments c.caller l'.registry ≡ ok v
        → answer_call host c l ≡ (ok (200, attach_output_files host.disk c v), l'))
      × (host.second_times_out ≡ true → answer_call host c l ≡ (thrown (exc timeout ""), l'))
unfolding invoke_tool second_answer
answer_call-retried host e c l l' report first wants synced brought =
    let again = retried host e c l l' report first wants synced brought in
    (λ v in_time ran. again ∙ rw (in_time, ran), λ late. again ∙ rw late refl)
