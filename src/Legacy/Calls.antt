-- ===== src/Legacy/Calls.antt =====
-- api/legacy.py: legacy_call_tool.
use grafux_mcp.Base.{
  Bool, Dict, List, Option, String, [], false, has_text, if◌then◌else◌, insert, none, some, true,
  values, ℕ, ◌&&◌, ◌==◌, ◌^^◌, ◌∷◌, nat_eq, string_eq, pair_eq,
}
use grafux_mcp.Exceptions.{
  Exc, Result, exc, exception, is_instance, ok, thrown, timeout, value_error,
}
use grafux_mcp.Json.{Json, dict, entries, given, items, list, obj}
use grafux_mcp.Json.Envelope.{tool_error}
use grafux_mcp.Plugins.{text_of}
use grafux_mcp.Plugins.Tree.{Counts, counts}
use grafux_mcp.Tools.{Caller}
use grafux_mcp.Tools.Editable.{infer_category}
use grafux_mcp.Tools.Executor.{call_tool_direct}
use grafux_mcp.Outputs.{Disk, infer_output_port_paths, read_output_files}
use grafux_mcp.Sync.{Local, Report}
use grafux_mcp.Sync.Supabase.{sync_tool_from_supabase}
use grafux_mcp.Legacy.{Host, Request, files_synced, legacy_reload_tools, request_of, tools_loaded}

-- A call with its arguments, which are an object.
pub record Call : Type 0 where
  pub tool_name : String
  pub paths : List String
  pub caller : Caller
  pub arguments : Dict String Json

-- The category is inferred where the body gives none.
unfoldable pub category_of : Option String → Dict String Json → Option String
unfolding given infer_category
category_of category arguments =
    if given category then category else infer_category (values arguments)

-- The call that a request makes; what a tool does with arguments that are no object is not modelled.
unfoldable pub call_of : String → Request → Option Call
unfolding category_of
call_of tool_name r = elim r.arguments [
  | obj fs ↦ some (record {
    tool_name = tool_name;
    paths = r.paths;
    caller = record {
      username = r.username;
      project = r.project;
      category = category_of r.category (entries fs);
    };
    arguments = entries fs;
  })
  | _ ↦ none
]

-- p == q for lists of texts
abbrev pub same_paths : List String → List String → Bool
same_paths [] [] = true
same_paths [] (q ∷ qs) = false
same_paths (p ∷ ps) [] = false
same_paths (p ∷ ps) (q ∷ qs) = p == q && same_paths ps qs

-- inferred and inferred != paths_to_read: then the inferred paths are read instead.
unfoldable pub read_again : Disk → (inferred paths : List String) → List Json
unfolding read_output_files
read_again disk [] paths = []
read_again disk (i ∷ inferred) paths =
    if same_paths (i ∷ inferred) paths then [] else read_output_files disk (i ∷ inferred)

unfoldable pub output_files : Disk → Call → (paths : List String) → List Json
unfolding read_output_files read_again infer_output_port_paths
output_files disk c [] = []
output_files disk c (p ∷ ps) = elim (read_output_files disk (p ∷ ps)) [
  | [] ↦ read_again disk (infer_output_port_paths disk c.arguments) (p ∷ ps)
  | f ∷ fs ↦ f ∷ fs
]

abbrev pub paths_to_read : Disk → Call → List String → List String
paths_to_read disk c [] = infer_output_port_paths disk c.arguments
paths_to_read disk c (p ∷ ps) = p ∷ ps

-- _attach_output_files
unfoldable pub attach_output_files : Disk → Call → Json → Json
unfolding output_files insert
attach_output_files disk c (obj fs) = elim (output_files disk c (paths_to_read disk c c.paths)) [
  | [] ↦ obj fs
  | f ∷ files ↦ dict (insert "output_files" (list (items (f ∷ files))) (entries fs))
]
attach_output_files disk c v = v

-- A response: its status and its body; or the exception that the server answers with a 500.
abbrev pub Answer : Type 0
Answer = Result (ℕ × Json)

abbrev pub tool_failed : Exc → Answer
tool_failed e = ok (200, tool_error ("Tool error: " ^^ e.message) [])

abbrev pub timed_out : Call → Answer
timed_out c = ok (504, tool_error ("Tool '" ^^ c.tool_name ^^ "' timed out after 120 s") [])

-- _invoke, within the time limit
unfoldable pub invoke_tool : Host → (times_out : Bool) → Call → Local → Result Json
unfolding call_tool_direct
invoke_tool host true c l = thrown (exc timeout "")
invoke_tool host false c l =
    call_tool_direct host.runtime c.tool_name c.arguments c.caller l.registry

-- The error is of an unknown tool, and its owner is named: it is looked for in the cloud.
unfoldable pub wants_sync : Exc → Call → Bool
unfolding is_instance has_text given
wants_sync e c =
    is_instance e value_error
    && has_text e.message "Unknown tool"
    && given c.caller.username
    && given c.caller.project

-- Only a ValueError of the second run is caught: the other handlers belong to the first.
unfoldable pub second_answer : Host → Exc → Call → Result Json → Answer
unfolding attach_output_files is_instance tool_error
second_answer host first c (ok v) = ok (200, attach_output_files host.disk c v)
second_answer host first c (thrown e) =
    if is_instance e value_error then tool_failed first else thrown e

abbrev pub then_second : Host → Exc → Call → Result Counts × Local → Answer × Local
then_second host first c (thrown e, l) = (thrown e, l)
then_second host first c (ok counts, l) =
    (second_answer host first c (invoke_tool host host.second_times_out c l), l)

-- A sync that brings nothing is followed by a reload.
unfoldable pub after_sync : Host → Exc → Call → Report × Local → Answer × Local
unfolding second_answer invoke_tool legacy_reload_tools
after_sync host first c (report, l) =
    let direct : Answer × Local =
      (second_answer host first c (invoke_tool host host.second_times_out c l), l) in
    if files_synced report == 0 && tools_loaded report == 0
    then then_second host first c (legacy_reload_tools host l)
    else direct

unfoldable pub sync_and_retry : Host → Exc → Call → Local → Answer × Local
unfolding after_sync sync_tool_from_supabase
sync_and_retry host first c l = after_sync host first c (
    sync_tool_from_supabase host.supabase (text_of c.caller.username) (text_of c.caller.project)
      c.tool_name c.caller.category l)

unfoldable pub handle_error : Host → Exc → Call → Local → Answer × Local
unfolding wants_sync sync_and_retry is_instance tool_error
handle_error host e c l =
    let retried = sync_and_retry host e c l in
    if wants_sync e c
    then retried
    else if is_instance e timeout
    then (timed_out c, l)
    else if is_instance e exception
    then (tool_failed e, l)
    else (thrown e, l)

unfoldable pub answer_call : Host → Call → Local → Answer × Local
unfolding invoke_tool attach_output_files handle_error
answer_call host c l = elim (invoke_tool host host.first_times_out c l) [
  | ok v ↦ (ok (200, attach_output_files host.disk c v), l)
  | thrown e ↦ handle_error host e c l
]

-- The whole endpoint, for a body whose arguments are an object.
unfoldable pub legacy_call_tool :
    Host
    → (tool_name : String) → (username project : Option String) → Option Json
    → Local
    → Option (Answer × Local)
unfolding request_of call_of answer_call
legacy_call_tool host tool_name username project body l =
    elim (call_of tool_name (request_of username project body)) [
      | none ↦ none
      | some c ↦ some (answer_call host c l)
    ]
