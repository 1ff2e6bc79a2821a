-- ===== src/Execution/Requests.antt =====
-- What the callers of the service can rely on.
use grafux_mcp.Base.{
  String, arith, contains, contains-add, contains-discard, eq_iff, false, insert, lookup,
  lookup-erase_self, lookup-insert_self, none, true, ℕ, ◌∙◌, ◌≡◌, nat_eq, string_eq, pair_eq,
}
use grafux_mcp.Json.{Json}
use grafux_mcp.Json.Envelope.{}
use grafux_mcp.Exceptions.{Result, ok}
use grafux_mcp.Cancellation.{Events, register, unregister}
use grafux_mcp.Execution.{Ref, Turn, World}
use grafux_mcp.Execution.Run.{run}
use grafux_mcp.Execution.Service.{
  Request, ToolRows, create_invocation, invoke, invoke_async, new_row, ref_of, resolve_tool_routing,
  run_background, with_event,
}
use grafux_mcp.Execution.Outcome.{Ends, as_cancelled, as_done, as_failed, run-Ends}

Ends-with_event :
    (ref : Ref) (r : Result Json) (f : Events → Events) (w : World)
    → Ends ref r w
    → Ends ref r (with_event f w)
Ends-with_event ref r f w (as_done v row a b c d) = as_done v row a b c d
Ends-with_event ref r f w (as_cancelled row a b c) = as_cancelled row a b c
Ends-with_event ref r f w (as_failed m row a b c d) = as_failed m row a b c d

-- A synchronous invocation whose pauses are not cancelled returns, with its row ended as it
-- returned, and with its cancellation event taken away.
pub invoke-Ends :
    (id : String) (r : Request) (tools : ToolRows) (seconds : String) (turns : ℕ → Turn) (w : World)
    → ((k : ℕ) → (turns k).slept ≡ ok tt)
    → Ends (ref_of id r) (invoke id r tools seconds turns w).0 (invoke id r tools seconds turns w).1
      × (lookup id (invoke id r tools seconds turns w).1.events.flags ≡ none)
unfolding invoke create_invocation unregister
invoke-Ends id r tools seconds turns w s =
    let row = new_row r (resolve_tool_routing r.tool_id tools).server_type w.clock in
    let w1 = with_event (register id) (record w { rows = insert id row w.rows }) in
    (
      Ends-with_event (ref_of id r) _ (unregister id) (run (ref_of id r) seconds turns w1).1
          (run-Ends (ref_of id r) seconds turns w1 s (row, lookup-insert_self id row w.rows)),
      lookup-erase_self id (run (ref_of id r) seconds turns w1).1.events.flags,
    )

-- The background task is tracked from the moment the id is returned until it ends.
pub invoke_async-tracked :
    (id : String) (r : Request) (tools : ToolRows) (seconds : String) (turns : ℕ → Turn) (w : World)
    → (contains (invoke_async id r tools w).1.tasks id ≡ true)
      × (contains
            (run_background (ref_of id r) seconds turns (invoke_async id r tools w).1).tasks
            id
          ≡ false)
unfolding invoke_async run_background create_invocation
invoke_async-tracked id r tools seconds turns w = (
  contains-add id id w.tasks ∙ ground (arith, eq_iff id id),
  contains-discard id id _ ∙ ground (arith, eq_iff id id),
)
