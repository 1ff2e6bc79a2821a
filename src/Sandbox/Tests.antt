-- ===== src/Sandbox/Tests.antt =====
-- The sandboxes at concrete inputs, and their theorems at them.
use grafux_mcp.Base.{String, [], false, refl, some, true, ◌∷◌, ◌≡◌, nat_eq, string_eq, pair_eq}
use grafux_mcp.Exceptions.{cancelled, exc, ok, thrown}
use grafux_mcp.Json.{int, pos, str}
use grafux_mcp.Sandbox.{Sandboxes, Service}
use grafux_mcp.Sandbox.Executor.{Script, build_code, execute, output_json, stdout}

abbrev service : Service
service = record {
  api_key = "key";
  now = 50;
  create = ok "sb1";
  reconnect = λ id. ok id;
  commit = ok tt;
}

-- The same service, 200 seconds later.
abbrev later : Service
later = record service { now = 250; create = ok "sb2" }

abbrev none_yet : Sandboxes
none_yet = record { sessions = []; logs = []; closed = [] }

-- A cell that prints and then fails.
abbrev failing : String → Script
failing code = record {
  cell_output = stdout "a" ∷ [];
  cell = ok (record { texts = []; error = some "NameError: x" });
  process_output = [];
  process = ok 0;
}

-- A cell that is cancelled.
abbrev cancelling : String → Script
cancelling code = record (failing code) { cell = thrown (exc cancelled "") }

-- The error is told by isError alone: its text is not in the result.
failed_cell : execute service failing (λ v. "") "x" [] true "o1" false none_yet ≡ (
  ok (
      output_json
        (record { output = "a"; stdout = "a"; stderr = ""; exit_code = 0; error = true })),
  record { sessions = []; logs = ("stdout", "a") ∷ []; closed = "sb1" ∷ [] },
)
unfolding execute
failed_cell = refl

generated :
    build_code (λ v. "1") (("x", int (pos 1)) ∷ ("body", str "a\nb") ∷ [])
    ≡ "# Auto-generated execution from tool arguments\nx = 1\n# body:\na\nb\nprint('Done')"
unfolding build_code
generated = refl
