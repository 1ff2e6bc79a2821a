-- ===== src/Sandbox/Executor.antt =====
-- integrations/e2b/executor.py.
use grafux_mcp.Base.{
  Bool, Dict, List, Option, String, [], false, has_text, if◌then◌else◌, none, not, some, true,
  truthy_text, ℕ, ◌&&◌, ◌++◌, ◌==◌, ◌^^◌, ◌∷◌, nat_eq, string_eq, pair_eq,
}
use grafux_mcp.Exceptions.{Result, attribute_error, exception, is_instance, ok, thrown, ◌>>=◌}
use grafux_mcp.Json.{Json, bool, dict, int, pos, str}
use grafux_mcp.Json.Envelope.{text_content, tool_error}
use grafux_mcp.Sandbox.{Acquired, Sandboxes, Service, get_or_create_sandbox}

-- What a cell ends with: the texts of its rich results, and its error.
pub record Execution : Type 0 where
  pub texts : List (Option String)
  pub error : Option String

-- A piece of output, of stdout or of stderr.
pub data Chunk : Type 0 where
  stdout stderr : String → Chunk

-- What running code gives: the output on the way, and how the cell ends; and the same for the basic
-- process, with its exit code.
pub record Script : Type 0 where
  pub cell_output : List Chunk
  pub cell : Result Execution
  pub process_output : List Chunk
  pub process : Result ℕ

abbrev pub out_text : List Chunk → String
out_text [] = ""
out_text (stdout t ∷ cs) = t ^^ out_text cs
out_text (stderr t ∷ cs) = out_text cs

abbrev pub err_text : List Chunk → String
err_text [] = ""
err_text (stdout t ∷ cs) = err_text cs
err_text (stderr t ∷ cs) = t ^^ err_text cs

-- publish_log, for each chunk
abbrev pub log_chunks : List Chunk → Sandboxes → Sandboxes
log_chunks [] w = w
log_chunks (stdout t ∷ cs) w = log_chunks cs (record w { logs = w.logs ++ ("stdout", t) ∷ [] })
log_chunks (stderr t ∷ cs) w = log_chunks cs (record w { logs = w.logs ++ ("stderr", t) ∷ [] })

-- The dict that _run_in_sandbox returns.
pub record Output : Type 0 where
  pub output : String
  pub stdout : String
  pub stderr : String
  pub exit_code : ℕ
  pub error : Bool

abbrev pub rich_texts : List (Option String) → String
rich_texts [] = ""
rich_texts (none ∷ ts) = rich_texts ts
rich_texts (some t ∷ ts) = t ^^ rich_texts ts

-- bool(error)
unfoldable pub given_text : Option String → Bool
unfolding truthy_text
given_text none = false
given_text (some t) = truthy_text t

-- The stderr that the cell's error is added to is a local variable: the dict has the chunks alone.
unfoldable pub cell_result : List Chunk → Execution → Output
unfolding given_text
cell_result chunks x = record {
  output = out_text chunks ^^ rich_texts x.texts;
  stdout = out_text chunks;
  stderr = err_text chunks;
  exit_code = 0;
  error = given_text x.error;
}

unfoldable pub process_result : List Chunk → ℕ → Output
unfolding truthy_text
process_result chunks exit_code = record {
  output = if truthy_text (out_text chunks) then out_text chunks else err_text chunks;
  stdout = out_text chunks;
  stderr = err_text chunks;
  exit_code = exit_code;
  error = not (exit_code == 0);
}

abbrev pub run_process : Script → List Chunk → Sandboxes → Result Output × Sandboxes
run_process s before w = elim s.process [
  | thrown e ↦ (thrown e, log_chunks s.process_output w)
  | ok code ↦ (ok (process_result (before ++ s.process_output) code), log_chunks s.process_output w)
]

-- An AttributeError of the cell makes the code run again as a process.
unfoldable pub run_in_sandbox : Script → Sandboxes → Result Output × Sandboxes
unfolding cell_result process_result is_instance
run_in_sandbox s w =
    let w' = log_chunks s.cell_output w in
    elim s.cell [
      | ok x ↦ (ok (cell_result s.cell_output x), w')
      | thrown e ↦
          if is_instance e attribute_error then run_process s s.cell_output w' else (thrown e, w')
    ]

abbrev pub output_json : Output → Json
output_json o = dict (
    ("content", text_content o.output)
    ∷ ("isError", bool o.error)
    ∷ (
      "diagnostics",
      dict (
          ("stdout", str o.stdout)
          ∷ ("stderr", str o.stderr)
          ∷ ("exit_code", int (pos o.exit_code))
          ∷ []),
    )
    ∷ [])

-- An exception is logged and becomes an error envelope; a cancellation goes on.
unfoldable pub envelope_of : Result Output → Sandboxes → Result Json × Sandboxes
unfolding tool_error is_instance
envelope_of (ok o) w = (ok (output_json o), w)
envelope_of (thrown e) w =
    if is_instance e exception
    then (
      ok (tool_error e.message []),
      record w { logs = w.logs ++ ("error", "Sandbox error: " ^^ e.message) ∷ [] },
    )
    else (thrown e, w)

-- The finally block: an ephemeral sandbox is told to close; what that raises is logged.
unfoldable pub tear_down :
    (persistent_sandbox : Bool)
    → (sandbox : String) → (is_new : Bool) → Result Json × Sandboxes
    → Result Json × Sandboxes
tear_down persistent_sandbox sandbox is_new (r, w) =
    if is_new && not persistent_sandbox
    then (r, record w { closed = w.closed ++ sandbox ∷ [] })
    else (r, w)

-- The sandbox of the database's session, or a new one.
unfoldable pub acquire_sandbox :
    Service
    → (has_db : Bool) → (org_id : String) → (persistent : Bool) → Sandboxes
    → Acquired × Sandboxes
unfolding get_or_create_sandbox
acquire_sandbox v true org_id persistent w = get_or_create_sandbox v org_id persistent w
acquire_sandbox v false org_id persistent w = (v.create >>= λ id. ok (id, true), w)

abbrev pub with_sandbox :
    Script → (persistent : Bool) → Acquired × Sandboxes → Result Json × Sandboxes
with_sandbox s persistent (thrown e, w) = envelope_of (thrown e) w
with_sandbox s persistent (ok (id, is_new), w) =
    tear_down persistent id is_new (envelope_of (run_in_sandbox s w).0 (run_in_sandbox s w).1)

-- An argument as a line of code; a text of several lines is taken as code itself.
unfoldable pub argument_lines : (repr : Json → String) → String → Json → List String
unfolding has_text
argument_lines repr k (str v) =
    if has_text v "\n" then ("# " ^^ k ^^ ":") ∷ v ∷ [] else (k ^^ " = " ^^ repr (str v)) ∷ []
argument_lines repr k v = (k ^^ " = " ^^ repr v) ∷ []

unfoldable pub lines_of : (repr : Json → String) → Dict String Json → List String
unfolding argument_lines
lines_of repr [] = "print('Done')" ∷ []
lines_of repr ((k, v) ∷ arguments) = argument_lines repr k v ++ lines_of repr arguments

abbrev pub joined_lines : List String → String
joined_lines [] = ""
joined_lines (l ∷ []) = l
joined_lines (l ∷ m ∷ ls) = l ^^ "\n" ^^ joined_lines (m ∷ ls)

-- _build_code_from_arguments
unfoldable pub build_code : (repr : Json → String) → Dict String Json → String
unfolding lines_of
build_code repr arguments =
    joined_lines ("# Auto-generated execution from tool arguments" ∷ lines_of repr arguments)

-- `script` says how the code runs.
unfoldable pub execute :
    Service
    → (script : String → Script) → (repr : Json → String) → (code : String)
    → (arguments : Dict String Json) → (has_db : Bool) → (org_id : String) → (persistent : Bool)
    → Sandboxes
    → Result Json × Sandboxes
unfolding truthy_text build_code acquire_sandbox run_in_sandbox envelope_of tear_down
execute v script repr code arguments has_db org_id persistent w =
    let source = if truthy_text code then code else build_code repr arguments in
    with_sandbox (script source) persistent (acquire_sandbox v has_db org_id persistent w)
