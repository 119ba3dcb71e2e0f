-- ===== src/ClaudeCli/Run.antt =====
-- internal/driver/claudecli/claudecli.go: Driver.Run. The process is an argument: the errors of its pipe,
-- its start and its end, the lines that it writes, and its output of errors as it comes.
use agent_ops.Prelude.{
  ℕ, Str, lit, trim_space, Option, none, some, List, [], ◌∷◌, ◌++◌, ◌==◌, is_nil, if◌then◌else◌,
}
use agent_ops.Prelude.Text.{itoa}
use agent_ops.State.Data.{Store}
use agent_ops.Task.Runner.{Request, DriverResult, Driver}
use agent_ops.ClaudeCli.CapWriter.{new_cap_writer, write_all}
use agent_ops.ClaudeCli.Stream.{StreamResult, StreamJson, Next, parse_stream}

pub record ClaudeCli : Type 0 where
  pub binary : Str
  pub model : Str
  pub allowed_tools : Str
  pub permission_mode : Str

pub record Process : Type 0 where
  pub pipe_error : Option Str
  pub start_error : Option Str
  pub stdout : List Str
  pub scan_error : Option Str
  pub stderr : List Str
  pub exit_error : Option Str

abbrev pub or_else : Str → Str → Str
or_else [] default = default
or_else (c ∷ s) default = c ∷ s

abbrev pub default_max_turns : ℕ
default_max_turns = 25

abbrev pub combined : Request → Str
combined req =
    if is_nil (trim_space req.system_prompt)
    then req.user_prompt
    else req.system_prompt ++ 10 ∷ 10 ∷ req.user_prompt

abbrev pub max_turns : Request → ℕ
max_turns req = if req.max_tool_calls == 0 then default_max_turns else req.max_tool_calls

abbrev pub model_flag : Str → List Str
model_flag [] = []
model_flag (c ∷ m) = lit "--model" ∷ (c ∷ m) ∷ []

-- the command and its arguments
unfoldable pub command_line : ClaudeCli → Request → Str × List Str
command_line d req = (
  or_else d.binary (lit "claude"),
  (lit "--print"
        ∷ combined req
        ∷ lit "--output-format"
        ∷ lit "stream-json"
        ∷ lit "--verbose"
        ∷ lit "--permission-mode"
        ∷ or_else d.permission_mode (lit "acceptEdits")
        ∷ lit "--allowedTools"
        ∷ or_else d.allowed_tools (lit "Bash,Read,Write,Edit")
        ∷ lit "--max-turns"
        ∷ itoa (max_turns req)
        ∷ [])
      ++ model_flag (or_else req.model d.model),
)

abbrev pub failed_result : Str → Str → DriverResult
failed_result message error = record {
  final_message = message;
  tool_calls = 0;
  cost_usd_micro = 0;
  error = error;
}

abbrev pub result_of : StreamResult → DriverResult
result_of r = record {
  final_message = r.result;
  tool_calls = r.num_turns;
  cost_usd_micro = r.cost_usd_micro;
  error = if r.is_error then r.error_message else [];
}

abbrev pub parsed_result : Option StreamResult → Str → Option Str → DriverResult
parsed_result (some r) raw parse_error = result_of r
parsed_result none raw (some e) =
    failed_result (trim_space raw) (lit "claude CLI: parse stream: " ++ e)
parsed_result none raw none =
    failed_result (trim_space raw) (lit "claude CLI: stream ended without result event")

unfoldable pub stderr_of : List Str → Str
stderr_of chunks = trim_space (write_all chunks (new_cap_writer 8192)).dst

abbrev pub exited : Option Str → List Str → Next → DriverResult
exited (some e) stderr s =
    failed_result [] (lit "claude CLI failed: " ++ e ++ lit ": " ++ stderr_of stderr)
exited none stderr (s, e) = parsed_result s.out.result s.out.raw_tail e

abbrev pub started : StreamJson → Process → Option Str → DriverResult
started j p (some e) = failed_result [] (lit "claude CLI start failed: " ++ e)
started j p none = exited p.exit_error p.stderr (parse_stream j p.stdout p.scan_error)

abbrev pub piped : StreamJson → Process → Option Str → DriverResult
piped j p (some e) = failed_result [] (lit "claudecli: stdout pipe: " ++ e)
piped j p none = started j p p.start_error

unfoldable pub run_process : StreamJson → Process → DriverResult
run_process j p = piped j p p.pipe_error

-- Driver.Run: it gives no error, and leaves the store to the tools of the command
unfoldable pub claude_cli_driver :
    ClaudeCli → StreamJson → (Str × List Str → Store → Process × Store) → Driver
claude_cli_driver d j spawn req s =
    let (p, s') = spawn (command_line d req) s in
    record { result = run_process j p; error = none; store = s' }
