-- ===== src/Tool/Shell.antt =====
-- internal/tool/shell.go: the shell tool. The shell itself is an argument: what running a command in a
-- directory with a timeout in nanoseconds ends with, and what it prints.
use agent_ops.Prelude.{
  ℕ, ◌+◌, ◌*◌, ◌≤◌, ◌<◌, suc, Str, lit, Option, none, some, Result, ok, err, ◌++◌, ◌≡◌, ◌>>=◌, ◌↔◌,
  Bool, true, false, ◌&&◌, if◌then◌else◌, is_blank, ltb, length, take,
}
use agent_ops.Prelude.Int.{ℤ, pos, negsuc, is_positive, pos_part, wrap64}
use agent_ops.Prelude.Text.{itoa}
use agent_ops.Tool.Remote.{ToolResult}

pub record ShellTool : Type 0 where
  pub max_output_bytes : ℕ
  pub default_timeout : ℕ

abbrev pub second : ℕ
second = 1_000_000_000

abbrev pub new_shell_tool : ShellTool
new_shell_tool = record { max_output_bytes = 64 * 1024; default_timeout = 60 * second }

pub record ShellArgs : Type 0 where
  pub command : Str
  pub cwd : Str
  pub timeout_seconds : ℤ

-- how cmd.Run ends: without an error, with an exit code, or without having run, in which case the flag
-- says whether the deadline has passed
pub data Ending : Type 0 where
  success : Ending
  exit_error : ℤ → Ending
  not_run : Bool → Ending

pub data ShellError : Type 0 where
  parse_args command_required start : ShellError

abbrev pub Shell : Type 0
Shell = Str → Str → ℤ → Ending × Str

-- `%d`
unfoldable pub show_int : ℤ → Str
show_int (pos n) = itoa n
show_int (negsuc n) = lit "-" ++ itoa (suc n)

unfoldable pub exit_code : Ending → Result ShellError ℤ
exit_code success = ok (pos 0)
exit_code (exit_error code) = ok code
exit_code (not_run true) = ok (pos 124)
exit_code (not_run false) = err start

-- `time.Duration(a.TimeoutSeconds) * time.Second` may wrap around
unfoldable pub timeout_of : ShellTool → ShellArgs → ℤ
timeout_of t a =
    if is_positive a.timeout_seconds
    then wrap64 (pos_part a.timeout_seconds * second)
    else pos t.default_timeout

abbrev pub truncated_mark : Str
truncated_mark = lit "\n[... truncated ...]"

abbrev pub over_budget : ShellTool → Str → Bool
over_budget t body = ltb 0 t.max_output_bytes && ltb t.max_output_bytes (length body)

unfoldable pub clamp_output : ShellTool → Str → Str
clamp_output t body =
    if over_budget t body then take t.max_output_bytes body ++ truncated_mark else body

unfoldable pub report : ShellTool → ℤ → Str → ToolResult
unfolding clamp_output show_int
report t code body = record {
  output = lit "exit=" ++ show_int code ++ lit "\n" ++ clamp_output t body;
  truncated = over_budget t body;
  sensitive = false;
}

abbrev pub finish : ShellTool → Ending × Str → Result ShellError ToolResult
finish t (ending, body) = exit_code ending >>= λ code. ok (report t code body)

-- `args` is what json.Unmarshal makes of the raw arguments, `none` if it fails
unfoldable pub invoke : Shell → ShellTool → Option ShellArgs → Result ShellError ToolResult
unfolding exit_code report timeout_of
invoke shell t none = err parse_args
invoke shell t (some a) =
    if is_blank a.command
    then err command_required
    else finish t (shell a.command a.cwd (timeout_of t a))

-- the code that is shown for a command's end: 0, its own exit code, or 124 after the deadline
pub data IsCode : Ending → ℤ → Type 0 where
  without_error : IsCode success (pos 0)
  own_code : (code : ℤ) → IsCode (exit_error code) code
  timed_out : IsCode (not_run true) (pos 124)

-- the time that a command gets, in nanoseconds as an int64: the given seconds if there is at least one
pub record IsTimeout (t : ShellTool) (a : ShellArgs) (d : ℤ) : Type 0 where
  pub given : (n : ℕ) → 0 < n → a.timeout_seconds ≡ pos n → d ≡ wrap64 (n * 1_000_000_000)
  pub none_given : a.timeout_seconds ≡ pos 0 → d ≡ pos t.default_timeout
  pub negative : (n : ℕ) → a.timeout_seconds ≡ negsuc n → d ≡ pos t.default_timeout

-- what the model sees of a finished command
pub record IsFaithful (t : ShellTool) (end : Ending) (body : Str) (r : ToolResult) : Type 0 where
  pub code : ℤ
  pub is_code : IsCode end code
  pub shown : Str
  pub layout : r.output ≡ lit "exit=" ++ show_int code ++ lit "\n" ++ shown
  pub bounded : length shown ≤ t.max_output_bytes + 20
  pub whole : r.truncated ≡ false → shown ≡ body
  pub cut : r.truncated ≡ true → shown ≡ take t.max_output_bytes body ++ truncated_mark
  pub flagged : (r.truncated ≡ true) ↔ (t.max_output_bytes < length body)
