-- ===== src/ClaudeCli/Stream.antt =====
-- internal/driver/claudecli/claudecli.go: parseStream and what it takes from a message. The lines are
-- those of bufio.Scanner, and what encoding/json makes of a text is an argument.
use agent_ops.Prelude.{
  ℕ, ◌+◌, Str, lit, str_eq, Option, none, some, Result, ok, err, List, [], ◌∷◌, ◌++◌, length, Bool,
  false, is_nil, ltb, if◌then◌else◌,
}
use agent_ops.Task.Filter.{truncate}

-- the last event of a run; the cost is the int64 that the source makes of the number of dollars
pub record StreamResult : Type 0 where
  pub result : Str
  pub cost_usd_micro : ℕ
  pub num_turns : ℕ
  pub is_error : Bool
  pub error_message : Str

pub record Envelope : Type 0 where
  pub type : Str
  pub message : Str

-- a block of an assistant's message
pub record Block : Type 0 where
  pub type : Str
  pub text : Str
  pub name : Str

-- what the content of a result decodes to: a string, an array of types and texts, or neither
pub data ResultContent : Type 0 where
  as_string : Str → ResultContent
  as_array : List (Str × Str) → ResultContent
  as_neither : ResultContent

pub record ResultBlock : Type 0 where
  pub type : Str
  pub tool_use_id : Str
  pub is_error : Bool
  pub content : ResultContent

pub record StreamJson : Type 0 where
  pub envelope : Str → Option Envelope
  pub blocks : Str → Option (List Block)
  pub result_blocks : Str → Option (List ResultBlock)
  pub result : Str → Result Str StreamResult

-- a line of the daemon's log, without the time that has passed
pub data Progress : Type 0 where
  turn : ℕ → Str → Str → Progress
  tool_done : ℕ → Str → Bool → Str → Str → Progress

abbrev pub if_empty : Str → Str → Str
if_empty [] new = new
if_empty (c ∷ old) new = c ∷ old

abbrev pub signal_of : Block → Str × Str → Str × Str
signal_of b (tool, text) =
    if str_eq b.type (lit "tool_use")
    then (if_empty tool b.name, text)
    else if str_eq b.type (lit "text")
    then (tool, if_empty text b.text)
    else (tool, text)

-- the first name of a tool that is not empty, and the first text
abbrev pub signals : List Block → Str × Str → Str × Str
signals [] found = found
signals (b ∷ bs) found = signals bs (signal_of b found)

abbrev signals_of : Option (List Block) → Str × Str
signals_of none = ([], [])
signals_of (some bs) = signals bs ([], [])

unfoldable pub extract_assistant_signal : StreamJson → Str → Str × Str
extract_assistant_signal j raw = if is_nil raw then ([], []) else signals_of (j.blocks raw)

abbrev pub first_text : List (Str × Str) → Str
first_text [] = []
first_text ((type, text) ∷ es) =
    let rest = first_text es in
    if str_eq type (lit "text") then (if is_nil text then rest else text) else rest

abbrev pub snippet : ResultContent → Str
snippet (as_string s) = s
snippet (as_array es) = first_text es
snippet as_neither = []

abbrev pub first_result : List ResultBlock → Str × Bool × Str
first_result [] = ([], false, [])
first_result (b ∷ bs) =
    let rest = first_result bs in
    if str_eq b.type (lit "tool_result")
    then (b.tool_use_id, b.is_error, snippet b.content)
    else rest

abbrev result_of : Option (List ResultBlock) → Str × Bool × Str
result_of none = ([], false, [])
result_of (some bs) = first_result bs

unfoldable pub extract_tool_result : StreamJson → Str → Str × Bool × Str
extract_tool_result j raw = if is_nil raw then ([], false, []) else result_of (j.result_blocks raw)

pub record ParsedStream : Type 0 where
  pub result : Option StreamResult
  pub event_count : ℕ
  pub raw_tail : Str

-- the variables of the loop, and the lines that it logged
pub record Scan : Type 0 where
  pub out : ParsedStream
  pub turns : ℕ
  pub last_tool : Str
  pub tail : Str
  pub log : List Progress

abbrev pub tail_budget : ℕ
tail_budget = 4096

abbrev pub start : Scan
start = record {
  out = record { result = none; event_count = 0; raw_tail = [] };
  turns = 0;
  last_tool = [];
  tail = [];
  log = [];
}

unfoldable pub keep_tail : Str → Str → Str
keep_tail line tail =
    if ltb tail_budget (length tail + length line + 1)
    then line ++ 10 ∷ []
    else tail ++ (line ++ 10 ∷ [])

abbrev pub seen : Str → Scan → Scan
seen line s = record s {
  out = record s.out { event_count = s.out.event_count + 1 };
  tail = keep_tail line s.tail;
}

abbrev pub or_last : Str → Str → Str
or_last [] last = last
or_last (c ∷ tool) last = c ∷ tool

abbrev pub on_assistant : Str × Str → Scan → Scan
on_assistant (tool, text) s = record s {
  turns = s.turns + 1;
  last_tool = or_last tool s.last_tool;
  log = s.log ++ turn (s.turns + 1) tool (truncate text 200) ∷ [];
}

abbrev pub on_user : Str × Bool × Str → Scan → Scan
on_user (id, is_error, output) s = record s {
  log = s.log ++ tool_done s.turns s.last_tool is_error id (truncate output 200) ∷ [];
}

-- what a line does: the loop goes on, or it ends with an error
abbrev pub Next : Type 0
Next = Scan × Option Str

abbrev pub on_result : Result Str StreamResult → Scan → Next
on_result (err e) s = (s, some (lit "parse result event: " ++ e))
on_result (ok r) s = (record s { out = record s.out { result = some r; raw_tail = s.tail } }, none)

pub data Event : Type 0 where
  assistant user result other : Event

unfoldable pub event_named : Str → Event
event_named type =
    if str_eq type (lit "assistant")
    then assistant
    else if str_eq type (lit "user")
    then user
    else if str_eq type (lit "result")
    then result
    else other

abbrev pub on_event : StreamJson → Str → Str → Event → Scan → Next
on_event j line message assistant s = (on_assistant (extract_assistant_signal j message) s, none)
on_event j line message user s = (on_user (extract_tool_result j message) s, none)
on_event j line message result s = on_result (j.result line) s
on_event j line message other s = (s, none)

abbrev pub on_envelope : StreamJson → Str → Option Envelope → Scan → Next
on_envelope j line none s = (s, none)
on_envelope j line (some e) s = on_event j line e.message (event_named e.type) s

unfoldable pub on_line : StreamJson → Str → Scan → Next
on_line j line s =
    if is_nil line then (s, none) else on_envelope j line (j.envelope line) (seen line s)

abbrev pub with_tail : Str → ParsedStream → ParsedStream
with_tail tail out = record out { raw_tail = tail }

-- scanner.Err()
abbrev pub at_end : Option Str → Scan → Next
at_end (some e) s = (record s { out = with_tail s.tail s.out }, some (lit "scan stream: " ++ e))
at_end none s = (record s { out = with_tail (if_empty s.out.raw_tail s.tail) s.out }, none)

abbrev pub unless_stopped : Next → (Scan → Next) → Next
unless_stopped (s, some e) rest = (s, some e)
unless_stopped (s, none) rest = rest s

unfoldable pub scan_lines : StreamJson → List Str → Option Str → Scan → Next
scan_lines j [] failed s = at_end failed s
scan_lines j (line ∷ lines) failed s =
    unless_stopped (on_line j line s) (λ t. scan_lines j lines failed t)

-- the lines, and the scanner's error behind them
unfoldable pub parse_stream : StreamJson → List Str → Option Str → Next
parse_stream j lines failed = scan_lines j lines failed start
