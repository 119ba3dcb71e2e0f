-- ===== src/Claude/Loop.antt =====
-- internal/driver/claude/claude.go: Driver.Run. The API is an argument, and so are the tools' effects:
-- what invoking a tool of that name with that input answers, and the store that it leaves.
use agent_ops.Prelude.{
  ℕ, zero, suc, ◌+◌, ◌/◌, Str, lit, Option, none, some, Result, ok, err, List, [], ◌∷◌, ◌++◌, true,
  false, if◌then◌else◌, is_nil, str_eq, ◌==◌,
}
use agent_ops.Prelude.Text.{itoa}
use agent_ops.Tool.Registry.{Tool, Registry, get_tool}
use agent_ops.Tool.Remote.{ToolResult}
use agent_ops.State.Data.{Store}
use agent_ops.State.Tx.{Faults}
use agent_ops.Task.Filter.{truncate}
use agent_ops.Task.Runner.{Sink, Request, DriverResult, Driver, sink_log}
use agent_ops.Claude.Wire.{
  user, assistant, Content, text, tool_result, Message, ClaudeRequest, ClaudeResponse, Reply,
  not_built, not_sent, responded, ToolUse, assistant_text, tool_uses, claude_tool_specs,
}

pub record ClaudeDriver : Type 0 where
  pub api_key : Str
  pub model : Str
  pub max_output_tokens : ℕ

abbrev pub Api : Type 0
Api = ClaudeRequest → Reply

-- a tool's result, or its error
pub data Invocation : Type 0 where
  done : ToolResult → Invocation
  failed : Str → Invocation

-- the tools' effects; for each line of the log the calls that fail and its time; and fmt's %q
pub record Surroundings : Type 0 where
  pub invoke : Str → Str → Store → Invocation × Store
  pub log_call : ℕ → Faults × ℕ
  pub quote : Str → Str

-- the conversation, the count, the log and the store, as the loop changes them
pub record Conv : Type 0 where
  pub messages : List Message
  pub tool_calls : ℕ
  pub sink : Sink
  pub store : Store

-- `_ = req.LogSink.Log(…)`
unfoldable pub log_line : Surroundings → Str → Str → Conv → Conv
log_line env level message c =
    let (f, now) = env.log_call (c.sink.seq + 1) in
    let (k, s) = sink_log f now level message c.sink c.store in record c { sink = k; store = s }

abbrev pub counted : Conv → Conv
counted c = record c { tool_calls = c.tool_calls + 1 }

abbrev pub shown : ToolResult → Str
shown r = if r.sensitive then lit "[sensitive output redacted]" else r.output

unfoldable pub after_invoke : Surroundings → ToolUse → Invocation × Store → Conv → Content × Conv
after_invoke env u (failed e, s) c = (
  tool_result u.id (lit "error: " ++ e) true,
  log_line env (lit "error") (lit "tool " ++ u.name ++ lit " failed: " ++ e)
      (record c { store = s }),
)
after_invoke env u (done r, s) c = (
  tool_result u.id r.output false,
  log_line env (lit "tool-result") (truncate (shown r) 1000) (record c { store = s }),
)

-- one tool use of a reply: its result for the API
unfoldable pub run_found : Surroundings → ToolUse → Option Tool → Conv → Content × Conv
run_found env u none c = (
  tool_result u.id
      (lit "error: tool "
        ++ env.quote u.name
        ++ lit " is not registered or not allowed for this task")
      true,
  log_line env (lit "error") (lit "tool " ++ env.quote u.name ++ lit " not allowed") c,
)
run_found env u (some t) c =
    let c' =
      log_line env (lit "tool") (lit "invoke " ++ u.name ++ lit " args=" ++ truncate u.input 400)
        c in
    after_invoke env u (env.invoke u.name u.input c'.store) c'

unfoldable pub run_tool : Surroundings → Registry → ToolUse → Conv → Content × Conv
run_tool env tools u c = run_found env u (get_tool u.name tools) (counted c)

unfoldable pub run_tools : Surroundings → Registry → List ToolUse → Conv → List Content × Conv
run_tools env tools [] c = ([], c)
run_tools env tools (u ∷ us) c =
    let (r, c') = run_tool env tools u c in
    let (rs, c'') = run_tools env tools us c' in (r ∷ rs, c'')

abbrev pub say : Message → Conv → Conv
say m c = record c { messages = c.messages ++ m ∷ [] }

-- the end of a run: its result, its error, and the conversation
pub record Ended : Type 0 where
  pub result : DriverResult
  pub error : Option Str
  pub conv : Conv

abbrev pub result_of : Str → ℕ → Str → DriverResult
result_of message calls error = record {
  final_message = message;
  tool_calls = calls;
  cost_usd_micro = 0;
  error = error;
}

abbrev pub stopped : Str → Conv → Ended
stopped e c = record { result = result_of [] c.tool_calls []; error = some e; conv = c }

abbrev pub finished : Str → ℕ → Conv → Ended
finished message calls c = record { result = result_of message calls []; error = none; conv = c }

abbrev pub exhausted : ℕ → Conv → Ended
exhausted max_iter c = record {
  result = result_of [] c.tool_calls (
      lit "max_tool_calls ("
      ++ itoa max_iter
      ++ lit ") reached before assistant emitted a final answer");
  error = none;
  conv = c;
}

-- the turn of the tools: the results in one user message
unfoldable pub tool_turn : Surroundings → Registry → Str → List ToolUse → Conv → Conv
tool_turn env tools message uses c =
    let (rs, c') =
      run_tools env tools uses (log_line env (lit "assistant") (truncate message 1000) c) in
    say (record { role = user; content = rs }) c'

-- the body of the loop behind a parsed response; `rest` is the loop from the next iteration on
unfoldable pub respond :
    Surroundings → Registry → ℕ → (Conv → Ended) → ClaudeResponse → Conv → Ended
respond env tools iter rest msg c =
    let c' = say (record { role = assistant; content = msg.content }) c in
    let message = assistant_text msg.content in
    if is_nil (tool_uses msg.content)
    then finished message iter c'
    else let c'' = tool_turn env tools message (tool_uses msg.content) c' in
      if str_eq msg.stop_reason (lit "end_turn")
      then finished message c''.tool_calls c''
      else rest c''

abbrev pub on_parsed :
    Surroundings → Registry → ℕ → (Conv → Ended) → Conv → Result Str ClaudeResponse → Ended
on_parsed env tools iter rest c (err e) = stopped (lit "claude: parse response: " ++ e) c
on_parsed env tools iter rest c (ok msg) = respond env tools iter rest msg c

unfoldable pub on_reply : Surroundings → Registry → ℕ → (Conv → Ended) → Reply → Conv → Ended
on_reply env tools iter rest (not_built e) c = stopped e c
on_reply env tools iter rest (not_sent e) c = stopped (lit "claude: http: " ++ e) c
on_reply env tools iter rest (responded code status body parsed) c =
    if code / 100 == 2
    then on_parsed env tools iter rest c parsed
    else stopped (lit "claude: " ++ itoa code ++ lit " " ++ status ++ lit ": " ++ truncate body 400)
        c

abbrev pub request_body : Str → ℕ → Request → Conv → ClaudeRequest
request_body model max_tokens req c = record {
  model = model;
  max_tokens = max_tokens;
  system = req.system_prompt;
  messages = c.messages;
  tools = claude_tool_specs req.tools;
}

-- iteration `iter`, with `left` iterations left
unfoldable pub loop : Surroundings → Api → Request → Str → ℕ → ℕ → ℕ → ℕ → Conv → Ended
loop env api req model max_tokens max_iter zero iter c = exhausted max_iter c
loop env api req model max_tokens max_iter (suc left) iter c =
    on_reply env req.tools iter
      (λ c'. loop env api req model max_tokens max_iter left (suc iter) c')
      (api (request_body model max_tokens req c)) c

abbrev pub opening : Request → Store → Conv
opening req s = record {
  messages = record { role = user; content = text req.user_prompt ∷ [] } ∷ [];
  tool_calls = 0;
  sink = req.log_sink;
  store = s;
}

abbrev pub or_default : ℕ → ℕ → ℕ
or_default default n = if n == 0 then default else n

abbrev pub model_of : ClaudeDriver → Request → Str
model_of d req = if is_nil req.model then d.model else req.model

unfoldable pub converse : ClaudeDriver → Surroundings → Api → Request → Store → Ended
converse d env api req s =
    if is_nil d.api_key
    then stopped (lit "claude: APIKey is empty") (opening req s)
    else if is_nil (model_of d req)
    then stopped (lit "claude: Model is empty (set agent.model or per-task model)") (opening req s)
    else loop env api req (model_of d req) (or_default 4096 d.max_output_tokens)
        (or_default 25 req.max_tool_calls) (or_default 25 req.max_tool_calls) 0 (opening req s)

-- Run, as the runner calls it
abbrev pub claude_driver : ClaudeDriver → Surroundings → Api → Driver
claude_driver d env api req s =
    let e = converse d env api req s in
    record { result = e.result; error = e.error; store = e.conv.store }
