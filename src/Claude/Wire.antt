-- ===== src/Claude/Wire.antt =====
-- internal/driver/claude/claude.go: what goes to the Messages API and comes back. JSON is not written
-- out: a body is the value that it spells.
use agent_ops.Prelude.{ℕ, Str, Result, List, [], ◌∷◌, ◌++◌, map, Bool}
use agent_ops.Tool.Registry.{Tool, Registry, list}

pub data Role : Type 0 where
  user assistant : Role

-- claudeContent, where the type is none of the three: what json.Unmarshal keeps of such a block
pub record OtherContent : Type 0 where
  pub type : Str
  pub text : Str
  pub id : Str
  pub name : Str
  pub input : Str
  pub tool_use_id : Str
  pub content : Str
  pub is_error : Bool

-- claudeContent by its type; a block of one of the three types has the fields of its type only
pub data Content : Type 0 where
  text : Str → Content
  tool_use : Str → Str → Str → Content
  tool_result : Str → Str → Bool → Content
  unknown : OtherContent → Content

pub record Message : Type 0 where
  pub role : Role
  pub content : List Content

pub record ClaudeTool : Type 0 where
  pub name : Str
  pub description : Str
  pub input_schema : Str

pub record ClaudeRequest : Type 0 where
  pub model : Str
  pub max_tokens : ℕ
  pub system : Str
  pub messages : List Message
  pub tools : List ClaudeTool

pub record ClaudeResponse : Type 0 where
  pub stop_reason : Str
  pub content : List Content

-- a request that was not built or sent, with its error; or a response: its status, the status line,
-- the body, and what json.Unmarshal makes of the body
pub data Reply : Type 0 where
  not_built : Str → Reply
  not_sent : Str → Reply
  responded : ℕ → Str → Str → Result Str ClaudeResponse → Reply

pub record ToolUse : Type 0 where
  pub id : Str
  pub name : Str
  pub input : Str

-- the text of a reply, and its tool uses in their order
abbrev pub assistant_text : List Content → Str
assistant_text [] = []
assistant_text (text t ∷ cs) = t ++ assistant_text cs
assistant_text (tool_use id name input ∷ cs) = assistant_text cs
assistant_text (tool_result id c e ∷ cs) = assistant_text cs
assistant_text (unknown t ∷ cs) = assistant_text cs

abbrev pub tool_uses : List Content → List ToolUse
tool_uses [] = []
tool_uses (tool_use id name input ∷ cs) =
    record { id = id; name = name; input = input } ∷ tool_uses cs
tool_uses (text t ∷ cs) = tool_uses cs
tool_uses (tool_result id c e ∷ cs) = tool_uses cs
tool_uses (unknown t ∷ cs) = tool_uses cs

abbrev pub claude_tool : Tool → ClaudeTool
claude_tool t = record { name = t.name; description = t.description; input_schema = t.schema }

abbrev pub claude_tool_specs : Registry → List ClaudeTool
claude_tool_specs r = map claude_tool (list r)
