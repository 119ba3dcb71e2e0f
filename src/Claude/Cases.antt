-- ===== src/Claude/Cases.antt =====
-- internal/driver/claude/claude.go: the ways in which one iteration of the loop goes on.
use agent_ops.Prelude.{
  ℕ, ◌/◌, Str, lit, Result, ok, err, List, ◌≡◌, refl, true, false, is_nil, str_eq, ◌==◌, Bool-cases,
  inl, inr,
}
use agent_ops.Tool.Registry.{Registry}
use agent_ops.State.Data.{Store}
use agent_ops.Task.Runner.{Request}
use agent_ops.Claude.Wire.{
  assistant, Content, ClaudeResponse, Reply, not_built, not_sent, responded, assistant_text,
  tool_uses,
}
use agent_ops.Claude.Loop.{
  ClaudeDriver, Api, Surroundings, Conv, Ended, say, stopped, finished, tool_turn, respond,
  on_parsed, on_reply, loop, opening, converse, model_of, or_default,
}

-- the conversation behind the assistant's message
abbrev pub heard : List Content → Conv → Conv
heard content c = say (record { role = assistant; content = content }) c

-- the turn of the tools behind a message
abbrev pub turn : Surroundings → Registry → Conv → List Content → Conv
turn env tools c content =
    tool_turn env tools (assistant_text content) (tool_uses content) (heard content c)

module _ (env : Surroundings) (tools : Registry) (iter : ℕ) (rest : Conv → Ended) (c : Conv)
    (Q : Ended → Type 0) where
  module _ (at_stop : (e : Str) → Q (stopped e c))
      (at_answer : (content : List Content)
        → is_nil (tool_uses content) ≡ true
        → Q (finished (assistant_text content) iter (heard content c)))
      (at_end : (content : List Content)
        → is_nil (tool_uses content) ≡ false
        → Q (
            finished
              (assistant_text content)
              (turn env tools c content).tool_calls
              (turn env tools c content)))
      (at_turn : (content : List Content)
        → is_nil (tool_uses content) ≡ false
        → Q (rest (turn env tools c content))) where
    respond_cases : (msg : ClaudeResponse) → Q (respond env tools iter rest msg c)
    unfolding respond
    respond_cases msg = elim (Bool-cases (is_nil (tool_uses msg.content))) [
      | inl p ↦ rw p (at_answer msg.content p)
      | inr p ↦ elim (Bool-cases (str_eq msg.stop_reason (lit "end_turn"))) [
        | inl q ↦ rw (p, q) (at_end msg.content p)
        | inr q ↦ rw (p, q) (at_turn msg.content p)
      ]
    ]

    on_parsed_cases :
        (parsed : Result Str ClaudeResponse) → Q (on_parsed env tools iter rest c parsed)
    on_parsed_cases (err e) = at_stop _
    on_parsed_cases (ok msg) = respond_cases msg

    pub on_reply_cases : (r : Reply) → Q (on_reply env tools iter rest r c)
    unfolding on_reply
    on_reply_cases (not_built e) = at_stop e
    on_reply_cases (not_sent e) = at_stop _
    on_reply_cases (responded code status body parsed) = elim (Bool-cases (code / 100 == 2)) [
      | inl p ↦ rw p (on_parsed_cases parsed)
      | inr p ↦ rw p (at_stop _)
    ]

-- Two runs whose turns agree and go on alike, end alike.
module _ (env env' : Surroundings) (tools : Registry) (iter : ℕ) (rest rest' : Conv → Ended)
    (c : Conv)
    (turns : (content : List Content) → turn env tools c content ≡ turn env' tools c content)
    (alike : (content : List Content)
      → is_nil (tool_uses content) ≡ false
      → rest (turn env' tools c content) ≡ rest' (turn env' tools c content)) where
  respond_agrees :
      (msg : ClaudeResponse)
      → respond env tools iter rest msg c ≡ respond env' tools iter rest' msg c
  unfolding respond
  respond_agrees msg = elim (Bool-cases (is_nil (tool_uses msg.content))) [
    | inl p ↦ rw p refl
    | inr p ↦ rw (p, turns msg.content, alike msg.content p) refl
  ]

  pub on_reply_agrees :
      (r : Reply) → on_reply env tools iter rest r c ≡ on_reply env' tools iter rest' r c
  unfolding on_reply
  on_reply_agrees (not_built e) = refl
  on_reply_agrees (not_sent e) = refl
  on_reply_agrees (responded code status body (err e)) = refl
  on_reply_agrees (responded code status body (ok msg)) = rw (respond_agrees msg) refl

module _ (d : ClaudeDriver) (env : Surroundings) (api : Api) (req : Request) (s : Store)
    (Q : Ended → Type 0) where
  pub converse_cases :
      ((e : Str) → Q (stopped e (opening req s)))
      → Q (
          loop env api req
            (model_of d req)
            (or_default 4096 d.max_output_tokens)
            (or_default 25 req.max_tool_calls)
            (or_default 25 req.max_tool_calls)
            0
            (opening req s))
      → Q (converse d env api req s)
  unfolding converse
  converse_cases at_stop at_loop = elim (Bool-cases (is_nil d.api_key)) [
    | inl p ↦ rw p (at_stop _)
    | inr p ↦ elim (Bool-cases (is_nil (model_of d req))) [
      | inl q ↦ rw (p, q) (at_stop _)
      | inr q ↦ rw (p, q) at_loop
    ]
  ]
