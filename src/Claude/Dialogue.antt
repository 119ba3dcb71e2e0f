-- ===== src/Claude/Dialogue.antt =====
-- internal/driver/claude/claude.go: the conversations that the API is asked with, the tools that are
-- invoked, and the number of turns.
use agent_ops.Prelude.{
  ◌+◌, Str, lit, Option, none, some, List, [], ◌∷◌, ◌++◌, map, ◌≡◌, refl, ◌∙◌, Bool, false, is_nil,
  length, arith, append_assoc, length-append,
}
use agent_ops.Tool.Registry.{Tool, Registry, get_tool}
use agent_ops.State.Data.{Store}
use agent_ops.Task.Filter.{truncate}
use agent_ops.Claude.Wire.{
  user, assistant, Content, text, tool_use, tool_result, unknown, Message, ToolUse, assistant_text,
  tool_uses,
}
use agent_ops.Claude.Loop.{
  Invocation, done, failed, Surroundings, Conv, log_line, after_invoke, run_found, run_tool,
  run_tools, counted, tool_turn,
}
use agent_ops.Claude.Cases.{heard, turn}

-- the ids that results answer
abbrev answered : List Content → List Str
answered [] = []
answered (tool_result id c e ∷ cs) = id ∷ answered cs
answered (text t ∷ cs) = answered cs
answered (tool_use id name input ∷ cs) = answered cs
answered (unknown t ∷ cs) = answered cs

abbrev id_of : ToolUse → Str
id_of u = u.id

-- A conversation opens with the prompt. Each turn adds a message of the assistant that uses tools, and
-- one of the user that answers each of the uses, in their order, and says nothing else.
pub data Dialogue : Str → List Message → Type 0 where
  prompted :
      {prompt : Str} → Dialogue prompt (record { role = user; content = text prompt ∷ [] } ∷ [])
  answer :
      {prompt : Str} {ms : List Message} (content results : List Content)
      → Dialogue prompt ms
      → is_nil (tool_uses content) ≡ false
      → answered results ≡ map id_of (tool_uses content)
      → length results ≡ length (tool_uses content)
      → Dialogue prompt (
          (ms ++ record { role = assistant; content = content } ∷ [])
          ++ record { role = user; content = results } ∷ [])

-- a result for the use of that id
abbrev IsAnswer : Str → Content → Type 0
IsAnswer id content = (output : Str) × (e : Bool) × (content ≡ tool_result id output e)

-- a step of the tools leaves the messages
record Answers (u : ToolUse) (c : Conv) (r : Content × Conv) : Type 0 where
  answers : IsAnswer u.id r.0
  messages : r.1.messages ≡ c.messages

module _ (env : Surroundings) where
  after_invoke-Answers :
      (u : ToolUse) (r : Invocation × Store) (c : Conv) → Answers u c (after_invoke env u r c)
  unfolding after_invoke log_line
  after_invoke-Answers u (failed e, s) c = record { answers = (_, _, refl); messages = refl }
  after_invoke-Answers u (done r, s) c = record { answers = (_, _, refl); messages = refl }

  run_found-Answers : (u : ToolUse) (o : Option Tool) (c : Conv) → Answers u c (run_found env u o c)
  unfolding run_found log_line
  run_found-Answers u none c = record { answers = (_, _, refl); messages = refl }
  run_found-Answers u (some t) c =
      let c' =
        log_line env (lit "tool") (lit "invoke " ++ u.name ++ lit " args=" ++ truncate u.input 400)
          c in
      let a = after_invoke-Answers u (env.invoke u.name u.input c'.store) c' in
      record { answers = a.answers; messages = a.messages }

  -- the results of a list of uses
  record Results (us : List ToolUse) (c : Conv) (r : List Content × Conv) : Type 0 where
    ids : answered r.0 ≡ map id_of us
    count : length r.0 ≡ length us
    messages : r.1.messages ≡ c.messages

  Results-cons :
      (u : ToolUse) (us : List ToolUse) (c : Conv) (x : Content × Conv) (xs : List Content × Conv)
      → Answers u c x
      → Results us x.1 xs
      → Results (u ∷ us) c (x.0 ∷ xs.0, xs.1)
  Results-cons u us c x xs a h =
      let (output, e, q) = a.answers in
      record {
        ids = rw (q, h.ids) refl;
        count = omega (arith, h.count);
        messages = h.messages ∙ a.messages;
      }

  run_tools-Results :
      (tools : Registry) (us : List ToolUse) (c : Conv) → Results us c (run_tools env tools us c)
  unfolding run_tools run_tool
  run_tools-Results tools [] c = record { ids = refl; count = refl; messages = refl }
  run_tools-Results tools (u ∷ us) c =
      let a = run_found-Answers u (get_tool u.name tools) (counted c) in
      Results-cons u us c _ _ (record { answers = a.answers; messages = a.messages })
        (run_tools-Results tools us (run_tool env tools u c).1)

  tool_turn_lem :
      (tools : Registry) (message : Str) (us : List ToolUse) (c : Conv)
      → (results : List Content) × (answered results ≡ map id_of us)
        × (length results ≡ length us)
        × ((tool_turn env tools message us c).messages
            ≡ c.messages ++ record { role = user; content = results } ∷ [])
  unfolding tool_turn
  tool_turn_lem tools message us c =
      let c' = log_line env (lit "assistant") (truncate message 1000) c in
      let r = run_tools-Results tools us c' in
      ((run_tools env tools us c').0, r.ids, r.count, rw r.messages (unfold log_line in refl))

  -- a turn goes on with the dialogue
  pub turn-Dialogue :
      (tools : Registry) (prompt : Str) (c : Conv) (content : List Content)
      → Dialogue prompt c.messages
      → is_nil (tool_uses content) ≡ false
      → Dialogue prompt (turn env tools c content).messages
  turn-Dialogue tools prompt c content d n =
      let (results, ids, count, q) =
        tool_turn_lem tools (assistant_text content) (tool_uses content) (heard content c) in
      rw q (answer content results d n ids count)

  pub length-turn :
      (tools : Registry) (c : Conv) (content : List Content)
      → length (turn env tools c content).messages ≡ length c.messages + 2
  length-turn tools c content =
      let (results, ids, count, q) =
        tool_turn_lem tools (assistant_text content) (tool_uses content) (heard content c) in
      rw q (
        omega (
          arith,
          length-append (c.messages ++ record { role = assistant; content = content } ∷ [])
              (record { role = user; content = results } ∷ []),
          length-append c.messages (record { role = assistant; content = content } ∷ []),
        ))

  -- a turn adds the assistant's message and the user's
  pub turn_says :
      (tools : Registry) (c : Conv) (content : List Content)
      → (results : List Content) × ((turn env tools c content).messages
          ≡ c.messages
            ++ record { role = assistant; content = content }
              ∷ record { role = user; content = results }
              ∷ [])
  turn_says tools c content =
      let (results, ids, count, q) =
        tool_turn_lem tools (assistant_text content) (tool_uses content) (heard content c) in
      (
        results,
        rw q (
            append_assoc c.messages (record { role = assistant; content = content } ∷ [])
              (record { role = user; content = results } ∷ [])),
      )
