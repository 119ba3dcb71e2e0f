-- ===== src/Claude/Protocol.antt =====
-- internal/driver/claude/claude.go: what the API is asked, which tools are invoked, and how long it takes.
use agent_ops.Prelude.{
  ℕ, zero, suc, ◌+◌, ◌*◌, ◌<◌, Str, lit, Option, none, some, List, [], ◌∷◌, ◌++◌, ◌≡◌, refl, ap,
  length, arith, ◌∙◌,
}
use agent_ops.Tool.Registry.{Tool, get_tool}
use agent_ops.State.Data.{Store}
use agent_ops.Task.Runner.{Request}
use agent_ops.Task.Filter.{truncate}
use agent_ops.Claude.Wire.{
  Content, ClaudeRequest, ToolUse, assistant_text, tool_uses, claude_tool_specs,
}
use agent_ops.Claude.Loop.{
  ClaudeDriver, Api, Invocation, Surroundings, Conv, log_line, after_invoke, run_found, run_tool,
  run_tools, counted, tool_turn, on_reply, loop, opening, converse, request_body, model_of,
  or_default,
}
use agent_ops.Claude.Cases.{heard, turn, on_reply_agrees}
use agent_ops.Claude.Dialogue.{Dialogue, prompted, turn-Dialogue, length-turn}

-- a request of the run: the call's model, prompt and tools, and a dialogue that has turns left
pub record IsProper (d : ClaudeDriver) (req : Request) (q : ClaudeRequest) : Type 0 where
  pub of_model : q.model ≡ model_of d req
  pub of_system : q.system ≡ req.system_prompt
  pub of_tools : q.tools ≡ claude_tool_specs req.tools
  pub of_tokens : q.max_tokens ≡ or_default 4096 d.max_output_tokens
  pub dialogue : Dialogue req.user_prompt q.messages
  pub in_time : length q.messages < 1 + 2 * or_default 25 req.max_tool_calls

module _ (d : ClaudeDriver) (env : Surroundings) (api api' : Api) (req : Request)
    (agree : (q : ClaudeRequest) → IsProper d req q → api q ≡ api' q) where
  abbrev asked : Conv → ClaudeRequest
  asked c = request_body (model_of d req) (or_default 4096 d.max_output_tokens) req c

  loop_asks :
      (max_iter left iter : ℕ) (c : Conv)
      → max_iter ≡ or_default 25 req.max_tool_calls
      → iter + left ≡ max_iter
      → length c.messages ≡ 1 + 2 * iter
      → Dialogue req.user_prompt c.messages
      → loop env api req (model_of d req) (or_default 4096 d.max_output_tokens) max_iter left iter c
        ≡ loop env api' req
            (model_of d req)
            (or_default 4096 d.max_output_tokens)
            max_iter
            left
            iter
            c
  unfolding loop
  loop_asks max_iter zero iter c m e n p = refl
  loop_asks max_iter (suc left) iter c m e n p =
      let rest = λ (c' : Conv).
        loop env api req (model_of d req) (or_default 4096 d.max_output_tokens) max_iter left
          (suc iter) c' in
      ap (λ r. on_reply env req.tools iter rest r c)
        (agree (asked c) record {
          of_model = refl;
          of_system = refl;
          of_tools = refl;
          of_tokens = refl;
          dialogue = p;
          in_time = omega (arith, m, e, n);
        })
      ∙ on_reply_agrees env env req.tools iter rest _ c (λ content. refl)
          (λ content u.
            loop_asks max_iter left (suc iter) (turn env req.tools c content) m (omega (arith, e))
              (omega (arith, n, length-turn env req.tools c content))
              (turn-Dialogue env req.tools req.user_prompt c content p u))
          (api' (asked c))

  -- The driver asks the API only with the model, the prompts, the tools and the token limit of the
  -- call, with conversations in which every use of a tool was answered in its turn, by its id and in
  -- order, and at most as often as the bound on tool calls says: two APIs that agree on such requests
  -- give the same run.
  pub converse_asks : (s : Store) → converse d env api req s ≡ converse d env api' req s
  unfolding converse
  converse_asks s =
      rw
        (loop_asks (or_default 25 req.max_tool_calls) (or_default 25 req.max_tool_calls) 0
          (opening req s) refl (omega arith) refl prompted)
        refl

module _ (d : ClaudeDriver) (env : Surroundings) (invoke' : Str → Str → Store → Invocation × Store)
    (api : Api) (req : Request)
    (agree : (t : Tool) (name input : Str) (s : Store)
      → get_tool name req.tools ≡ some t
      → env.invoke name input s ≡ invoke' name input s) where
  abbrev env' : Surroundings
  env' = record env { invoke = invoke' }

  run_found_agrees :
      (u : ToolUse) (o : Option Tool) (c : Conv)
      → get_tool u.name req.tools ≡ o
      → run_found env u o c ≡ run_found env' u o c
  unfolding run_found log_line after_invoke
  run_found_agrees u none c q = refl
  run_found_agrees u (some t) c q =
      let c' =
        log_line env (lit "tool") (lit "invoke " ++ u.name ++ lit " args=" ++ truncate u.input 400)
          c in
      ap (λ r. after_invoke env u r c') (agree t u.name u.input c'.store q)

  run_tools_agrees :
      (us : List ToolUse) (c : Conv) → run_tools env req.tools us c ≡ run_tools env' req.tools us c
  unfolding run_tools run_tool
  run_tools_agrees [] c = refl
  run_tools_agrees (u ∷ us) c =
      rw
        (
          run_found_agrees u (get_tool u.name req.tools) (counted c) refl,
          run_tools_agrees us (run_tool env' req.tools u c).1,
        )
        refl

  turn_agrees :
      (c : Conv) (content : List Content)
      → turn env req.tools c content ≡ turn env' req.tools c content
  unfolding tool_turn log_line
  turn_agrees c content =
      rw
        (run_tools_agrees (tool_uses content) (
          log_line env (lit "assistant") (truncate (assistant_text content) 1000)
            (heard content c)))
        refl

  loop_invokes :
      (model : Str) (max_tokens max_iter left iter : ℕ) (c : Conv)
      → loop env api req model max_tokens max_iter left iter c
        ≡ loop env' api req model max_tokens max_iter left iter c
  unfolding loop
  loop_invokes model max_tokens max_iter zero iter c = refl
  loop_invokes model max_tokens max_iter (suc left) iter c =
      on_reply_agrees env env' req.tools iter _ _ c (turn_agrees c)
        (λ content u.
          loop_invokes model max_tokens max_iter left (suc iter) (turn env' req.tools c content))
        (api (request_body model max_tokens req c))

  -- The driver invokes the tools of the call only: whatever the API asks for, two surroundings whose
  -- tools agree on the names that the call's registry has give the same run.
  pub converse_invokes : (s : Store) → converse d env api req s ≡ converse d env' api req s
  unfolding converse
  converse_invokes s =
      rw
        (loop_invokes (model_of d req) (or_default 4096 d.max_output_tokens)
          (or_default 25 req.max_tool_calls) (or_default 25 req.max_tool_calls) 0 (opening req s))
        refl
