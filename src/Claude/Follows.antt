-- ===== src/Claude/Follows.antt =====
-- internal/driver/claude/claude.go: what a run of the driver does to the store.
use agent_ops.Prelude.{ℕ, zero, suc, ◌+◌, Str, lit, Option, none, some, List, [], ◌∷◌, ◌++◌, refl}
use agent_ops.Tool.Registry.{Tool, Registry, get_tool}
use agent_ops.State.Data.{Store}
use agent_ops.State.History.{after_all, step, log}
use agent_ops.State.Follows.{Follows, unchanged-Follows, chained-Follows}
use agent_ops.Task.Runner.{Request, sink_log}
use agent_ops.Task.RunTotal.{IsHistory}
use agent_ops.Claude.Wire.{ToolUse, tool_uses}
use agent_ops.Claude.Loop.{
  ClaudeDriver, Api, Invocation, done, failed, Surroundings, Conv, log_line, after_invoke,
  run_found, run_tool, run_tools, counted, tool_turn, loop, opening, converse, request_body,
  claude_driver, model_of,
}
use agent_ops.Claude.Cases.{heard, on_reply_cases, converse_cases}
use agent_ops.Task.Filter.{truncate}

-- every tool uses the store by its operations only
unfoldable pub ToolsFollow : Surroundings → Type 0
ToolsFollow env = (name input : Str) (s : Store) → Follows s (env.invoke name input s).1

module _ (env : Surroundings) (honest : ToolsFollow env) where
  log_line-Follows :
      (level message : Str) (c : Conv) → Follows c.store (log_line env level message c).store
  unfolding log_line sink_log after_all step
  log_line-Follows level message c = record {
    acts =
        (
          (env.log_call (c.sink.seq + 1)).0,
          (env.log_call (c.sink.seq + 1)).1,
          log c.sink.run_id (c.sink.seq + 1) level message,
        )
        ∷ [];
    at = refl;
  }

  after_invoke-Follows :
      (u : ToolUse) (r : Invocation × Store) (c : Conv)
      → Follows r.1 (after_invoke env u r c).1.store
  unfolding after_invoke
  after_invoke-Follows u (failed e, s) c = log_line-Follows _ _ _
  after_invoke-Follows u (done r, s) c = log_line-Follows _ _ _

  run_found-Follows :
      (u : ToolUse) (o : Option Tool) (c : Conv) → Follows c.store (run_found env u o c).1.store
  unfolding run_found ToolsFollow
  run_found-Follows u none c = log_line-Follows _ _ _
  run_found-Follows u (some t) c =
      let c' =
        log_line env (lit "tool") (lit "invoke " ++ u.name ++ lit " args=" ++ truncate u.input 400)
          c in
      let r = env.invoke u.name u.input c'.store in
      chained-Follows _ _ _ (log_line-Follows _ _ _)
        (chained-Follows _ r.1 _ (honest u.name u.input c'.store) (after_invoke-Follows u r c'))

  run_tools-Follows :
      (tools : Registry) (us : List ToolUse) (c : Conv)
      → Follows c.store (run_tools env tools us c).1.store
  unfolding run_tools run_tool
  run_tools-Follows tools [] c = unchanged-Follows _
  run_tools-Follows tools (u ∷ us) c =
      chained-Follows _ _ _ (run_found-Follows u (get_tool u.name tools) (counted c))
        (run_tools-Follows tools us _)

  tool_turn-Follows :
      (tools : Registry) (message : Str) (us : List ToolUse) (c : Conv)
      → Follows c.store (tool_turn env tools message us c).store
  unfolding tool_turn
  tool_turn-Follows tools message us c =
      let c' = log_line env (lit "assistant") (truncate message 1000) c in
      chained-Follows _ c'.store _ (log_line-Follows (lit "assistant") (truncate message 1000) c)
        (run_tools-Follows tools us c')

  loop-Follows :
      (api : Api) (req : Request) (model : Str) (max_tokens max_iter left iter : ℕ) (c : Conv)
      → Follows c.store (loop env api req model max_tokens max_iter left iter c).conv.store
  unfolding loop
  loop-Follows api req model max_tokens max_iter zero iter c = unchanged-Follows _
  loop-Follows api req model max_tokens max_iter (suc left) iter c =
      let rest = λ (c' : Conv). loop env api req model max_tokens max_iter left (suc iter) c' in
      on_reply_cases env req.tools iter rest c (λ e. Follows c.store e.conv.store)
        (λ e. unchanged-Follows _) (λ content n. unchanged-Follows _)
        (λ content n. tool_turn-Follows req.tools _ (tool_uses content) (heard content c))
        (λ content n.
          chained-Follows _ _ _
            (tool_turn-Follows req.tools _ (tool_uses content) (heard content c))
            (loop-Follows api req model max_tokens max_iter left (suc iter) _))
        (api (request_body model max_tokens req c))

  converse-Follows :
      (d : ClaudeDriver) (api : Api) (req : Request) (s : Store)
      → Follows s (converse d env api req s).conv.store
  unfolding converse
  converse-Follows d api req s =
      converse_cases d env api req s (λ e. Follows s e.conv.store) (λ e. unchanged-Follows s)
        (loop-Follows api req (model_of d req) _ _ _ 0 (opening req s))

  -- If every tool uses the store by the store's operations only, so does the driver.
  pub claude_driver-IsHistory : (d : ClaudeDriver) (api : Api) → IsHistory (claude_driver d env api)
  claude_driver-IsHistory d api = record {
    acts = λ req s. (converse-Follows d api req s).acts;
    at = λ req s. (converse-Follows d api req s).at;
  }
