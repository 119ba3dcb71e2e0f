-- ===== src/Mcp/Orderly.antt =====
-- internal/api/mcp/server.go: any request, and any sequence of requests.
use agent_ops.Prelude.{
  Str, lit, str_eq, Result, ok, err, List, [], ◌∷◌, Bool, not, if◌then◌else◌, Bool-cases, inl, inr,
}
use agent_ops.Prelude.Text.{has_prefix}
use agent_ops.State.Follows.{Follows_keeps, unchanged-Follows, chained-Follows}
use agent_ops.State.RunRows.{RowsAreSound, after_all_sound}
use agent_ops.Tool.Registry.{get_tool}
use agent_ops.Scheduler.Cron.{Cron}
use agent_ops.Scheduler.Entries.{IsCoherent}
use agent_ops.Mcp.Server.{
  Server, Json, Around, Call, RpcRequest, Builtin, agent_status, agent_run_now, agent_history,
  agent_logs, agent_list_tasks, agent_set_task, agent_get_task, agent_get_mission,
  agent_set_mission, agent_remember_fact, inspect_fact, other_tool, no_such_tool, rpc_error,
  host_call, builtin_named, trim_prefix, builtin, handle_tools_call,
}
use agent_ops.Mcp.Post.{
  Method, initialize, notification, tools_list, tools_call, ping, no_method, method_named, answer,
  Incoming, dispatch, on_request, on_body, origin_ok, auth_ok, handle_post, handle_mcp,
}
use agent_ops.Mcp.Effects.{
  IsHonest, IsOrderly, still, either, tool_run_now-IsOrderly, tool_set_mission-IsOrderly,
  tool_remember_fact-IsOrderly, tool_set_task-IsOrderly, host_call-IsOrderly,
}

module _ (C : Cron) (x : Around) (h : IsHonest C x) (j : Json) (s : Server C)
    (co : IsCoherent C s.scheduler) where
  abbrev keep :
      {A : Type 0} (b : Bool) (v w : A × Server C)
      → IsOrderly C s v.1
      → IsOrderly C s w.1
      → IsOrderly C s (if b then v else w).1
  keep b v w p q = either C x h s co b v w p q

  as_before : IsOrderly C s s
  as_before = still C x h s co

  builtin-IsOrderly :
      (name args : Str) (b : Builtin) → IsOrderly C s (builtin C j x name args b s).1
  builtin-IsOrderly name args agent_run_now = tool_run_now-IsOrderly C x h s co (j.run_args args)
  builtin-IsOrderly name args agent_set_task =
      tool_set_task-IsOrderly C x h s co args (j.task_args args)
  builtin-IsOrderly name args agent_set_mission =
      tool_set_mission-IsOrderly C x h s co (j.statement args)
  builtin-IsOrderly name args agent_remember_fact =
      tool_remember_fact-IsOrderly C x h s co (j.fact_args args)
  builtin-IsOrderly name args agent_status = as_before
  builtin-IsOrderly name args agent_history = as_before
  builtin-IsOrderly name args agent_logs = as_before
  builtin-IsOrderly name args agent_list_tasks = as_before
  builtin-IsOrderly name args agent_get_task = as_before
  builtin-IsOrderly name args agent_get_mission = as_before
  builtin-IsOrderly name args inspect_fact = as_before
  builtin-IsOrderly name args other_tool = as_before
  builtin-IsOrderly name args no_such_tool = as_before

  handle_tools_call-IsOrderly :
      (r : Result Str Call) → IsOrderly C s (handle_tools_call C j x r s).1
  unfolding handle_tools_call
  handle_tools_call-IsOrderly (err e) = as_before
  handle_tools_call-IsOrderly (ok c) =
      let bare = trim_prefix C c.name (lit "host_") in
      keep (has_prefix c.name (lit "host_"))
        (host_call C x bare c.arguments s (get_tool bare s.world.tools))
        (builtin C j x c.name c.arguments (builtin_named C c.name) s)
        (host_call-IsOrderly C x h s co bare c.arguments (get_tool bare s.world.tools))
        (builtin-IsOrderly c.name c.arguments (builtin_named C c.name))

  dispatch-IsOrderly : (req : RpcRequest) (m : Method) → IsOrderly C s (dispatch C j x req m s).1
  dispatch-IsOrderly req tools_call =
      let r = handle_tools_call-IsOrderly (j.call req.params) in
      record { coherent = r.coherent; follows = r.follows }
  dispatch-IsOrderly req initialize = as_before
  dispatch-IsOrderly req notification = as_before
  dispatch-IsOrderly req tools_list = as_before
  dispatch-IsOrderly req ping = as_before
  dispatch-IsOrderly req no_method = as_before

  on_request-IsOrderly : (r : Result Str RpcRequest) → IsOrderly C s (on_request C j x r s).1
  on_request-IsOrderly (err e) = as_before
  on_request-IsOrderly (ok req) =
      keep (not (str_eq req.version (lit "2.0")))
        (answer (rpc_error 32600 (lit "invalid jsonrpc version")), s)
        (dispatch C j x req (method_named C req.method) s) as_before
        (dispatch-IsOrderly req (method_named C req.method))

  on_body-IsOrderly : (r : Result Str Str) → IsOrderly C s (on_body C j x r s).1
  on_body-IsOrderly (err e) = as_before
  on_body-IsOrderly (ok body) = on_request-IsOrderly (j.request body)

  handle_post-IsOrderly : (r : Incoming) → IsOrderly C s (handle_post C j x r s).1
  unfolding handle_post
  handle_post-IsOrderly r = elim (Bool-cases (not (origin_ok C s r))) [
    | inl o ↦ rw o as_before
    | inr o ↦ elim (Bool-cases (not (auth_ok C s r))) [
      | inl a ↦ rw (o, a) as_before
      | inr a ↦ rw (o, a) (on_body-IsOrderly r.body)
    ]
  ]

  handle_mcp-IsOrderly : (r : Incoming) → IsOrderly C s (handle_mcp C j x r s).1
  unfolding handle_mcp
  handle_mcp-IsOrderly r = elim (Bool-cases (str_eq r.method (lit "POST"))) [
    | inl p ↦ rw p (handle_post-IsOrderly r)
    | inr p ↦ elim (Bool-cases (str_eq r.method (lit "GET"))) [
      | inl g ↦ rw (p, g) as_before
      | inr g ↦ elim (Bool-cases (str_eq r.method (lit "DELETE"))) [
        | inl d ↦ rw (p, g, d) as_before
        | inr d ↦ rw (p, g, d) as_before
      ]
    ]
  ]

-- requests in the order in which the server handles them, each with what surrounds it
abbrev pub serve : (C : Cron) → Json → List (Around × Incoming) → Server C → Server C
serve C j [] s = s
serve C j ((x, r) ∷ rs) s = serve C j rs (handle_mcp C j x r s).1

-- the driver and the tools use the store by its operations only
abbrev pub AllHonest : Cron → List (Around × Incoming) → Type 0
AllHonest C [] = Unit
AllHonest C ((x, r) ∷ rs) = IsHonest C x × AllHonest C rs

-- After any requests, with any calls of the database failing, where the driver and the tools use the
-- store by its operations only: the store is the one before them behind some of the store's
-- operations, and if the entries of the scheduler agreed with cron, they still do.
pub serve-IsOrderly :
    (C : Cron) (j : Json) (rs : List (Around × Incoming)) (s : Server C)
    → AllHonest C rs
    → IsCoherent C s.scheduler
    → IsOrderly C s (serve C j rs s)
serve-IsOrderly C j [] s h co = record { coherent = co; follows = unchanged-Follows s.world.store }
serve-IsOrderly C j ((x, r) ∷ rs) s (h, hs) co =
    let first = handle_mcp-IsOrderly C x h j s co r in
    let t = (handle_mcp C j x r s).1 in
    let rest = serve-IsOrderly C j rs t hs first.coherent in
    record {
      coherent = rest.coherent;
      follows = chained-Follows s.world.store t.world.store _ first.follows rest.follows;
    }

-- So after any such requests, the rows of the runs are sound if they were.
pub serve-RowsAreSound :
    (C : Cron) (j : Json) (rs : List (Around × Incoming)) (s : Server C)
    → AllHonest C rs
    → IsCoherent C s.scheduler
    → RowsAreSound s.world.store.runs
    → RowsAreSound (serve C j rs s).world.store.runs
serve-RowsAreSound C j rs s h co p =
    Follows_keeps (λ t. RowsAreSound t.runs) after_all_sound s.world.store _
      (serve-IsOrderly C j rs s h co).follows p
