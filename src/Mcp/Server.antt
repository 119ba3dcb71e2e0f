-- ===== src/Mcp/Server.antt =====
-- internal/api/mcp/server.go: the tools of the server over the store and the scheduler, and tools/call.
-- JSON is not written out: what encoding/json makes of a text is an argument, an
-- answer is the value whose JSON is sent, and the code of an error stands without its minus sign.
use agent_ops.Prelude.{
  ℕ, Str, lit, str_eq, Option, none, some, Result, ok, err, List, [], ◌∷◌, ◌++◌, any, true, not,
  ◌&&◌, is_nil, if◌then◌else◌, length,
}
use agent_ops.Prelude.Int.{ℤ, pos}
use agent_ops.Prelude.Text.{has_prefix, contains}
use agent_ops.Tool.Registry.{Tool, get_tool, list}
use agent_ops.State.Data.{Task, TaskRun, RunLog, Fact, Mission, Store, StateError}
use agent_ops.State.Tx.{Faults}
use agent_ops.State.Tasks.{get_task, list_tasks}
use agent_ops.State.Runs.{list_runs, logs_for_run}
use agent_ops.State.Mission.{get_mission, set_statement, add_fact}
use agent_ops.Task.Runner.{Driver, Env, World, Outcome}
use agent_ops.Scheduler.Cron.{Cron}
use agent_ops.Scheduler.Model.{Scheduler, SchedulerError, set_task, run_now, entries_of}
use agent_ops.Mcp.FactInspect.{IndexArgs, InspectError, fact_inspect}

pub data Payload : Type 0 where
  ok_text : Payload
  status : ℕ → ℕ → Option TaskRun → Payload
  outcome : Outcome → Payload
  runs : List TaskRun → Payload
  logs : Str → List RunLog → Payload
  tasks : List Task → Payload
  task : Task → Payload
  mission : Mission → Payload
  fact : Fact → Payload
  added : ℕ → Payload
  host_output : Str → Payload
  initialized tool_list pong : Payload
  -- the answer of a handler for templates or integrations, which have no part in this state
  elsewhere : Str → Str → Payload

pub data Answer : Type 0 where
  text : Payload → Answer
  tool_error : Str → Answer
  store_error : StateError → Answer
  scheduler_error : SchedulerError → Answer
  inspect_error : InspectError → Answer
  rpc_error : ℕ → Str → Answer

pub record Call : Type 0 where
  pub name : Str
  pub arguments : Str

pub record RpcRequest : Type 0 where
  pub version : Str
  pub method : Str
  pub params : Str

pub data Builtin : Type 0 where
  agent_status agent_run_now agent_history agent_logs agent_list_tasks agent_set_task : Builtin
  agent_get_task agent_get_mission agent_set_mission agent_remember_fact inspect_fact : Builtin
  other_tool no_such_tool : Builtin

-- json.Unmarshal into the source's types; the history's arguments are what it leaves, its error is
-- dropped
pub record Json : Type 0 where
  pub request : Str → Result Str RpcRequest
  pub call : Str → Result Str Call
  pub run_args : Str → Result Str (Str × Str)
  pub history_args : Str → Str × ℤ
  pub log_args : Str → Result Str (Str × ℤ)
  pub name_arg : Str → Result Str Str
  pub statement : Str → Result Str Str
  pub fact_args : Str → Result Str (Str × Str)
  pub task_args : Str → Result Str Task
  pub index_args : Str → IndexArgs

-- the calls of the database that fail and the time; the runner's part; and the effects of the tools
pub record Around : Type 0 where
  pub faults : Faults
  pub now : ℕ
  pub workflow : Str
  pub driver : Driver
  pub run_env : Env
  pub invoke : Str → Str → Store → Result Str Str × Store

abbrev pub invalid_params : ℕ
invalid_params = 32602

abbrev pub bad_args : Str → Answer
bad_args e = rpc_error invalid_params (lit "bad args: " ++ e)

module _ (C : Cron) where
  pub record Server : Type 0 where
    pub scheduler : Scheduler C
    pub world : World
    pub token : Str
    pub allowed_origins : List Str

  abbrev pub with_world : Server → World → Server
  with_world s w = record s { world = w }

  abbrev pub with_store : Server → Store → Server
  with_store s db = record s { world = record s.world { store = db } }

  abbrev answered : {A : Type 0} → (A → Payload) → Result StateError A → Answer
  answered f (ok a) = text (f a)
  answered f (err e) = store_error e

  abbrev last_run : Result StateError (List TaskRun) → Option TaskRun
  last_run (ok (r ∷ rs)) = some r
  last_run _ = none

  unfoldable pub tool_status : Around → Server → Answer
  tool_status x s = text (
      status (length (entries_of C s.scheduler)) (length (list s.world.tools))
        (last_run (list_runs x.faults [] (pos 1) s.world.store)))

  abbrev pub ran : Server → Result SchedulerError Outcome × World → Answer × Server
  ran s (err e, w) = (scheduler_error e, with_world s w)
  ran s (ok o, w) = (text (outcome o), with_world s w)

  unfoldable pub tool_run_now : Around → Result Str (Str × Str) → Server → Answer × Server
  tool_run_now x (err e) s = (bad_args e, s)
  tool_run_now x (ok (name, override)) s =
      if is_nil name
      then (tool_error (lit "task_name is required"), s)
      else ran s
          (run_now C x.faults x.workflow x.driver x.run_env name override s.scheduler s.world)

  unfoldable pub tool_history : Around → Str × ℤ → Server → Answer
  tool_history x (name, limit) s = answered runs (list_runs x.faults name limit s.world.store)

  unfoldable pub tool_logs : Around → Result Str (Str × ℤ) → Server → Answer
  tool_logs x (err e) s = bad_args e
  tool_logs x (ok (id, limit)) s =
      if is_nil id
      then tool_error (lit "run_id required")
      else answered (λ l. logs id l) (logs_for_run x.faults id limit s.world.store)

  unfoldable pub tool_list_tasks : Around → Server → Answer
  tool_list_tasks x s = answered tasks (list_tasks x.faults s.world.store)

  unfoldable pub tool_get_task : Around → Result Str Str → Server → Answer
  tool_get_task x (err e) s = rpc_error invalid_params (lit "name required")
  tool_get_task x (ok name) s =
      if is_nil name
      then rpc_error invalid_params (lit "name required")
      else answered task (get_task x.faults name s.world.store)

  unfoldable pub tool_get_mission : Around → Server → Answer
  tool_get_mission x s = answered mission (get_mission x.faults s.world.store)

  abbrev pub stated : Server → Result StateError (Unit {0}) × Store → Answer × Server
  stated s (err e, db) = (store_error e, with_store s db)
  stated s (ok u, db) = (text ok_text, with_store s db)

  unfoldable pub tool_set_mission : Around → Result Str Str → Server → Answer × Server
  tool_set_mission x (err e) s = (bad_args e, s)
  tool_set_mission x (ok statement) s =
      stated s (set_statement x.faults x.now statement s.world.store)

  abbrev pub inspected : Result InspectError Fact → Answer
  inspected (ok f) = text (fact f)
  inspected (err e) = inspect_error e

  abbrev pub or_user : Str → Str
  or_user source = if is_nil source then lit "user" else source

  abbrev pub learnt : Server → Result StateError (List Fact) × Store → Answer × Server
  learnt s (err e, db) = (store_error e, with_store s db)
  learnt s (ok facts, db) = (text (added (length facts)), with_store s db)

  unfoldable pub tool_remember_fact : Around → Result Str (Str × Str) → Server → Answer × Server
  tool_remember_fact x (err e) s = (bad_args e, s)
  tool_remember_fact x (ok (f, source)) s =
      if is_nil f
      then (tool_error (lit "fact is required"), s)
      else learnt s (add_fact x.faults x.now (or_user source) f s.world.store)

  -- `enabled` is taken to be absent if its name in quotes is nowhere in the arguments
  unfoldable pub default_enabled : Str → Task → Task
  default_enabled raw t =
      if not t.enabled && not (contains raw (lit "\"enabled\""))
      then record t { enabled = true }
      else t

  abbrev pub task_set :
      Server → Result SchedulerError (Unit {0}) × Scheduler C × Store → Answer × Server
  task_set s (err e, sch, db) =
      (scheduler_error e, record s { scheduler = sch; world = record s.world { store = db } })
  task_set s (ok u, sch, db) =
      (text ok_text, record s { scheduler = sch; world = record s.world { store = db } })

  unfoldable pub tool_set_task : Around → Str → Result Str Task → Server → Answer × Server
  tool_set_task x raw (err e) s = (bad_args e, s)
  tool_set_task x raw (ok t) s =
      if is_nil t.name
      then (tool_error (lit "name and prompt required"), s)
      else if is_nil t.prompt
      then (tool_error (lit "name and prompt required"), s)
      else task_set s (set_task C x.faults x.now (default_enabled raw t) s.scheduler s.world.store)

  abbrev pub invoked : Server → Result Str Str × Store → Answer × Server
  invoked s (err e, db) = (tool_error e, with_store s db)
  invoked s (ok output, db) = (text (host_output output), with_store s db)

  abbrev pub host_call : Around → Str → Str → Server → Option Tool → Answer × Server
  host_call x bare args s none = (rpc_error invalid_params (lit "no such host tool: " ++ bare), s)
  host_call x bare args s (some t) = invoked s (x.invoke bare args s.world.store)

  abbrev pub trim_prefix : Str → Str → Str
  trim_prefix s [] = s
  trim_prefix [] (p ∷ ps) = []
  trim_prefix (c ∷ s) (p ∷ ps) = trim_prefix s ps

  abbrev pub unchanged : Server → Answer → Answer × Server
  unchanged s a = (a, s)

  abbrev other_tools : List Str
  other_tools =
      lit "agent_list_templates"
      ∷ lit "agent_get_template"
      ∷ lit "agent_apply_template"
      ∷ lit "agent_integrate_add"
      ∷ lit "agent_integrate_remove"
      ∷ lit "agent_integrate_list"
      ∷ []

  -- the cases of the switch over the names
  unfoldable pub builtin_named : Str → Builtin
  builtin_named name =
      if str_eq name (lit "agent_status")
      then agent_status
      else if str_eq name (lit "agent_run_now")
      then agent_run_now
      else if str_eq name (lit "agent_history")
      then agent_history
      else if str_eq name (lit "agent_logs")
      then agent_logs
      else if str_eq name (lit "agent_list_tasks")
      then agent_list_tasks
      else if str_eq name (lit "agent_set_task")
      then agent_set_task
      else if str_eq name (lit "agent_get_task")
      then agent_get_task
      else if str_eq name (lit "agent_get_mission")
      then agent_get_mission
      else if str_eq name (lit "agent_set_mission")
      then agent_set_mission
      else if str_eq name (lit "agent_remember_fact")
      then agent_remember_fact
      else if str_eq name (lit "fact_inspect")
      then inspect_fact
      else if any (λ n. str_eq name n) other_tools
      then other_tool
      else no_such_tool

  abbrev pub builtin : Json → Around → Str → Str → Builtin → Server → Answer × Server
  builtin j x name args agent_status s = unchanged s (tool_status x s)
  builtin j x name args agent_run_now s = tool_run_now x (j.run_args args) s
  builtin j x name args agent_history s = unchanged s (tool_history x (j.history_args args) s)
  builtin j x name args agent_logs s = unchanged s (tool_logs x (j.log_args args) s)
  builtin j x name args agent_list_tasks s = unchanged s (tool_list_tasks x s)
  builtin j x name args agent_set_task s = tool_set_task x args (j.task_args args) s
  builtin j x name args agent_get_task s = unchanged s (tool_get_task x (j.name_arg args) s)
  builtin j x name args agent_get_mission s = unchanged s (tool_get_mission x s)
  builtin j x name args agent_set_mission s = tool_set_mission x (j.statement args) s
  builtin j x name args agent_remember_fact s = tool_remember_fact x (j.fact_args args) s
  builtin j x name args inspect_fact s =
      unchanged s (inspected (fact_inspect x.faults (j.index_args args) s.world.store))
  builtin j x name args other_tool s = unchanged s (text (elsewhere name args))
  builtin j x name args no_such_tool s =
      unchanged s (rpc_error invalid_params (lit "no such tool: " ++ name))

  unfoldable pub handle_tools_call : Json → Around → Result Str Call → Server → Answer × Server
  handle_tools_call j x (err e) s = (rpc_error invalid_params (lit "invalid params: " ++ e), s)
  handle_tools_call j x (ok c) s =
      if has_prefix c.name (lit "host_")
      then (let bare = trim_prefix c.name (lit "host_") in
          host_call x bare c.arguments s (get_tool bare s.world.tools))
      else builtin j x c.name c.arguments (builtin_named c.name) s
