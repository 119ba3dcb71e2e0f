-- ===== src/Task/Runner/Types.antt =====
-- internal/task/runner.go, internal/driver/driver.go and internal/runreport/reporter.go: what a run is
-- given, what it answers, and what it keeps.
use agent_ops.Prelude.{ℕ, Str, str_eq, Option, none, some, List, [], Bool, any}
use agent_ops.Tool.Registry.{Registry}
use agent_ops.State.Data.{RunStatus, TaskRun, Store, StateError}
use agent_ops.State.Tx.{Faults}

pub record Spec : Type 0 where
  pub name : Str
  pub trigger : Str
  pub prompt : Str
  pub tools : List Str
  pub model : Str

-- the log sink of one run: the number of its last line
pub record Sink : Type 0 where
  pub run_id : Str
  pub seq : ℕ

pub record Request : Type 0 where
  pub system_prompt : Str
  pub user_prompt : Str
  pub tools : Registry
  pub max_tool_calls : ℕ
  pub model : Str
  pub log_sink : Sink

pub record DriverResult : Type 0 where
  pub final_message : Str
  pub tool_calls : ℕ
  pub cost_usd_micro : ℕ
  pub error : Str

-- the driver's two results, and the store when it returns
pub record Answer : Type 0 where
  pub result : DriverResult
  pub error : Option Str
  pub store : Store

abbrev pub Driver : Type 0
Driver = Request → Store → Answer

-- a run as the control plane gets it; the two times are not formatted
pub record RunRecord : Type 0 where
  pub run_id : Str
  pub task_name : Str
  pub trigger : Str
  pub status : RunStatus
  pub started_at : ℕ
  pub ended_at : ℕ
  pub tool_calls : ℕ
  pub num_turns : ℕ
  pub cost_usd_micro : ℕ
  pub model : Str
  pub system_prompt : Str
  pub user_prompt : Str
  pub result : Str
  pub summary : Str
  pub error : Str

-- the runner, the store behind it, and the reports handed to the Reporter
pub record World : Type 0 where
  pub tools : Registry
  pub max_tool_calls : ℕ
  pub system_prompt : Str
  pub reporting : Bool
  pub inflight : List Str
  pub store : Store
  pub reports : List RunRecord

-- ctx.Err(): nil, Canceled or DeadlineExceeded
pub data Context : Type 0 where
  live cancelled expired : Context

pub record Env : Type 0 where
  pub run_id : Option Str
  pub house_rules : Str
  pub started : ℕ
  pub warned : ℕ
  pub finished : ℕ
  pub reported : ℕ
  pub start_faults : Faults
  pub mission_faults : Faults
  pub log_faults : Faults
  pub finish_faults : Faults
  pub read_faults : Faults
  pub mission_error : Str
  pub ctx : Context
  pub cctx : Context

pub data RunError : Type 0 where
  name_required prompt_required already_running no_random : RunError
  start finish : StateError → RunError

pub record Outcome : Type 0 where
  pub run : TaskRun
  pub result : DriverResult
  pub error : Option RunError

abbrev pub zero_run : TaskRun
zero_run = record {
  id = [];
  task_name = [];
  trigger = [];
  started_at = none;
  ended_at = none;
  status = RunStatus.other [];
  summary = [];
  tool_calls = 0;
  cost_usd_micro = 0;
  error = [];
}

abbrev pub zero_result : DriverResult
zero_result = record { final_message = []; tool_calls = 0; cost_usd_micro = 0; error = [] }

abbrev pub refusal : RunError → Outcome
refusal e = record { run = zero_run; result = zero_result; error = some e }

abbrev pub is_busy : Str → List Str → Bool
is_busy name = any (λ n. str_eq n name)
