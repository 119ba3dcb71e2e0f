-- ===== src/Task/Runner.antt =====
-- internal/task/runner.go: Runner.Run with its log sink; and what it reads of internal/driver/driver.go
-- and internal/runreport/reporter.go. The LLM driver is an argument: what it answers to a request, and
-- the store that its run leaves. Calls of the clock, the random source and the contexts are fields of
-- `Env`.
pub mod Types
pub use Types.*
use agent_ops.Prelude.{
  ℕ, ◌+◌, Str, lit, str_eq, Option, none, some, Result, ok, err, List, [], ◌∷◌, ◌++◌, Bool, true,
  false, ◌||◌, not, if◌then◌else◌, is_nil, any, keep,
}
use agent_ops.Tool.Registry.{Registry, subset}
use agent_ops.State.Data.{
  RunStatus, completed, failed, canceled, timeout, TaskRun, Mission, Store, StateError,
}
use agent_ops.State.Tx.{Faults}
use agent_ops.State.Runs.{start_run, finish_run, get_run, append_run_log}
use agent_ops.State.Mission.{get_mission}
use agent_ops.Task.Filter.{truncate}
use agent_ops.Task.Prompt.{compose_system_prompt, apply_bootstrap_house_rules}

-- the new set, and whether the name was free
unfoldable pub mark_inflight : Str → List Str → List Str × Bool
mark_inflight name inflight =
    if is_busy name inflight then (inflight, false) else (name ∷ inflight, true)

unfoldable pub release_inflight : Str → List Str → List Str
release_inflight name inflight = keep (λ n. not (str_eq n name)) inflight

-- runLogSink.Log; its callers drop the error
unfoldable pub sink_log : Faults → ℕ → Str → Str → Sink → Store → Sink × Store
sink_log f now level message k s =
    (record k { seq = k.seq + 1 }, (append_run_log f now k.run_id (k.seq + 1) level message s).1)

abbrev pub no_mission : Mission
no_mission = record { statement = []; facts = []; updated_at = 0 }

-- a mission that cannot be read is an empty one, with a warning in the run's log
abbrev pub mission_or_warning :
    Env → Sink → Store → Result StateError Mission → Mission × Sink × Store
mission_or_warning env k s (ok m) = (m, k, s)
mission_or_warning env k s (err e) =
    let (k', s') =
      sink_log env.log_faults env.warned (lit "warn")
        (lit "could not read instance mission: " ++ env.mission_error) k s in
    (no_mission, k', s')

unfoldable pub read_mission : Env → Sink → Store → Mission × Sink × Store
read_mission env k s = mission_or_warning env k s (get_mission env.mission_faults s)

abbrev pub is_expired : Context → Bool
is_expired expired = true
is_expired _ = false

abbrev pub is_cancelled : Context → Bool
is_cancelled cancelled = true
is_cancelled _ = false

abbrev pub by_driver : Option Str → Str → RunStatus × Str
by_driver (some e) reported = (failed, e)
by_driver none reported = if is_nil reported then (completed, []) else (failed, reported)

-- the switch that decides how the run ended: the contexts before the driver's errors
unfoldable pub final_status : Context → Context → Option Str → Str → RunStatus × Str
final_status ctx cctx driver_error reported =
    if is_expired cctx
    then (timeout, lit "task exceeded configured timeout")
    else if is_cancelled ctx || is_cancelled cctx
    then (canceled, lit "task canceled")
    else by_driver driver_error reported

abbrev pub or_zero : Result StateError TaskRun → TaskRun
or_zero (ok r) = r
or_zero (err e) = zero_run

abbrev pub with_store : World → Store → World
with_store w s = record w { store = s }

abbrev pub send : World → RunRecord → World
send w rec = if w.reporting then record w { reports = w.reports ++ rec ∷ [] } else w

abbrev pub new_run : Env → Str → Spec → TaskRun
new_run env id spec = record zero_run {
  id = id;
  task_name = spec.name;
  trigger = spec.trigger;
  started_at = some env.started;
}

-- FinishRun's result decides between its error and the report
abbrev pub conclude :
    Env
    → Str
    → Spec
    → Str
    → Answer
    → RunStatus × Str
    → World
    → Result StateError (Unit {0}) × Store
    → Outcome × World
conclude env id spec prompt a (status, message) w (err e, s) = (
  record { run = new_run env id spec; result = a.result; error = some (finish e) },
  with_store w s,
)
conclude env id spec prompt a (status, message) w (ok _, s) = (
  record { run = or_zero (get_run env.read_faults id s); result = a.result; error = none },
  send (with_store w s) (record {
    run_id = id;
    task_name = spec.name;
    trigger = spec.trigger;
    status = status;
    started_at = env.started;
    ended_at = env.reported;
    tool_calls = a.result.tool_calls;
    num_turns = a.result.tool_calls;
    cost_usd_micro = a.result.cost_usd_micro;
    model = spec.model;
    system_prompt = prompt;
    user_prompt = spec.prompt;
    result = a.result.final_message;
    summary = truncate a.result.final_message 2000;
    error = message;
  }),
)

abbrev pub request_of : Env → Spec → World → Mission → Sink → Request
request_of env spec w m k = record {
  system_prompt =
      apply_bootstrap_house_rules env.house_rules (compose_system_prompt w.system_prompt m);
  user_prompt = spec.prompt;
  tools = subset spec.tools w.tools;
  max_tool_calls = w.max_tool_calls;
  model = spec.model;
  log_sink = k;
}

abbrev pub status_of : Env → Answer → RunStatus × Str
status_of env a = final_status env.ctx env.cctx a.error a.result.error

-- the driver's answer: FinishRun, then the report
unfoldable pub close_up : Env → Str → Spec → Str → Answer → World → Outcome × World
close_up env id spec prompt a w =
    let (status, message) = status_of env a in
    conclude env id spec prompt a (status_of env a) w (
      finish_run env.finish_faults env.finished id status (truncate a.result.final_message 2000)
        message a.result.tool_calls a.store)

-- after StartRun: the prompt and the driver
unfoldable pub drive : Driver → Env → Str → Spec → World → Outcome × World
drive driver env id spec w =
    let (m, k, s) = read_mission env (record { run_id = id; seq = 0 }) w.store in
    let req = request_of env spec w m k in close_up env id spec req.system_prompt (driver req s) w

abbrev pub if_started :
    Driver → Env → Str → Spec → World → Result StateError (Unit {0}) × Store → Outcome × World
if_started driver env id spec w (err e, s) = (refusal (start e), with_store w s)
if_started driver env id spec w (ok _, s) = drive driver env id spec (with_store w s)

abbrev pub with_run_id : Driver → Env → Option Str → Spec → World → Outcome × World
with_run_id driver env none spec w = (refusal no_random, w)
with_run_id driver env (some id) spec w =
    if_started driver env id spec w
      (start_run env.start_faults env.started (new_run env id spec) w.store)

-- `defer r.releaseInflight(spec.Name)`
abbrev pub released : Str → Outcome × World → Outcome × World
released name (o, w) = (o, record w { inflight = release_inflight name w.inflight })

abbrev pub if_free : Driver → Env → Spec → World → List Str × Bool → Outcome × World
if_free driver env spec w (inflight, false) = (refusal already_running, w)
if_free driver env spec w (inflight, true) =
    released spec.name (with_run_id driver env env.run_id spec (record w { inflight = inflight }))

unfoldable pub run : Driver → Env → Spec → World → Outcome × World
run driver env spec w =
    if is_nil spec.name
    then (refusal name_required, w)
    else if is_nil spec.prompt
    then (refusal prompt_required, w)
    else if_free driver env spec w (mark_inflight spec.name w.inflight)
