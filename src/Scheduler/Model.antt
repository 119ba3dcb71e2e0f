-- ===== src/Scheduler/Model.antt =====
-- internal/scheduler/scheduler.go. The runner is Task.Runner; cron is an argument.
use agent_ops.Prelude.{
  ℕ, Str, lit, trim_space, Option, none, some, Result, ok, err, List, [], ◌∷◌, ◌++◌, Bool, true,
  false, ◌&&◌, not, if◌then◌else◌, is_nil,
}
use agent_ops.Prelude.Assoc.{Assoc, get, put, remove, keys}
use agent_ops.Config.Data.{Schedule}
use agent_ops.State.Data.{Task, Store, StateError}
use agent_ops.State.Tx.{Faults}
use agent_ops.State.Tasks.{put_task, upsert_task, get_task, list_tasks}
use agent_ops.Task.Runner.{Spec, Driver, Env, World, Outcome, run}
use agent_ops.Scheduler.Cron.{Cron}

pub data SchedulerError : Type 0 where
  name_required cron_required runner_disabled : SchedulerError
  bad_cron : Str → SchedulerError
  listing upsert_failed get_failed : StateError → SchedulerError

abbrev pub is_enabled : Option Bool → Bool
is_enabled none = true
is_enabled (some b) = b

abbrev pub task_of : Schedule → Task
task_of c = record {
  name = c.name;
  cron = c.cron;
  prompt = c.prompt;
  tools = c.tools;
  enabled = is_enabled c.enabled;
  updated_at = 0;
}

-- `workflow` is the environment's AGENT_OPS_NOTIFY_WORKFLOW_ID, empty if it is not set
unfoldable pub append_notify_clause : Str → Str → Str
append_notify_clause workflow prompt =
    if is_nil (trim_space workflow)
    then prompt
    else prompt
      ++ lit "\n\nIf the application is down AND you cannot recover it (soft-restart did not\n"
      ++ lit "bring it back), run the shell command:\n"
      ++ lit "  zibby workflow trigger "
      ++ trim_space workflow
      ++ lit " \\\n"
      ++ lit "    --input instance_id=\"$INSTANCE_ID\" \\\n"
      ++ lit "    --input error=\"<your one-line summary>\" \\\n"
      ++ lit "    --input severity=\"high\"\n"
      ++ lit "so the operator gets paged."

-- `byName` as a list of tasks, each under its own name; `byName[t.Name] = t`
abbrev pub index_tasks : List Task → List Task → List Task
index_tasks [] by_name = by_name
index_tasks (t ∷ ts) by_name = index_tasks ts (put_task t by_name)

-- the configuration's tasks, each with the calls of the database that fail in its upsert and its time
abbrev pub Upserts : Type 0
Upserts = List (Faults × ℕ × Schedule)

abbrev pub if_upserted :
    (Store → Result SchedulerError (List Task) × Store)
    → Result StateError (Unit {0}) × Store
    → Result SchedulerError (List Task) × Store
if_upserted k (err e, db) = (err (upsert_failed e), db)
if_upserted k (ok _, db) = k db

-- the loop of Hydrate that upserts the configuration's tasks
unfoldable pub upsert_schedules :
    Upserts → List Task → Store → Result SchedulerError (List Task) × Store
upsert_schedules [] by_name db = (ok by_name, db)
upsert_schedules ((f, now, c) ∷ cs) by_name db =
    if_upserted (λ db'. upsert_schedules cs (put_task (task_of c) by_name) db')
      (upsert_task f now (task_of c) db)

module _ (C : Cron) where
  pub record Scheduler : Type 0 where
    pub table : C.Table
    pub entries : Assoc ℕ
    pub model_overrides : Assoc Str
    pub has_runner : Bool

  -- an entry of the task is taken away, if it has one
  unfoldable pub unschedule : Str → Scheduler → Scheduler
  unschedule name s = without (get name s.entries)
    where
      without : Option ℕ → Scheduler
      without none = s
      without (some id) = record s { table = C.remove id s.table; entries = remove name s.entries }

  abbrev pub added :
      Task → Scheduler → Option (ℕ × C.Table) → Result SchedulerError (Unit {0}) × Scheduler
  added t s none = (err (bad_cron t.cron), s)
  added t s (some (id, table)) =
      (ok tt, record s { table = table; entries = put t.name id s.entries })

  -- the old entry goes before the new one is tried
  unfoldable pub register_task : Task → Scheduler → Result SchedulerError (Unit {0}) × Scheduler
  register_task t s = let s' = unschedule t.name s in added t s' (C.add_func t.cron t.name s'.table)

  -- `enabled` is the task's
  abbrev pub enter :
      Bool → Task → Scheduler → Store → Result SchedulerError (Unit {0}) × Scheduler × Store
  enter true t s db = let (r, s') = register_task t s in (r, s', db)
  enter false t s db = (ok tt, unschedule t.name s, db)

  abbrev pub set_entry :
      Task
      → Scheduler
      → Result StateError (Unit {0}) × Store
      → Result SchedulerError (Unit {0}) × Scheduler × Store
  set_entry t s (err e, db) = (err (upsert_failed e), s, db)
  set_entry t s (ok _, db) = enter t.enabled t s db

  unfoldable pub set_task :
      Faults → ℕ → Task → Scheduler → Store → Result SchedulerError (Unit {0}) × Scheduler × Store
  set_task f now t s db =
      if is_nil t.name
      then (err name_required, s, db)
      else if t.enabled && is_nil t.cron
      then (err cron_required, s, db)
      else set_entry t s (upsert_task f now t db)

  unfoldable pub set_model_override : Str → Str → Scheduler → Scheduler
  set_model_override task_name model s =
      if is_nil task_name
      then s
      else if is_nil model
      then record s { model_overrides = remove task_name s.model_overrides }
      else record s { model_overrides = put task_name model s.model_overrides }

  abbrev pub or_default : Option Str → Str
  or_default none = []
  or_default (some m) = m

  unfoldable pub model_for : Str → Scheduler → Str
  model_for task_name s = or_default (get task_name s.model_overrides)

  unfoldable pub entries_of : Scheduler → List Str
  entries_of s = keys s.entries

  abbrev pub set_model : Str → Str → Scheduler → Scheduler
  set_model name model s =
      if is_nil model then s else record s { model_overrides = put name model s.model_overrides }

  unfoldable pub config_models : Upserts → Scheduler → Scheduler
  config_models [] s = s
  config_models ((f, now, c) ∷ cs) s = config_models cs (set_model c.name c.model s)

  abbrev pub bootstrap_model : Option Schedule → Scheduler → Scheduler
  bootstrap_model none s = s
  bootstrap_model (some b) s = set_model b.name b.model s

  abbrev pub then_register :
      (Scheduler → Result SchedulerError (Unit {0}) × Scheduler)
      → Result SchedulerError (Unit {0}) × Scheduler
      → Result SchedulerError (Unit {0}) × Scheduler
  then_register k (err e, s) = (err e, s)
  then_register k (ok _, s) = k s

  -- the last loop, over the tasks in the order that the map gives
  unfoldable pub register_all : List Task → Scheduler → Result SchedulerError (Unit {0}) × Scheduler
  register_all [] s = (ok tt, s)
  register_all (t ∷ ts) s =
      if t.enabled
      then then_register (λ s'. register_all ts s') (register_task t s)
      else register_all ts s

  abbrev pub register_indexed :
      (List Task → List Task)
      → Scheduler
      → Result SchedulerError (List Task) × Store
      → Result SchedulerError (Unit {0}) × Scheduler × Store
  register_indexed order s (err e, db) = (err e, s, db)
  register_indexed order s (ok by_name, db) =
      let (r, s') = register_all (order by_name) s in (r, s', db)

  abbrev pub hydrate_listed :
      (List Task → List Task)
      → Upserts
      → Option Schedule
      → Scheduler
      → Store
      → Result StateError (List Task)
      → Result SchedulerError (Unit {0}) × Scheduler × Store
  hydrate_listed order cs b s db (err e) = (err (listing e), s, db)
  hydrate_listed order cs b s db (ok stored) =
      register_indexed order (bootstrap_model b (config_models cs s))
        (upsert_schedules cs (index_tasks stored []) db)

  -- `order` is the order in which Go ranges over the map
  unfoldable pub hydrate :
      (List Task → List Task)
      → Faults
      → Upserts
      → Option Schedule
      → Scheduler
      → Store
      → Result SchedulerError (Unit {0}) × Scheduler × Store
  hydrate order f cs b s db = hydrate_listed order cs b s db (list_tasks f db)

  abbrev pub spec_of : Str → Str → Str → Task → Scheduler → Spec
  spec_of workflow trigger prompt t s = record {
    name = t.name;
    trigger = trigger;
    prompt = append_notify_clause workflow prompt;
    tools = t.tools;
    model = model_for t.name s;
  }

  abbrev pub tick_found :
      Str → Driver → Env → Scheduler → World → Result StateError Task → Option Outcome × World
  tick_found workflow driver env s w (err e) = (none, w)
  tick_found workflow driver env s w (ok t) =
      if not t.enabled
      then (none, w)
      else if not s.has_runner
      then (none, w)
      else (let (o, w') = run driver env (spec_of workflow (lit "schedule") t.prompt t s) w in
          (some o, w'))

  -- makeJob's closure for the task of that name: the outcome of the run, where there is one
  unfoldable pub tick :
      Faults → Str → Driver → Env → Str → Scheduler → World → Option Outcome × World
  tick f workflow driver env name s w = tick_found workflow driver env s w (get_task f name w.store)

  abbrev pub run_found :
      Str
      → Driver
      → Env
      → Str
      → Scheduler
      → World
      → Result StateError Task
      → Result SchedulerError Outcome × World
  run_found workflow driver env override s w (err e) = (err (get_failed e), w)
  run_found workflow driver env override s w (ok t) =
      let prompt = (if is_nil override then t.prompt else override) in
      let (o, w') = run driver env (spec_of workflow (lit "manual") prompt t s) w in (ok o, w')

  unfoldable pub run_now :
      Faults
      → Str
      → Driver
      → Env
      → Str
      → Str
      → Scheduler
      → World
      → Result SchedulerError Outcome × World
  run_now f workflow driver env task_name override s w =
      if not s.has_runner
      then (err runner_disabled, w)
      else run_found workflow driver env override s w (get_task f task_name w.store)
