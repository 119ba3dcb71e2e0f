-- ===== src/Bootstrap/FirstRun.antt =====
-- internal/bootstrap/bootstrap.go: MaybeRunFirstRun, runVerifier and finalizeBootstrapSuccess. The three
-- ways to install without the task (script, cheatsheet, agent_script) are arguments, as are the ports that
-- listen, the clock and the disk. Waiting and the daemon's own log are left out.
use agent_ops.Prelude.{
  ℕ, ◌+◌, Str, lit, trim_space, Option, none, some, Result, ok, err, List, ◌++◌, Bool, true, false,
  ◌&&◌, not, if◌then◌else◌, is_nil,
}
use agent_ops.Config.Data.{Schedule}
use agent_ops.State.Data.{Task, TaskRun, Fact, Store, StateError}
use agent_ops.State.Tx.{Faults}
use agent_ops.State.Tasks.{upsert_task}
use agent_ops.State.Runs.{append_run_log}
use agent_ops.State.Mission.{add_fact}
use agent_ops.Task.Filter.{truncate}
use agent_ops.Task.Runner.{Driver, Env, World, Outcome, RunError, with_store}
use agent_ops.Scheduler.Cron.{Cron}
use agent_ops.Scheduler.Model.{Scheduler, SchedulerError, set_model_override, run_now}
use agent_ops.Bootstrap.Verdict.{
  VerifierResult, VerdictError, no_object, not_decoded, parse_verifier_json,
}

-- the error of RunNow: its own, or that of Runner.Run
pub data RunNowError : Type 0 where
  refused : SchedulerError → RunNowError
  broken : RunError → RunNowError

pub data FirstRunError : Type 0 where
  no_stat not_installed not_marked : Str → FirstRunError
  not_stored : StateError → FirstRunError
  not_run : RunNowError → FirstRunError

abbrev pub or_error : TaskRun → Option RunError → Result RunNowError TaskRun
or_error r none = ok r
or_error r (some e) = err (broken e)

abbrev pub returned : Result SchedulerError Outcome → Result RunNowError TaskRun
returned (err e) = err (refused e)
returned (ok o) = or_error o.run o.error

-- an AddFact: its database, its time, and the time in its text
pub record FactCall : Type 0 where
  pub faults : Faults
  pub now : ℕ
  pub stamp : Str

-- what happens around one task: the bootstrap's or the verifier's
pub record TaskCalls : Type 0 where
  pub upsert : Faults
  pub upserted : ℕ
  pub get : Faults
  pub env : Env
  pub fact : FactCall

abbrev pub manual_task : Str → Str → List Str → Task
manual_task name prompt tools = record {
  name = name;
  cron = lit "@yearly";
  prompt = prompt;
  tools = tools;
  enabled = false;
  updated_at = 0;
}

abbrev pub summary_of : TaskRun → Str
summary_of r =
    let s = trim_space r.summary in
    truncate (if is_nil s then lit "(no summary returned by bootstrap agent)" else s) 600

abbrev pub verdict_text : VerdictError → Str
verdict_text no_object = lit "no JSON object found in verifier output"
verdict_text (not_decoded e) = lit "unmarshal: " ++ e

abbrev pub verdict_fact : Str → VerifierResult → Str
verdict_fact stamp v =
    if v.pass
    then lit "verify_passed at " ++ stamp ++ lit ": " ++ v.evidence
    else lit "verify_failed at "
      ++ stamp
      ++ lit ": "
      ++ v.fail_reason
      ++ lit " (evidence: "
      ++ v.evidence
      ++ lit ")"

abbrev pub verify_name : Schedule → Str
verify_name sch = sch.name ++ lit ".verify"

module _ (C : Cron) where
  pub record Boot : Type 0 where
    pub scheduler : Scheduler C
    pub world : World
    -- whether the file bootstrap.done is there
    pub marker : Bool
    -- the calls of RegisterPortIfNeeded
    pub handshakes : ℕ

  abbrev pub Install : Type 0
  Install = Boot → Option Str × Scheduler C × World

  pub record FirstRunCalls : Type 0 where
    -- strings.EqualFold
    pub equal_fold : Str → Str → Bool
    -- AGENT_OPS_BOOTSTRAP_MODE, AGENT_OPS_BOOTSTRAP_SCRIPT and AGENT_OPS_NOTIFY_WORKFLOW_ID
    pub mode : Str
    pub script : Str
    pub workflow : Str
    -- the error of os.Stat, but for a file that does not exist
    pub stat : Option Str
    -- appIsListening, before and after an installation
    pub up_before : Bool
    pub up_after : Bool
    pub run_script : Install
    pub run_cheatsheet : Install
    pub run_agent_script : Install
    pub installed_fact : FactCall
    pub driver : Driver
    pub first : TaskCalls
    pub log_faults : Faults
    pub logged : ℕ
    pub verifier : TaskCalls
    -- json.Unmarshal
    pub decode : Str → Result Str VerifierResult
    pub error_text : RunNowError → Str
    pub state_text : StateError → Str
    -- the error of os.WriteFile, and whether the file is there after it
    pub write : Option (Str × Bool)

  abbrev pub in_mode : FirstRunCalls → Str → Bool
  in_mode c name = c.equal_fold (trim_space c.mode) name

  abbrev pub in_store : Store → Boot → Boot
  in_store db b = record b { world = with_store b.world db }

  -- AddFact, with its results dropped
  abbrev pub with_fact : FactCall → Str → Str → Boot → Boot
  with_fact k source text b = in_store (add_fact k.faults k.now source text b.world.store).1 b

  abbrev pub marked : Option (Str × Bool) → Boot → Option FirstRunError × Boot
  marked none b = (none, record b { marker = true })
  marked (some (e, left)) b = (some (not_marked e), record b { marker = left })

  unfoldable pub finalize_bootstrap_success : FirstRunCalls → Boot → Option FirstRunError × Boot
  finalize_bootstrap_success c b = marked c.write (record b { handshakes = b.handshakes + 1 })

  -- an installation that fails counts as one that does not where the port is open
  abbrev pub after_install :
      FirstRunCalls
      → Str
      → Str
      → Boot
      → Option Str × Scheduler C × World
      → Option FirstRunError × Boot
  after_install c source note b (none, s, w) =
      finalize_bootstrap_success c (record b { scheduler = s; world = w })
  after_install c source note b (some e, s, w) =
      let b' : Boot = record b { scheduler = s; world = w } in
      if c.up_after
      then finalize_bootstrap_success c
          (with_fact c.installed_fact source (note ++ c.installed_fact.stamp ++ lit ": " ++ e) b')
      else (some (not_installed e), b')

  unfoldable pub task_run :
      FirstRunCalls → TaskCalls → Str → Str → Boot → Result RunNowError TaskRun × Boot
  task_run c k name prompt b =
      let (r, w) = run_now C k.get c.workflow c.driver k.env name prompt b.scheduler b.world in
      (returned r, record b { world = w })

  abbrev pub judged : FirstRunCalls → Boot → Result VerdictError VerifierResult → Bool × Boot
  judged c b (err e) = (
    false,
    with_fact c.verifier.fact (lit "bootstrap")
        (lit "verify_failed: could not parse verifier JSON at "
          ++ c.verifier.fact.stamp
          ++ lit ": "
          ++ verdict_text e)
        b,
  )
  judged c b (ok v) =
      (v.pass, with_fact c.verifier.fact (lit "bootstrap") (verdict_fact c.verifier.fact.stamp v) b)

  abbrev pub verifier_ran : FirstRunCalls → Result RunNowError TaskRun × Boot → Bool × Boot
  verifier_ran c (err e, b) = (
    false,
    with_fact c.verifier.fact (lit "bootstrap")
        (lit "verify_failed: verifier run errored at "
          ++ c.verifier.fact.stamp
          ++ lit ": "
          ++ c.error_text e)
        b,
  )
  verifier_ran c (ok r, b) = judged c b (parse_verifier_json c.decode r.summary)

  abbrev pub verifier_stored :
      FirstRunCalls → Schedule → Boot → Result StateError (Unit {0}) × Store → Bool × Boot
  verifier_stored c sch b (err e, db) = (false, in_store db b)
  verifier_stored c sch b (ok _, db) = verifier_ran c (
      task_run c c.verifier (verify_name sch) sch.verify_prompt (record (in_store db b) {
        scheduler = set_model_override C (verify_name sch) sch.verify_model b.scheduler;
      }))

  unfoldable pub run_verifier : FirstRunCalls → Schedule → Boot → Bool × Boot
  run_verifier c sch b = verifier_stored c sch b (
      upsert_task c.verifier.upsert c.verifier.upserted
        (manual_task (verify_name sch) sch.verify_prompt sch.tools) b.world.store)

  abbrev pub if_passed : FirstRunCalls → Bool × Boot → Option FirstRunError × Boot
  if_passed c (false, b) = (none, b)
  if_passed c (true, b) = finalize_bootstrap_success c b

  unfoldable pub verified : FirstRunCalls → Schedule → Boot → Option FirstRunError × Boot
  verified c sch b =
      if is_nil (trim_space sch.verify_prompt)
      then finalize_bootstrap_success c b
      else if_passed c (run_verifier c sch b)

  -- a fact that cannot be stored becomes a line of the run's log
  abbrev pub fact_or_line : FirstRunCalls → TaskRun → Result StateError (List Fact) × Store → Store
  fact_or_line c r (ok _, db) = db
  fact_or_line c r (err e, db) =
      (append_run_log c.log_faults c.logged r.id 99999 (lit "warn")
        (lit "could not persist bootstrap fact: " ++ c.state_text e) db).1

  unfoldable pub completed_fact : FirstRunCalls → TaskRun → Boot → Boot
  completed_fact c r b =
      let k = c.first.fact in
      in_store
        (fact_or_line c r (
          add_fact k.faults k.now (lit "bootstrap")
            (lit "Initial setup completed at " ++ k.stamp ++ lit ": " ++ summary_of r)
            b.world.store))
        b

  abbrev pub task_ran :
      FirstRunCalls → Schedule → Result RunNowError TaskRun × Boot → Option FirstRunError × Boot
  task_ran c sch (err e, b) = (some (not_run e), b)
  task_ran c sch (ok r, b) = verified c sch (completed_fact c r b)

  abbrev pub task_stored :
      FirstRunCalls
      → Schedule
      → Boot
      → Result StateError (Unit {0}) × Store
      → Option FirstRunError × Boot
  task_stored c sch b (err e, db) = (some (not_stored e), in_store db b)
  task_stored c sch b (ok _, db) =
      task_ran c sch (task_run c c.first sch.name sch.prompt (in_store db b))

  abbrev pub by_task : FirstRunCalls → Option Schedule → Boot → Option FirstRunError × Boot
  by_task c none b = (none, b)
  by_task c (some sch) b = task_stored c sch b (
      upsert_task c.first.upsert c.first.upserted (manual_task sch.name sch.prompt sch.tools)
        b.world.store)

  unfoldable pub install : FirstRunCalls → Option Schedule → Boot → Option FirstRunError × Boot
  install c sch b =
      if in_mode c (lit "script")
      then after_install c (lit "bootstrap") (lit "script_exit_nonzero_but_port_open at ") b
          (c.run_script b)
      else if in_mode c (lit "cheatsheet")
      then after_install c (lit "cheatsheet") (lit "agent_errored_but_port_open at ") b
          (c.run_cheatsheet b)
      else if in_mode c (lit "agent_script")
      then after_install c (lit "agent_script") (lit "errored_but_port_open at ") b
          (c.run_agent_script b)
      else by_task c sch b

  abbrev pub from_marker :
      FirstRunCalls → Option Schedule → Boot → Option Str → Option FirstRunError × Boot
  from_marker c sch b (some e) = (some (no_stat e), b)
  from_marker c sch b none =
      if b.marker && c.up_before
      then (none, record b { handshakes = b.handshakes + 1 })
      else install c sch b

  abbrev pub is_none : Option Schedule → Bool
  is_none none = true
  is_none (some sch) = false

  unfoldable pub maybe_run_first_run :
      FirstRunCalls → Option Schedule → Boot → Option FirstRunError × Boot
  maybe_run_first_run c sch b =
      if is_none sch
        && is_nil (trim_space c.script)
        && not (in_mode c (lit "cheatsheet"))
        && not (in_mode c (lit "agent_script"))
      then (none, b)
      else from_marker c sch b c.stat
