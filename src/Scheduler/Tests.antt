-- ===== src/Scheduler/Tests.antt =====
-- The scheduler's theorems over a cron table that refuses empty schedules.
use agent_ops.Prelude.{Str, lit, none, ok, List, [], ◌∷◌, ◌≡◌, refl, true, if◌then◌else◌}
use agent_ops.Prelude.Assoc.{get}
use agent_ops.State.Data.{Task, fresh}
use agent_ops.State.Tx.{no_faults, transaction}
use agent_ops.State.Tasks.{put_task, upsert_task, list_tasks}
use agent_ops.Prelude.Sort.{sort}
use agent_ops.Task.Samples.{plain_env, idle, quick}
use agent_ops.Task.Runner.{Spec, run, with_store}
use agent_ops.Scheduler.Slots.{slots_cron, stopped, stopped-IsCoherent}
use agent_ops.Scheduler.Model.{
  unschedule, register_task, set_task, hydrate, upsert_schedules, register_all, Upserts, tick,
}
use agent_ops.Scheduler.Entries.{IsCoherent, scheduled}
use agent_ops.Scheduler.SetTask.{IsApplied, set_task-IsApplied}
use agent_ops.Scheduler.RegisterAll.{IsRange, or_kept, merged}
use agent_ops.Scheduler.Hydrate.{hydrate_merges}
use agent_ops.Scheduler.Ticks.{Asks, some_run, tick-set_task}

abbrev probe : Task
probe = record {
  name = lit "probe";
  cron = lit "*/5 * * * *";
  prompt = lit "Check the app.";
  tools = lit "shell" ∷ [];
  enabled = true;
  updated_at = 0;
}

set_task-IsApplied_example :
    let (r, s', db') = set_task slots_cron no_faults 5 probe stopped (fresh 1) in
    IsApplied slots_cron 5 probe stopped (fresh 1) r s' db'
set_task-IsApplied_example =
    set_task-IsApplied slots_cron no_faults 5 probe stopped (fresh 1) stopped-IsCoherent

abbrev range : List Task → List Task
range ts = ts

range-IsRange : IsRange range
range-IsRange = record { once = λ ts h. h; same = λ ts k h. refl }

abbrev from_config : Upserts
from_config =
    (
      no_faults,
      3,
      record {
        name = lit "probe";
        cron = lit "@hourly";
        prompt = lit "Check.";
        tools = [];
        enabled = none;
        model = lit "haiku";
        verify_prompt = [];
        verify_model = [];
      },
    )
    ∷ []

hydrate_merges_example :
    let (r, s', db') = hydrate slots_cron range no_faults from_config none stopped (fresh 1) in
    IsCoherent slots_cron s'
    × ((u : Unit {0})
        → r ≡ ok u
        → (k : Str)
        → scheduled slots_cron k s'
          ≡ or_kept (merged k from_config []) (scheduled slots_cron k stopped))
unfolding list_tasks fresh sort
hydrate_merges_example =
    hydrate_merges slots_cron range no_faults from_config none stopped (fresh 1) [] range-IsRange
      stopped-IsCoherent refl

-- Hydrate's own result at that input
hydrated : (hydrate slots_cron range no_faults from_config none stopped (fresh 1)).0 ≡ ok tt
unfolding list_tasks fresh hydrate upsert_schedules upsert_task transaction register_all put_task
    sort register_task
hydrated = refl

abbrev bad_probe : Task
bad_probe = record probe { cron = lit "? * *" }

tick-set_task_example :
    let (r, s', db) = set_task slots_cron no_faults 5 probe stopped (fresh 1) in
    (spec : Spec) × Asks [] probe s'.model_overrides spec
    × (tick slots_cron no_faults [] quick plain_env (lit "probe") s' (with_store idle db) ≡ (
        if s'.has_runner
        then some_run (run quick plain_env spec (with_store idle db))
        else (none, with_store idle db)))
unfolding set_task upsert_task transaction register_task unschedule get
tick-set_task_example =
    tick-set_task slots_cron [] quick plain_env no_faults 5 probe stopped idle tt stopped-IsCoherent
      refl
