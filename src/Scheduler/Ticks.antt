-- ===== src/Scheduler/Ticks.antt =====
-- What a tick of cron runs after SetTask.
use agent_ops.Prelude.{
  ℕ, Str, lit, [], ◌++◌, append_assoc, is_nil, trim_space, str_eq_refl, Option, none, some, ok, ◌≡◌,
  refl, Bool, true, false, ◌&&◌, not, if◌then◌else◌,
}
use agent_ops.State.Data.{Task}
use agent_ops.State.Tx.{Faults, no_faults}
use agent_ops.Task.Runner.{Spec, Driver, Env, World, Outcome, run, with_store}
use agent_ops.Scheduler.Cron.{Cron}
use agent_ops.Prelude.Assoc.{Assoc, get}
use agent_ops.Scheduler.Model.{Scheduler, set_task, spec_of, model_for, append_notify_clause, tick}
use agent_ops.Scheduler.Entries.{IsCoherent}
use agent_ops.Scheduler.SetTask.{set_task-IsApplied}

both_flags :
    {A : Type 0} (b c : Bool) (x y : A)
    → (if not b then x else if not c then x else y) ≡ (if b && c then y else x)
both_flags true true x y = refl
both_flags true false x y = refl
both_flags false c x y = refl

-- the outcome and the world, as a tick returns them
abbrev pub some_run : Outcome × World → Option Outcome × World
some_run (o, w) = (some o, w)

-- what a tick asks the runner for: everything of the task, and the model of the overrides
pub record Asks (workflow : Str) (t : Task) (overrides : Assoc Str) (spec : Spec) : Type 0 where
  pub name : spec.name ≡ t.name
  pub trigger : spec.trigger ≡ lit "schedule"
  pub tools : spec.tools ≡ t.tools
  pub plain : is_nil (trim_space workflow) ≡ true → spec.prompt ≡ t.prompt
  pub with_clause :
      is_nil (trim_space workflow) ≡ false
      → (before after : Str) × (spec.prompt
          ≡ t.prompt
            ++ (before ++ (lit "zibby workflow trigger " ++ (trim_space workflow ++ after))))
  pub own_model : (m : Str) → get t.name overrides ≡ some m → spec.model ≡ m
  pub default_model : get t.name overrides ≡ none → spec.model ≡ []

spec_of-Asks :
    (C : Cron) (workflow : Str) (t : Task) (s : Scheduler C)
    → Asks workflow t s.model_overrides (spec_of C workflow (lit "schedule") t.prompt t s)
unfolding model_for append_notify_clause
spec_of-Asks C workflow t s = record {
  name = refl;
  trigger = refl;
  tools = refl;
  plain = λ e. rw e refl;
  with_clause = λ e. (
    lit "\n\nIf the application is down AND you cannot recover it (soft-restart did not\n"
        ++ lit "bring it back), run the shell command:\n"
        ++ lit "  ",
    lit " \\\n"
        ++ lit "    --input instance_id=\"$INSTANCE_ID\" \\\n"
        ++ lit "    --input error=\"<your one-line summary>\" \\\n"
        ++ lit "    --input severity=\"high\"\n"
        ++ lit "so the operator gets paged.",
    rw e (simp append_assoc),
  );
  own_model = λ m e. rw e refl;
  default_model = λ e. rw e refl;
}

module _ (C : Cron) (workflow : Str) (driver : Driver) (env : Env) (f : Faults) (now : ℕ) (t : Task)
    (s : Scheduler C) (w : World) where
  -- After SetTask without an error, a tick for the task, from whichever entry, changes nothing if the
  -- task is disabled or there is no runner. Otherwise it runs the new prompt, and behind it the clause
  -- on the workflow if one is configured, with the new tools, as a scheduled run of the task, under the
  -- model that is set for the task, or the driver's own.
  pub tick-set_task :
      (u : Unit {0})
      → IsCoherent C s
      → (set_task C f now t s w.store).0 ≡ ok u
      → (let (r, s', db) = set_task C f now t s w.store in
          (spec : Spec) × Asks workflow t s'.model_overrides spec
          × (tick C no_faults workflow driver env t.name s' (with_store w db) ≡ (
              if t.enabled && s'.has_runner
              then some_run (run driver env spec (with_store w db))
              else (none, with_store w db))))
  unfolding tick
  tick-set_task u h q =
      let (r, s', db) = set_task C f now t s w.store in
      let set = set_task-IsApplied C f now t s w.store h in
      let spec = spec_of C workflow (lit "schedule") t.prompt t s' in
      (
        spec,
        spec_of-Asks C workflow t s',
        rw (set.stored u q t.name, str_eq_refl t.name)
            (both_flags t.enabled s'.has_runner (none, with_store w db)
              (some_run (run driver env spec (with_store w db)))),
      )
