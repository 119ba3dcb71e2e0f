-- ===== src/Mcp/Effects.antt =====
-- internal/api/mcp/server.go: what a request to the server may change.
use agent_ops.Prelude.{
  Str, none, some, Result, ok, err, List, [], ◌∷◌, ◌≡◌, refl, Bool, true, false, not, ◌&&◌, is_nil,
  Option, if◌then◌else◌, Bool-cases, inl, inr,
}
use agent_ops.State.Data.{Task, Store, StateError, Fact}
use agent_ops.State.Mission.{set_statement, add_fact}
use agent_ops.State.Tasks.{upsert_task}
use agent_ops.State.History.{after_all, step, upsert, state_mission, learn}
use agent_ops.State.Follows.{Follows, unchanged-Follows}
use agent_ops.Tool.Registry.{Tool}
use agent_ops.Task.Runner.{World, Outcome}
use agent_ops.Task.RunTotal.{IsHistory}
use agent_ops.Task.RunFollows.{run-Follows}
use agent_ops.Scheduler.Cron.{Cron}
use agent_ops.Scheduler.Model.{
  Scheduler, SchedulerError, set_task, set_entry, enter, run_now, run_found,
}
use agent_ops.Scheduler.Entries.{IsCoherent}
use agent_ops.Scheduler.SetTask.{set_task-IsApplied}
use agent_ops.State.Tasks.{get_task}
use agent_ops.Mcp.Server.{
  Server, Around, ran, tool_run_now, stated, tool_set_mission, learnt, tool_remember_fact,
  default_enabled, task_set, tool_set_task, invoked, host_call, or_user,
}

module _ (C : Cron) where
  -- the entries of the scheduler still agree with cron, and the store is behind some operations
  pub record IsOrderly (s t : Server C) : Type 0 where
    pub coherent : IsCoherent C t.scheduler
    pub follows : Follows s.world.store t.world.store

module _ (C : Cron) (x : Around) where
  -- the driver and the tools use the store by its operations only
  pub record IsHonest : Type 0 where
    pub driver : IsHistory x.driver
    pub tools : (name input : Str) (s : Store) → Follows s (x.invoke name input s).1

  module _ (h : IsHonest) (s : Server C) (co : IsCoherent C s.scheduler) where
    pub still : IsOrderly C s s
    still = record { coherent = co; follows = unchanged-Follows s.world.store }

    pub either :
        {A : Type 0} (b : Bool) (v w : A × Server C)
        → IsOrderly C s v.1
        → IsOrderly C s w.1
        → IsOrderly C s (if b then v else w).1
    either true v w p q = p
    either false v w p q = q

    ran-IsOrderly :
        (r : Result SchedulerError Outcome × World)
        → Follows s.world.store r.1.store
        → IsOrderly C s (ran C s r).1
    ran-IsOrderly (err e, w) f = record { coherent = co; follows = f }
    ran-IsOrderly (ok o, w) f = record { coherent = co; follows = f }

    run_found-Follows :
        (override : Str) (r : Result StateError Task)
        → Follows s.world.store
            (run_found C x.workflow x.driver x.run_env override s.scheduler s.world r).1.store
    run_found-Follows override (err e) = unchanged-Follows _
    run_found-Follows override (ok t) = run-Follows x.driver h.driver x.run_env _ s.world

    run_now-Follows :
        (name override : Str)
        → Follows s.world.store
            (run_now C x.faults x.workflow x.driver x.run_env name override s.scheduler
              s.world).1.store
    unfolding run_now
    run_now-Follows name override = elim (Bool-cases (not s.scheduler.has_runner)) [
      | inl p ↦ rw p (unchanged-Follows _)
      | inr p ↦ rw p (run_found-Follows override (get_task x.faults name s.world.store))
    ]

    pub tool_run_now-IsOrderly :
        (r : Result Str (Str × Str)) → IsOrderly C s (tool_run_now C x r s).1
    unfolding tool_run_now
    tool_run_now-IsOrderly (err e) = still
    tool_run_now-IsOrderly (ok (name, override)) =
        either (is_nil name) _ _ still (ran-IsOrderly _ (run_now-Follows name override))

    stated-IsOrderly :
        (r : Result StateError (Unit {0}) × Store)
        → Follows s.world.store r.1
        → IsOrderly C s (stated C s r).1
    stated-IsOrderly (err e, db) f = record { coherent = co; follows = f }
    stated-IsOrderly (ok u, db) f = record { coherent = co; follows = f }

    pub tool_set_mission-IsOrderly :
        (r : Result Str Str) → IsOrderly C s (tool_set_mission C x r s).1
    unfolding tool_set_mission after_all step
    tool_set_mission-IsOrderly (err e) = still
    tool_set_mission-IsOrderly (ok statement) =
        stated-IsOrderly (set_statement x.faults x.now statement s.world.store)
          (record { acts = (x.faults, x.now, state_mission statement) ∷ []; at = refl })

    learnt-IsOrderly :
        (r : Result StateError (List Fact) × Store)
        → Follows s.world.store r.1
        → IsOrderly C s (learnt C s r).1
    learnt-IsOrderly (err e, db) f = record { coherent = co; follows = f }
    learnt-IsOrderly (ok u, db) f = record { coherent = co; follows = f }

    pub tool_remember_fact-IsOrderly :
        (r : Result Str (Str × Str)) → IsOrderly C s (tool_remember_fact C x r s).1
    unfolding tool_remember_fact after_all step
    tool_remember_fact-IsOrderly (err e) = still
    tool_remember_fact-IsOrderly (ok (f, source)) = either (is_nil f) _ _ still (
        learnt-IsOrderly (add_fact x.faults x.now (or_user C source) f s.world.store)
          (record { acts = (x.faults, x.now, learn (or_user C source) f) ∷ []; at = refl }))

    enter-store : (b : Bool) (t : Task) (db : Store) → (enter C b t s.scheduler db).2 ≡ db
    enter-store true t db = refl
    enter-store false t db = refl

    set_entry-store :
        (t : Task) (r : Result StateError (Unit {0}) × Store)
        → (set_entry C t s.scheduler r).2 ≡ r.1
    set_entry-store t (err e, db) = refl
    set_entry-store t (ok u, db) = enter-store t.enabled t db

    set_task-Follows :
        (t : Task) → Follows s.world.store (set_task C x.faults x.now t s.scheduler s.world.store).2
    unfolding set_task after_all step
    set_task-Follows t = elim (Bool-cases (is_nil t.name)) [
      | inl p ↦ rw p (unchanged-Follows _)
      | inr p ↦ elim (Bool-cases (t.enabled && is_nil t.cron)) [
        | inl q ↦ rw (p, q) (unchanged-Follows _)
        | inr q ↦
            rw (p, q)
              (record {
                acts = (x.faults, x.now, upsert t) ∷ [];
                at = set_entry-store t (upsert_task x.faults x.now t s.world.store);
              })
      ]
    ]

    task_set-IsOrderly :
        (r : Result SchedulerError (Unit {0}) × Scheduler C × Store)
        → IsCoherent C r.1
        → Follows s.world.store r.2
        → IsOrderly C s (task_set C s r).1
    task_set-IsOrderly (err e, sch, db) k f = record { coherent = k; follows = f }
    task_set-IsOrderly (ok u, sch, db) k f = record { coherent = k; follows = f }

    pub tool_set_task-IsOrderly :
        (raw : Str) (r : Result Str Task) → IsOrderly C s (tool_set_task C x raw r s).1
    unfolding tool_set_task
    tool_set_task-IsOrderly raw (err e) = still
    tool_set_task-IsOrderly raw (ok t) =
        let t' = default_enabled C raw t in
        either (is_nil t.name) _ _ still (
          either (is_nil t.prompt) _ _ still (
            task_set-IsOrderly (set_task C x.faults x.now t' s.scheduler s.world.store)
              (set_task-IsApplied C x.faults x.now t' s.scheduler s.world.store co).coherent
              (set_task-Follows t')))

    invoked-IsOrderly :
        (r : Result Str Str × Store) → Follows s.world.store r.1 → IsOrderly C s (invoked C s r).1
    invoked-IsOrderly (err e, db) f = record { coherent = co; follows = f }
    invoked-IsOrderly (ok u, db) f = record { coherent = co; follows = f }

    pub host_call-IsOrderly :
        (bare args : Str) (o : Option Tool) → IsOrderly C s (host_call C x bare args s o).1
    host_call-IsOrderly bare args none = still
    host_call-IsOrderly bare args (some t) =
        invoked-IsOrderly (x.invoke bare args s.world.store) (h.tools bare args s.world.store)
