-- ===== src/Scheduler/Hydrate.antt =====
-- Hydrate: what the configuration and the store's tasks make of the entries.
use agent_ops.Prelude.{
  Str, Option, none, some, Result, ok, err, List, [], ◌∷◌, ◌≡◌, refl, ap, ◌∙◌, find,
}
use agent_ops.Config.Data.{Schedule}
use agent_ops.State.Data.{Task, Store, StateError}
use agent_ops.State.Tx.{Faults}
use agent_ops.State.Tasks.{put_task, upsert_task, list_tasks}
use agent_ops.State.TaskLaws.{named, HasUniqueNames}
use agent_ops.Scheduler.Cron.{Cron}
use agent_ops.Scheduler.Model.{
  Scheduler, SchedulerError, task_of, index_tasks, Upserts, if_upserted, upsert_schedules,
  register_indexed, hydrate, config_models, bootstrap_model, set_model,
}
use agent_ops.Scheduler.Entries.{IsCoherent, scheduled}
use agent_ops.Scheduler.RegisterAll.{
  IsRange, or_else, last_named, or_kept, merged, config_tasks, find-index_tasks, index_tasks_unique,
  register_all-AllRegistered,
}

if_upserted_ok :
    (cs : Upserts) (m m' : List Task) (r : Result StateError (Unit {0}) × Store)
    → ((db : Store) → (upsert_schedules cs m db).0 ≡ ok m' → m' ≡ index_tasks (config_tasks cs) m)
    → (if_upserted (λ db. upsert_schedules cs m db) r).0 ≡ ok m'
    → m' ≡ index_tasks (config_tasks cs) m
if_upserted_ok cs m m' (err e, db) rest q = cc
if_upserted_ok cs m m' (ok u, db) rest q = rest db q

or_else-none : (o : Option Task) → or_else o none ≡ o
or_else-none none = refl
or_else-none (some t) = refl

-- the loop of upserts adds the configuration's tasks to the index
upsert_schedules_ok :
    (cs : Upserts) (m m' : List Task) (db : Store)
    → (upsert_schedules cs m db).0 ≡ ok m'
    → m' ≡ index_tasks (config_tasks cs) m
unfolding upsert_schedules
upsert_schedules_ok [] m m' db q = cc
upsert_schedules_ok ((f, now, c) ∷ cs) m m' db q =
    if_upserted_ok cs (put_task (task_of c) m) m' (upsert_task f now (task_of c) db)
      (λ db' q'. upsert_schedules_ok cs (put_task (task_of c) m) m' db' q') q

module _ (C : Cron) where
  -- the models of the configuration leave the entries and cron alone
  abbrev Overridden : Scheduler C → Scheduler C → Type 0
  Overridden s s' = (s'.table ≡ s.table) × (s'.entries ≡ s.entries)

  set_model-Overridden :
      (name model : Str) (s : Scheduler C) → Overridden s (set_model C name model s)
  set_model-Overridden name [] s = (refl, refl)
  set_model-Overridden name (c ∷ model) s = (refl, refl)

  config_models-Overridden : (cs : Upserts) (s : Scheduler C) → Overridden s (config_models C cs s)
  unfolding config_models
  config_models-Overridden [] s = (refl, refl)
  config_models-Overridden ((f, now, c) ∷ cs) s =
      let (p, q) = config_models-Overridden cs (set_model C c.name c.model s) in
      let (p', q') = set_model-Overridden c.name c.model s in (p ∙ p', q ∙ q')

  bootstrap_model-Overridden :
      (b : Option Schedule) (s : Scheduler C) → Overridden s (bootstrap_model C b s)
  bootstrap_model-Overridden none s = (refl, refl)
  bootstrap_model-Overridden (some b) s = set_model-Overridden b.name b.model s

  Overridden-IsCoherent :
      (s s' : Scheduler C)
      → Overridden s s'
      → IsCoherent C s
      → IsCoherent C s' × ((k : Str) → scheduled C k s' ≡ scheduled C k s)
  Overridden-IsCoherent s s' (p, q) h = (
    record {
      listed = λ name id. rw (p, q) (h.listed name id);
      owned = λ id spec name. rw (p, q) (h.owned id spec name);
    },
    λ k. rw (p, q),
  )

  register_indexed-AllRegistered :
      (order : List Task → List Task) (s : Scheduler C) (cs : Upserts) (m : List Task)
      (r : Result SchedulerError (List Task) × Store)
      → IsRange order
      → IsCoherent C s
      → HasUniqueNames m
      → ((m' : List Task) → r.0 ≡ ok m' → m' ≡ index_tasks (config_tasks cs) m)
      → (let (r', s', db') = register_indexed C order s r in
          IsCoherent C s'
          × ((u : Unit {0})
              → r' ≡ ok u
              → (k : Str)
              → scheduled C k s'
                ≡ or_kept
                    (or_else (last_named k (config_tasks cs)) (find (named k) m))
                    (scheduled C k s)))
  register_indexed-AllRegistered order s cs m (err e, db) range h n w = (h, λ u q. cc)
  register_indexed-AllRegistered order s cs m (ok m', db) range h n w =
      let n' : HasUniqueNames m' = rw (w m' refl) (index_tasks_unique (config_tasks cs) m n) in
      let all = register_all-AllRegistered C (order m') s h (range.once m' n') in
      (
        all.coherent,
        λ u q k.
            all.on_success u q k
            ∙ ap (λ o. or_kept o (scheduled C k s))
                (range.same m' k n'
                  ∙ (ap (find (named k)) (w m' refl) ∙ find-index_tasks k (config_tasks cs) m)),
      )

  -- Hydrate, whatever the order in which Go ranges over the map and whichever upserts fail, over a
  -- scheduler whose entries agree with cron and tasks that could be listed: the entries agree with cron
  -- afterwards; and without an error each name is scheduled as its last task in the configuration
  -- says, or if the configuration has none of that name, as the stored task says; a disabled or
  -- unknown task is left as it was.
  pub hydrate_merges :
      (order : List Task → List Task) (f : Faults) (cs : Upserts) (b : Option Schedule)
      (s : Scheduler C) (db : Store) (stored : List Task)
      → IsRange order
      → IsCoherent C s
      → list_tasks f db ≡ ok stored
      → (let (r, s', db') = hydrate C order f cs b s db in
          IsCoherent C s'
          × ((u : Unit {0})
              → r ≡ ok u
              → (k : Str) → scheduled C k s' ≡ or_kept (merged k cs stored) (scheduled C k s)))
  unfolding hydrate
  hydrate_merges order f cs b s db stored range h q =
      let s1 = config_models C cs s in
      let s2 = bootstrap_model C b s1 in
      let (c1, e1) = Overridden-IsCoherent s s1 (config_models-Overridden cs s) h in
      let (c2, e2) = Overridden-IsCoherent s1 s2 (bootstrap_model-Overridden b s1) c1 in
      let m = index_tasks stored [] in
      let (c, on_success) =
        register_indexed-AllRegistered order s2 cs m (upsert_schedules cs m db) range c2
          (index_tasks_unique stored [] tt) (λ m' w. upsert_schedules_ok cs m m' db w) in
      rw q (
        c,
        λ u w k.
            on_success u w k
            ∙ rw (find-index_tasks k stored [], or_else-none (last_named k stored), e2 k, e1 k),
      )
