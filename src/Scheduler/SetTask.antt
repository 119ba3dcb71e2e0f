-- ===== src/Scheduler/SetTask.antt =====
-- SetTask: the store, the entries and cron after it.
use agent_ops.Prelude.{
  ℕ, Str, str_eq, str_eq_refl, none, some, Result, ok, err, ◌≡◌, refl, sym, ap, ◌∙◌, Bool, true,
  false, ◌&&◌, if◌then◌else◌, is_nil, arith, Bool-cases, inl, inr,
}
use agent_ops.State.Data.{Task, Store, StateError}
use agent_ops.State.Tx.{Faults, no_faults, transaction, insert_event}
use agent_ops.State.Tasks.{upsert_task, get_task}
use agent_ops.State.TaskLaws.{find-put_task, get_task-upsert_task}
use agent_ops.Scheduler.Cron.{Cron}
use agent_ops.Scheduler.Model.{
  Scheduler, SchedulerError, bad_cron, unschedule, register_task, enter, set_entry, set_task,
}
use agent_ops.Scheduler.Entries.{
  IsCoherent, scheduled, register_task-Registered, unschedule-IsCoherent, scheduled-unschedule,
}

-- An upsert without an error, whichever calls may fail, is what a later read returns.
pub get_task-upsert_ok :
    (f : Faults) (now : ℕ) (t : Task) (s : Store) (u : Unit {0}) (k : Str)
    → (upsert_task f now t s).0 ≡ ok u
    → get_task no_faults k (upsert_task f now t s).1
      ≡ (if str_eq t.name k then ok (record t { updated_at = now }) else get_task no_faults k s)
unfolding get_task upsert_task transaction insert_event
get_task-upsert_ok f now t s u k h =
    ground (arith, find-put_task k (record t { updated_at = now }) s.tasks)

-- what SetTask leaves: the entries agree with cron; and without an error, the task is stored, and
-- scheduled as it says or not at all if it is disabled, and every other task is as it was
pub record IsApplied (C : Cron) (now : ℕ) (t : Task) (s : Scheduler C) (db : Store)
    (r : Result SchedulerError (Unit {0})) (s' : Scheduler C) (db' : Store) : Type 0 where
  pub coherent : IsCoherent C s'
  pub on_schedule :
      (u : Unit {0})
      → r ≡ ok u
      → (k : Str)
      → scheduled C k s'
        ≡ (if str_eq t.name k then (if t.enabled then some t.cron else none) else scheduled C k s)
  pub stored :
      (u : Unit {0})
      → r ≡ ok u
      → (k : Str)
      → get_task no_faults k db'
        ≡ (if str_eq t.name k then ok (record t { updated_at = now }) else get_task no_faults k db)

module _ (C : Cron) (f : Faults) (now : ℕ) (t : Task) (s : Scheduler C) (db : Store)
    (h : IsCoherent C s) where
  -- the rows after an upsert without an error
  abbrev IsStored : Store → Type 0
  IsStored db' =
      (k : Str)
      → get_task no_faults k db'
        ≡ (if str_eq t.name k then ok (record t { updated_at = now }) else get_task no_faults k db)

  enter-IsApplied :
      (b : Bool) (db' : Store)
      → t.enabled ≡ b
      → IsStored db'
      → (let (r', s', db'') = enter C b t s db' in IsApplied C now t s db r' s' db'')
  enter-IsApplied true db' p w =
      let g = register_task-Registered C t s h in
      record {
        coherent = g.coherent;
        on_schedule = λ u x k.
            g.on_success u x k
            ∙ ap
                (λ b.
                  if str_eq t.name k then (if b then some t.cron else none) else scheduled C k s)
                (sym p);
        stored = λ u x k. w k;
      }
  enter-IsApplied false db' p w = record {
    coherent = (unschedule-IsCoherent C t.name s h).0;
    on_schedule = λ u x k.
        scheduled-unschedule C t.name k s h
        ∙ ap (λ b. if str_eq t.name k then (if b then some t.cron else none) else scheduled C k s)
            (sym p);
    stored = λ u x k. w k;
  }

  set_entry-IsApplied :
      (r : Result StateError (Unit {0}) × Store)
      → ((u : Unit {0}) → r.0 ≡ ok u → IsStored r.1)
      → (let (r', s', db') = set_entry C t s r in IsApplied C now t s db r' s' db')
  set_entry-IsApplied (err e, db') w = record {
    coherent = h;
    on_schedule = λ u x. cc;
    stored = λ u x. cc;
  }
  set_entry-IsApplied (ok u, db') w = enter-IsApplied t.enabled db' refl (w u refl)

  -- SetTask, over a scheduler whose entries agree with cron, and whichever calls of the database fail:
  -- the entries still agree with cron, also after an error; and if it returns no error, the task is
  -- stored, it is scheduled exactly if it is enabled, on its own cron text, and the other tasks keep
  -- their rows and their schedules.
  pub set_task-IsApplied :
      let (r, s', db') = set_task C f now t s db in IsApplied C now t s db r s' db'
  unfolding set_task
  set_task-IsApplied = elim (Bool-cases (is_nil t.name)) [
    | inl p ↦ rw p (record { coherent = h; on_schedule = λ u x. cc; stored = λ u x. cc })
    | inr p ↦ elim (Bool-cases (t.enabled && is_nil t.cron)) [
      | inl q ↦ rw (p, q) (record { coherent = h; on_schedule = λ u x. cc; stored = λ u x. cc })
      | inr q ↦
          rw (p, q)
            (set_entry-IsApplied (upsert_task f now t db)
              (λ u x k. get_task-upsert_ok f now t db u k x))
    ]
  ]

module _ (C : Cron) (now : ℕ) (t : Task) (s : Scheduler C) (db : Store) where
  and_false : (b : Bool) → (b && false) ≡ false
  and_false b = ground arith

  enter_refused :
      (db' : Store)
      → ((table : C.Table) → C.add_func t.cron t.name table ≡ none)
      → enter C true t s db' ≡ (err (bad_cron t.cron), unschedule C t.name s, db')
  unfolding register_task
  enter_refused db' refused = rw refused

  set_entry_refused :
      (r : Result StateError (Unit {0}) × Store)
      → t.enabled ≡ true
      → ((table : C.Table) → C.add_func t.cron t.name table ≡ none)
      → r.0 ≡ ok tt
      → set_entry C t s r ≡ (err (bad_cron t.cron), unschedule C t.name s, r.1)
  set_entry_refused (err x, db') e refused q = cc
  set_entry_refused (ok u, db') e refused q =
      ap (λ b. enter C b t s db') e ∙ enter_refused db' refused

  upsert_succeeds : is_nil t.name ≡ false → (upsert_task no_faults now t db).0 ≡ ok tt
  unfolding upsert_task transaction
  upsert_succeeds n = rw n

  set_task_bad_cron :
      is_nil t.name ≡ false
      → t.enabled ≡ true
      → is_nil t.cron ≡ false
      → ((table : C.Table) → C.add_func t.cron t.name table ≡ none)
      → set_task C no_faults now t s db
        ≡ (err (bad_cron t.cron), unschedule C t.name s, (upsert_task no_faults now t db).1)
  unfolding set_task
  set_task_bad_cron n e c refused =
      rw (n, c, and_false t.enabled)
        (set_entry_refused (upsert_task no_faults now t db) e refused (upsert_succeeds n))

  -- SetTask of an enabled task whose cron text cron refuses, with no failing call: it returns an error,
  -- but the store has the new task, and the task is not scheduled any more.
  set_task_refused :
      IsCoherent C s
      → is_nil t.name ≡ false
      → t.enabled ≡ true
      → is_nil t.cron ≡ false
      → ((table : C.Table) → C.add_func t.cron t.name table ≡ none)
      → (let (r, s', db') = set_task C no_faults now t s db in
          (r ≡ err (bad_cron t.cron))
          × (scheduled C t.name s' ≡ none)
          × (get_task no_faults t.name db' ≡ ok (record t { updated_at = now })))
  set_task_refused h n e c refused = rw (set_task_bad_cron n e c refused) (
    refl,
    rw (unschedule-IsCoherent C t.name s h).1,
    rw (get_task-upsert_task now t db t.name n, str_eq_refl t.name),
  )
