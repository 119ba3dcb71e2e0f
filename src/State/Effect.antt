-- ===== src/State/Effect.antt =====
-- What each operation does to the store when no call of the database fails, in one equation, and the
-- theorem that the operation does this or nothing.
pub mod Define
pub use Define.*
use agent_ops.Prelude.{
  ℕ, Str, lit, trim_space, Option, none, some, ok, [], ◌∷◌, ◌++◌, ◌≡◌, refl, inl, inr, Bool, true,
  false, ◌||◌, not, if◌then◌else◌, is_nil, any, arith, Bool-cases,
}
use mathlib.Core.Option
use mathlib.Core.Path.{subst}
use agent_ops.State.Data.{
  RunStatus, running, Task, TaskRun, Store, task_upserted, RunRow, run_started, run_finished,
  statement_set, fact_added,
}
use agent_ops.State.Json.{Payload, raw}
use agent_ops.State.Tx.{
  Faults, insert_event, transaction_cases, guarded_cases, guarded_ok, Yields, Yields-bind,
  Yields-exec, AllOrNothing, exec, query, pure, ◌>>=◌, ◌>>◌,
}
use agent_ops.State.Events.{append_event}
use agent_ops.State.Tasks.{upsert_task, write_task}
use agent_ops.State.Runs.{
  start_run, finish_run, append_run_log, or_now, has_id, new_row, write_runs, is_terminal, is_open,
  close_run, same_line, insert_run, update_run, start_tx, finish_tx,
}
use agent_ops.State.Mission.{
  set_statement, add_fact, write_statement, write_facts, new_fact, or_auto, bound_facts, fact_tx,
  statement_tx,
}
use agent_ops.State.History.{
  Op, append, upsert, start, finish, log, state_mission, learn, step, History, after_all,
  after_all_induction,
}

Yields-insert_run :
    (fails : Bool) (r : RunRow) (s : Store) → Yields (insert_run fails r s) (inserted r s)
Yields-insert_run fails r s a t q = elim (Bool-cases (any (has_id r.id) s.runs)) [
  | inl p ↦ cc (p, q)
  | inr p ↦ rw p (Yields-exec fails (write_runs (s.runs ++ r ∷ [])) s a t (rw p at q))
]

Yields-update_run :
    (fails : Bool) (now : ℕ) (id : Str) (status : RunStatus) (summary error : Str) (calls : ℕ)
    (s : Store)
    → Yields
        (update_run fails now id status summary error calls s)
        (updated now id status summary error calls s)
Yields-update_run fails now id status summary error calls s a t q = ground arith

-- A read, a write that depends on it, and an event.
Yields-read_write :
    {A : Type 0} (r w e : Bool) (read : Store → A) (g : A → Store → Store) (k : Store → Store)
    (s : Store)
    → Yields
        ((query r read >>= λ a. exec w (g a) >> exec e k >> pure a) s)
        (some (k (g (read s) s)))
Yields-read_write true w e read g k s a t q = cc
Yields-read_write false true e read g k s a t q = cc
Yields-read_write false false true read g k s a t q = cc
Yields-read_write false false false read g k s a t q = cc

module _ (f : Faults) (now : ℕ) where
  upsert_cases :
      (t : Task) (s : Store) → AllOrNothing s (effect now (upsert t) s) (upsert_task f now t s).1
  unfolding upsert_task
  upsert_cases t s =
      let t' = record t { updated_at = now } in
      guarded_cases (is_nil t.name) _ f _ s _ (
        Yields-bind (exec f.write (write_task t')) f.event
          (insert_event now (lit "task.upserted") (task_upserted t')) s _
          (Yields-exec f.write (write_task t') s))

  Yields-start :
      (run : TaskRun) (s : Store)
      → Yields
          (start_tx f
            (or_now now run.started_at)
            (record run { started_at = some (or_now now run.started_at); status = running })
            s)
          (publish
            (or_now now run.started_at)
            (lit "run.started")
            (run_started
              (record run { started_at = some (or_now now run.started_at); status = running }))
            (inserted (new_row run.id run.task_name run.trigger (or_now now run.started_at)) s))
  Yields-start run s =
      let at = or_now now run.started_at in
      let r = new_row run.id run.task_name run.trigger at in
      Yields-bind (insert_run f.write r) f.event
        (insert_event at (lit "run.started")
          (run_started (record run { started_at = some at; status = running })))
        s _ (Yields-insert_run f.write r s)

  start_cases :
      (run : TaskRun) (s : Store)
      → AllOrNothing s (effect now (start run) s) (start_run f now run s).1
  unfolding start_run
  start_cases run s =
      guarded_cases (is_nil run.id || is_nil run.task_name) _ f _ s _ (Yields-start run s)

  -- A start without an error has its whole effect.
  pub start_ok :
      (run : TaskRun) (s : Store) (a : Unit {0})
      → (start_run f now run s).0 ≡ ok a
      → effect now (start run) s ≡ some (start_run f now run s).1
  unfolding start_run
  start_ok run s a q =
      guarded_ok (is_nil run.id || is_nil run.task_name) _ f _ s _ a (Yields-start run s) q

  Yields-finish :
      (id : Str) (status : RunStatus) (summary error : Str) (calls : ℕ) (s : Store)
      → Yields (finish_tx f now id status summary error calls s) (
          publish now
            (lit "run.finished")
            (run_finished id status summary error calls)
            (updated now id status summary error calls s))
  Yields-finish id status summary error calls s =
      Yields-bind (update_run f.write now id status summary error calls) f.event
        (insert_event now (lit "run.finished") (run_finished id status summary error calls)) s _
        (Yields-update_run f.write now id status summary error calls s)

  finish_cases :
      (id : Str) (status : RunStatus) (summary error : Str) (calls : ℕ) (s : Store)
      → AllOrNothing s
          (effect now (finish id status summary error calls) s)
          (finish_run f now id status summary error calls s).1
  unfolding finish_run
  finish_cases id status summary error calls s =
      guarded_cases (not (is_terminal status)) _ f _ s _
        (Yields-finish id status summary error calls s)

  -- So does a finish.
  pub finish_ok :
      (id : Str) (status : RunStatus) (summary error : Str) (calls : ℕ) (s : Store) (a : Unit {0})
      → (finish_run f now id status summary error calls s).0 ≡ ok a
      → effect now (finish id status summary error calls) s
        ≡ some (finish_run f now id status summary error calls s).1
  unfolding finish_run
  finish_ok id status summary error calls s a q =
      guarded_ok (not (is_terminal status)) _ f _ s _ a
        (Yields-finish id status summary error calls s) q

  log_cases :
      (id : Str) (seq : ℕ) (level message : Str) (s : Store)
      → AllOrNothing s
          (effect now (log id seq level message) s)
          (append_run_log f now id seq level message s).1
  unfolding append_run_log
  log_cases id seq level message s = ground arith

  append_cases :
      (typ : Str) (payload : Option Str) (s : Store)
      → AllOrNothing s (effect now (append typ payload) s) (append_event f now typ payload s).1
  unfolding append_event
  append_cases typ none s = ground arith
  append_cases typ (some p) s = ground arith

  state_cases :
      (statement : Str) (s : Store)
      → AllOrNothing s (effect now (state_mission statement) s) (set_statement f now statement s).1
  unfolding set_statement
  state_cases statement s = transaction_cases f (statement_tx f statement now) s _ (
      Yields-bind (exec f.write (write_statement statement now)) f.event
        (insert_event now (lit "mission.statement_set") (statement_set statement)) s _
        (Yields-exec f.write (write_statement statement now) s))

  learn_cases :
      (source text : Str) (s : Store)
      → AllOrNothing s (effect now (learn source text) s) (add_fact f now source text s).1
  unfolding add_fact
  learn_cases source text s =
      let fact = new_fact now (or_auto source) (trim_space text) in
      guarded_cases (is_nil (trim_space text)) _ f
        (fact_tx f now (or_auto source) (trim_space text)) s _
        (Yields-read_write f.read f.write f.event (λ s. bound_facts (s.mission.facts ++ fact ∷ []))
          (λ facts. write_facts facts now)
          (insert_event now (lit "mission.fact_added")
            (fact_added (or_auto source) (trim_space text)))
          s)

-- Whichever calls of the database fail, an operation has its whole effect, or none.
pub step-AllOrNothing :
    (f : Faults) (now : ℕ) (op : Op) (s : Store)
    → AllOrNothing s (effect now op s) (step f now op s).1
unfolding step
step-AllOrNothing f now (append typ payload) s = append_cases f now typ payload s
step-AllOrNothing f now (upsert t) s = upsert_cases f now t s
step-AllOrNothing f now (start run) s = start_cases f now run s
step-AllOrNothing f now (finish id status summary error calls) s =
    finish_cases f now id status summary error calls s
step-AllOrNothing f now (log id seq level message) s = log_cases f now id seq level message s
step-AllOrNothing f now (state_mission statement) s = state_cases f now statement s
step-AllOrNothing f now (learn source text) s = learn_cases f now source text s

-- What every effect keeps, every history keeps.
module _ {P : Store → Type 0}
    (keeps : (now : ℕ) (op : Op) (s t : Store) → P s → effect now op s ≡ some t → P t) where
  pub effects_keep : (h : History) (s : Store) → P s → P (after_all h s)
  effects_keep = after_all_induction λ f now op s p. elim (step-AllOrNothing f now op s) [
    | inl q ↦ rw q p
    | inr q ↦ keeps now op s (step f now op s).1 p q
  ]

pub some_eq : {A : Type 0} {a b : A} → some a ≡ some b → a ≡ b
some_eq q = cc

-- To show a property of a published change, show it of each store that the change may make.
pub publish_keeps :
    (P : Store → Type 0) (b : Bool) (ts : ℕ) (typ : Str) (payload : Payload) (o : Option Store)
    {t : Store}
    → (b ≡ false → (u : Store) → o ≡ some u → P (insert_event ts typ payload u))
    → (if b then none else publish ts typ payload o) ≡ some t
    → P t
publish_keeps P true ts typ payload o h q = cc
publish_keeps P false ts typ payload none h q = cc
publish_keeps P false ts typ payload (some u) h q = subst P (some_eq q) (h refl u refl)

pub inserted_lem :
    (r : RunRow) (s u : Store)
    → inserted r s ≡ some u
    → (any (has_id r.id) s.runs ≡ false) × (u ≡ write_runs (s.runs ++ r ∷ []) s)
inserted_lem r s u q = ground arith

pub updated_lem :
    (now : ℕ) (id : Str) (status : RunStatus) (summary error : Str) (calls : ℕ) (s u : Store)
    → updated now id status summary error calls s ≡ some u
    → (any (is_open id) s.runs ≡ true)
      × (u ≡ write_runs (close_run now id status summary error calls s.runs) s)
updated_lem now id status summary error calls s u q = ground arith
