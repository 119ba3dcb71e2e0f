-- ===== src/State/Change.antt =====
-- The changes that an operation can make: one of the domain tables with its event, or a log line.
use agent_ops.Prelude.{
  ℕ, Str, lit, trim_space, Option, none, some, [], ◌∷◌, ◌++◌, ◌≡◌, refl, Bool, true, false, not,
  ◌||◌, is_nil, any, arith, if◌then◌else◌,
}
use agent_ops.State.Data.{
  RunStatus, running, Task, TaskRun, Fact, Store, task_upserted, run_started, run_finished,
  statement_set, fact_added,
}
use agent_ops.State.Json.{Payload, raw}
use agent_ops.State.Tx.{insert_event}
use agent_ops.State.Tasks.{write_task}
use agent_ops.State.Runs.{new_row, write_runs, has_id, is_terminal, close_run, same_line, or_now}
use agent_ops.State.Mission.{bound_facts, new_fact, or_auto, write_facts, write_statement}
use agent_ops.State.History.{Op, append, upsert, start, finish, log, state_mission, learn}
use agent_ops.State.Effect.{
  effect, publish_keeps, inserted, updated, inserted_lem, updated_lem, publish,
}

-- what the first statement of an operation makes of the tables
pub data Change (s u : Store) : Type 0 where
  none_of_them : u ≡ s → Change s u
  task : (t : Task) → is_nil t.name ≡ false → u ≡ write_task t s → Change s u
  insert :
      (id task_name trigger : Str) (at : ℕ)
      → any (has_id id) s.runs ≡ false
      → u ≡ write_runs (s.runs ++ new_row id task_name trigger at ∷ []) s
      → Change s u
  close :
      (now : ℕ) (id : Str) (status : RunStatus) (summary error : Str) (calls : ℕ)
      → is_terminal status ≡ true
      → u ≡ write_runs (close_run now id status summary error calls s.runs) s
      → Change s u
  charter : (statement : Str) (now : ℕ) → u ≡ write_statement statement now s → Change s u
  learned :
      (f : Fact) (now : ℕ)
      → u ≡ write_facts (bound_facts (s.mission.facts ++ f ∷ [])) now s
      → Change s u

pub data Effected (s t : Store) : Type 0 where
  event :
      (ts : ℕ) (typ : Str) (payload : Payload) (u : Store)
      → Change s u
      → t ≡ insert_event ts typ payload u
      → Effected s t
  line :
      (now : ℕ) (id : Str) (seq : ℕ) (level message : Str)
      → any (same_line id seq) s.logs ≡ false
      → any (has_id id) s.runs ≡ true
      → t ≡ record s {
        logs =
            s.logs
            ++ record { run_id = id; seq = seq; ts = now; level = level; message = message } ∷ [];
      }
      → Effected s t

module _ (s : Store) where
  -- a published change, where every store that the tables' statement may make is a `Change`
  Effected-publish :
      (b : Bool) (ts : ℕ) (typ : Str) (payload : Payload) (o : Option Store) {t : Store}
      → (b ≡ false → (u : Store) → o ≡ some u → Change s u)
      → (if b then none else publish ts typ payload o) ≡ some t
      → Effected s t
  Effected-publish b ts typ payload o h =
      publish_keeps (Effected s) b ts typ payload o (λ c u q. event ts typ payload u (h c u q) refl)

module _ (at : ℕ) (s t : Store) where
  Effected-start : (run : TaskRun) → effect at (start run) s ≡ some t → Effected s t
  unfolding new_row
  Effected-start run =
      let ts = or_now at run.started_at in
      let r = new_row run.id run.task_name run.trigger ts in
      Effected-publish s (is_nil run.id || is_nil run.task_name) ts (lit "run.started")
        (run_started (record run { started_at = some ts; status = running })) (inserted r s)
        (λ c u q.
          insert run.id run.task_name run.trigger ts (inserted_lem r s u q).0
            (inserted_lem r s u q).1)

-- Every effect of an operation is one of these changes.
pub effect_cases : (at : ℕ) (op : Op) (s t : Store) → effect at op s ≡ some t → Effected s t
effect_cases at (append typ none) s t q = cc
effect_cases at (append typ (some p)) s t q =
    Effected-publish s (is_nil typ) at typ (raw p) (some s) (λ c u e. none_of_them (cc e)) q
effect_cases at (upsert x) s t q =
    let x' : Task = record x { updated_at = at } in
    Effected-publish s (is_nil x.name) at (lit "task.upserted") (task_upserted x')
      (some (write_task x' s)) (λ c u e. task x' c (cc e)) q
effect_cases at (start run) s t q = Effected-start at s t run q
effect_cases at (finish id status summary error calls) s t q =
    Effected-publish s (not (is_terminal status)) at (lit "run.finished")
      (run_finished id status summary error calls) (updated at id status summary error calls s)
      (λ c u e.
        close at id status summary error calls (ground arith)
          (updated_lem at id status summary error calls s u e).1)
      q
effect_cases at (log id seq level message) s t q =
    line at id seq level message (ground arith) (ground arith) (ground arith)
effect_cases at (state_mission statement) s t q =
    Effected-publish s false at (lit "mission.statement_set") (statement_set statement)
      (some (write_statement statement at s)) (λ c u e. charter statement at (cc e)) q
effect_cases at (learn source text) s t q =
    let f = new_fact at (or_auto source) (trim_space text) in
    Effected-publish s (is_nil (trim_space text)) at (lit "mission.fact_added")
      (fact_added (or_auto source) (trim_space text))
      (some (write_facts (bound_facts (s.mission.facts ++ f ∷ [])) at s))
      (λ c u e. learned f at (cc e)) q
