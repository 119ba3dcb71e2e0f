-- ===== src/State/Effect/Define.antt =====
-- What each operation does to the store when no call of the database fails, in one equation.
use agent_ops.Prelude.{
  ℕ, Str, lit, trim_space, Option, none, some, [], ◌∷◌, ◌++◌, ◌||◌, not, if◌then◌else◌, is_nil, any,
}
use mathlib.Core.Option
use agent_ops.State.Data.{
  RunStatus, running, Store, task_upserted, RunRow, run_started, run_finished, statement_set,
  fact_added,
}
use agent_ops.State.Json.{Payload, raw}
use agent_ops.State.Tx.{insert_event}
use agent_ops.State.Tasks.{write_task}
use agent_ops.State.Runs.{
  or_now, has_id, new_row, write_runs, is_terminal, is_open, close_run, same_line,
}
use agent_ops.State.Mission.{write_statement, write_facts, new_fact, or_auto, bound_facts}
use agent_ops.State.History.{Op, append, upsert, start, finish, log, state_mission, learn}

-- a change of the tables, with its event
abbrev pub publish : ℕ → Str → Payload → Option Store → Option Store
publish ts typ payload = Option.map (insert_event ts typ payload)

abbrev pub inserted : RunRow → Store → Option Store
inserted r s = if any (has_id r.id) s.runs then none else some (write_runs (s.runs ++ r ∷ []) s)

abbrev pub updated : ℕ → Str → RunStatus → Str → Str → ℕ → Store → Option Store
updated now id status summary error calls s =
    if any (is_open id) s.runs
    then some (write_runs (close_run now id status summary error calls s.runs) s)
    else none

abbrev pub logged : ℕ → Str → ℕ → Str → Str → Store → Option Store
logged now id seq level message s =
    if any (same_line id seq) s.logs || not (any (has_id id) s.runs)
    then none
    else some (record s {
      logs =
          s.logs
          ++ record { run_id = id; seq = seq; ts = now; level = level; message = message } ∷ [];
    })

-- `none` where the operation refuses its arguments
abbrev pub effect : ℕ → Op → Store → Option Store
effect now (append typ none) s = none
effect now (append typ (some p)) s = if is_nil typ then none else publish now typ (raw p) (some s)
effect now (upsert t) s =
    let t' = record t { updated_at = now } in
    if is_nil t.name
    then none
    else publish now (lit "task.upserted") (task_upserted t') (some (write_task t' s))
effect now (start run) s =
    let at = or_now now run.started_at in
    if is_nil run.id || is_nil run.task_name
    then none
    else publish at (lit "run.started")
        (run_started (record run { started_at = some at; status = running }))
        (inserted (new_row run.id run.task_name run.trigger at) s)
effect now (finish id status summary error calls) s =
    if not (is_terminal status)
    then none
    else publish now (lit "run.finished") (run_finished id status summary error calls)
        (updated now id status summary error calls s)
effect now (log id seq level message) s = logged now id seq level message s
effect now (state_mission statement) s =
    publish now (lit "mission.statement_set") (statement_set statement)
      (some (write_statement statement now s))
effect now (learn source text) s =
    if is_nil (trim_space text)
    then none
    else publish now (lit "mission.fact_added") (fact_added (or_auto source) (trim_space text)) (
        some (
          write_facts
            (bound_facts (s.mission.facts ++ new_fact now (or_auto source) (trim_space text) ∷ []))
            now s))
