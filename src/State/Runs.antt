-- ===== src/State/Runs.antt =====
-- internal/state/state.go: the life of a task run, and its log.
use agent_ops.Prelude.{
  ℕ, Str, lit, str_eq, Bool, true, false, ◌&&◌, ◌||◌, not, Option, none, some, Result, ok, err,
  List, [], ◌∷◌, ◌++◌, map, if◌then◌else◌, is_nil, leb, ◌==◌, keep, take, find, any,
}
use agent_ops.Prelude.Int.{ℤ}
use agent_ops.Prelude.Sort.{sort}
use agent_ops.State.Data.{
  RunStatus, running, completed, failed, canceled, timeout, TaskRun, RunRow, RunLog, Store,
  run_started, run_finished, StateError, id_required, not_terminal, not_running, no_rows,
  constraint, database,
}
use agent_ops.State.Tx.{Faults, Tx, ◌>>◌, exec, transaction, insert_event}
use agent_ops.State.Events.{clamp_limit}

abbrev pub is_terminal : RunStatus → Bool
is_terminal completed = true
is_terminal failed = true
is_terminal canceled = true
is_terminal timeout = true
is_terminal _ = false

abbrev pub is_running : RunStatus → Bool
is_running running = true
is_running _ = false

abbrev pub has_id : Str → RunRow → Bool
has_id id r = str_eq r.id id

abbrev pub find_run : Str → List RunRow → Option RunRow
find_run id runs = find (has_id id) runs

abbrev pub write_runs : List RunRow → Store → Store
write_runs runs s = record s { tables = record s.tables { runs = runs } }

abbrev pub or_now : ℕ → Option ℕ → ℕ
or_now now none = now
or_now now (some t) = t

-- the row of `INSERT INTO task_runs(id, task_name, trigger, started_at, status)`
unfoldable pub new_row : Str → Str → Str → ℕ → RunRow
new_row id task_name trigger started_at = record {
  id = id;
  task_name = task_name;
  trigger = trigger;
  started_at = started_at;
  ended_at = none;
  status = running;
  summary = none;
  tool_calls = 0;
  cost_usd_micro = 0;
  error = none;
}

-- the INSERT fails where the primary key is taken
abbrev pub insert_run : Bool → RunRow → Tx (Unit {0})
insert_run fails r s =
    if any (has_id r.id) s.runs
    then err constraint
    else exec fails (write_runs (s.runs ++ r ∷ [])) s

abbrev pub start_tx : Faults → ℕ → TaskRun → Tx (Unit {0})
start_tx f at run =
    insert_run f.write (new_row run.id run.task_name run.trigger at)
    >> exec f.event (insert_event at (lit "run.started") (run_started run))

unfoldable pub start_run : Faults → ℕ → TaskRun → Store → Result StateError (Unit {0}) × Store
start_run f now run s =
    let at = or_now now run.started_at in
    if is_nil run.id || is_nil run.task_name
    then (err id_required, s)
    else transaction f (start_tx f at (record run { started_at = some at; status = running })) s

abbrev pub closed : ℕ → RunStatus → Str → Str → ℕ → RunRow → RunRow
closed now status summary error tool_calls r = record r {
  ended_at = some now;
  status = status;
  summary = some summary;
  tool_calls = tool_calls;
  error = some error;
}

-- `UPDATE task_runs SET … WHERE id=? AND status='running'`
unfoldable pub close_run : ℕ → Str → RunStatus → Str → Str → ℕ → List RunRow → List RunRow
close_run now id status summary error calls [] = []
close_run now id status summary error calls (r ∷ rs) =
    (if has_id id r && is_running r.status then closed now status summary error calls r else r)
    ∷ close_run now id status summary error calls rs

abbrev pub is_open : Str → RunRow → Bool
is_open id r = has_id id r && is_running r.status

-- RowsAffected is zero where no row is open
abbrev pub update_run : Bool → ℕ → Str → RunStatus → Str → Str → ℕ → Tx (Unit {0})
update_run fails now id status summary error calls s =
    if fails
    then err database
    else if any (is_open id) s.runs
    then ok (tt, write_runs (close_run now id status summary error calls s.runs) s)
    else err not_running

abbrev pub finish_tx : Faults → ℕ → Str → RunStatus → Str → Str → ℕ → Tx (Unit {0})
finish_tx f now id status summary error calls =
    update_run f.write now id status summary error calls
    >> exec f.event
        (insert_event now (lit "run.finished") (run_finished id status summary error calls))

unfoldable pub finish_run :
    Faults → ℕ → Str → RunStatus → Str → Str → ℕ → Store → Result StateError (Unit {0}) × Store
finish_run f now id status summary error calls s =
    if not (is_terminal status)
    then (err not_terminal, s)
    else transaction f (finish_tx f now id status summary error calls) s

abbrev pub or_empty : Option Str → Str
or_empty none = []
or_empty (some t) = t

-- the scan of a row: NULL reads as the zero value
abbrev pub scan_run : RunRow → TaskRun
scan_run r = record {
  id = r.id;
  task_name = r.task_name;
  trigger = r.trigger;
  started_at = some r.started_at;
  ended_at = r.ended_at;
  status = r.status;
  summary = or_empty r.summary;
  tool_calls = r.tool_calls;
  cost_usd_micro = r.cost_usd_micro;
  error = or_empty r.error;
}

abbrev scan_found : Option RunRow → Result StateError TaskRun
scan_found none = err no_rows
scan_found (some r) = ok (scan_run r)

unfoldable pub get_run : Faults → Str → Store → Result StateError TaskRun
get_run f id s = if f.read then err database else scan_found (find_run id s.runs)

abbrev pub newest_first : RunRow → RunRow → Bool
newest_first a b = leb b.started_at a.started_at

abbrev pub of_task : Str → RunRow → Bool
of_task task_name r = is_nil task_name || str_eq r.task_name task_name

-- `ORDER BY started_at DESC LIMIT ?`; runs that started at one instant stay in their order
unfoldable pub list_runs : Faults → Str → ℤ → Store → Result StateError (List TaskRun)
unfolding clamp_limit
list_runs f task_name limit s =
    if f.read
    then err database
    else ok (
        map scan_run
          (take (clamp_limit 1000 50 limit) (sort newest_first (keep (of_task task_name) s.runs))))

abbrev pub same_line : Str → ℕ → RunLog → Bool
same_line run_id seq l = str_eq l.run_id run_id && (l.seq == seq)

-- the primary key is (run_id, seq), and the run has to exist (foreign_keys is ON)
unfoldable pub append_run_log :
    Faults → ℕ → Str → ℕ → Str → Str → Store → Result StateError (Unit {0}) × Store
append_run_log f now run_id seq level message s =
    if f.write
    then (err database, s)
    else if any (same_line run_id seq) s.logs || not (any (has_id run_id) s.runs)
    then (err constraint, s)
    else (
      ok tt,
      record s {
        logs =
            s.logs
            ++ record { run_id = run_id; seq = seq; ts = now; level = level; message = message }
              ∷ [];
      },
    )

abbrev pub by_seq : RunLog → RunLog → Bool
by_seq a b = leb a.seq b.seq

unfoldable pub logs_for_run : Faults → Str → ℤ → Store → Result StateError (List RunLog)
unfolding clamp_limit
logs_for_run f run_id limit s =
    if f.read
    then err database
    else ok (
        take (clamp_limit 5000 500 limit)
          (sort by_seq (keep (λ (l : RunLog). str_eq l.run_id run_id) s.logs)))
