-- ===== src/State/RunOnce.antt =====
-- One run from its start to its end, and what every row of task_runs satisfies.
use agent_ops.Prelude.{
  ℕ, Str, str_eq_refl, some, List, [], ◌∷◌, ◌++◌, ◌≡◌, ap, lit, true, false, ◌||◌, any, is_nil,
  arith, Result, ok, err,
}
use agent_ops.State.Data.{
  RunStatus, running, TaskRun, RunRow, run_started, run_finished, Store, StateError, not_running,
}
use agent_ops.State.Tx.{insert_event, no_faults, transaction}
use agent_ops.State.Runs.{
  is_terminal, has_id, find_run, is_open, closed, close_run, new_row, start_run, finish_run,
  get_run, write_runs, or_now,
}

module _ (id : Str) where
  pub find-append_new :
      (rs : List RunRow) (x : RunRow)
      → any (has_id id) rs ≡ false
      → has_id id x ≡ true
      → find_run id (rs ++ x ∷ []) ≡ some x
  find-append_new [] x h q = ground arith
  find-append_new (y ∷ ys) x h q = ground (arith, find-append_new ys x)

  any-is_open_append :
      (rs : List RunRow) (x : RunRow)
      → any (has_id id) rs ≡ false
      → any (is_open id) (rs ++ x ∷ []) ≡ is_open id x
  any-is_open_append [] x h = ground arith
  any-is_open_append (y ∷ ys) x h = ground (arith, any-is_open_append ys x)

  close_run-append :
      (now : ℕ) (status : RunStatus) (summary error : Str) (calls : ℕ) (rs : List RunRow)
      (x : RunRow)
      → any (has_id id) rs ≡ false
      → is_open id x ≡ true
      → close_run now id status summary error calls (rs ++ x ∷ [])
        ≡ rs ++ closed now status summary error calls x ∷ []
  unfolding close_run
  close_run-append now status summary error calls [] x h q = ground arith
  close_run-append now status summary error calls (y ∷ ys) x h q =
      ground (arith, close_run-append now status summary error calls ys x)

-- the store after the start of a run, and after its end
abbrev pub begun : ℕ → TaskRun → Store → Store
begun now run s = (start_run no_faults now run s).1

abbrev pub ended : ℕ → Str → RunStatus → Str → Str → ℕ → Store → Store
ended now id status summary error calls s =
    (finish_run no_faults now id status summary error calls s).1

module _ (now later : ℕ) (run : TaskRun) (s : Store)
    (named : is_nil run.id || is_nil run.task_name ≡ false)
    (unused : any (has_id run.id) s.runs ≡ false) where
  abbrev row : RunRow
  row = new_row run.id run.task_name run.trigger (or_now now run.started_at)

  start_run_lem : start_run no_faults now run s ≡ (
    ok tt,
    insert_event
        (or_now now run.started_at)
        (lit "run.started")
        (run_started
          (record run { started_at = some (or_now now run.started_at); status = running }))
        (write_runs (s.runs ++ row ∷ []) s),
  )
  unfolding start_run transaction new_row
  start_run_lem = rw (named, unused)

  runs-begun : (begun now run s).runs ≡ s.runs ++ row ∷ []
  unfolding insert_event
  runs-begun = ap (λ (r : Result StateError (Unit {0}) × Store). r.1.runs) start_run_lem

  module _ (status : RunStatus) (summary error : Str) (calls : ℕ)
      (over : is_terminal status ≡ true) where
    row_is_open : is_open run.id row ≡ true
    unfolding new_row
    row_is_open = ground (arith, str_eq_refl run.id)

    finish_run_lem :
        finish_run no_faults later run.id status summary error calls (begun now run s) ≡ (
          ok tt,
          insert_event later (lit "run.finished") (run_finished run.id status summary error calls) (
              write_runs
                (s.runs ++ closed later status summary error calls row ∷ [])
                (begun now run s)),
        )
    unfolding finish_run transaction
    finish_run_lem = rw (
      over,
      runs-begun,
      any-is_open_append run.id s.runs row unused,
      row_is_open,
      close_run-append run.id later status summary error calls s.runs row unused row_is_open,
    )

    -- what GetRun reads of the run once it is over
    abbrev pub final_run : TaskRun
    final_run = record {
      id = run.id;
      task_name = run.task_name;
      trigger = run.trigger;
      started_at = some (or_now now run.started_at);
      ended_at = some later;
      status = status;
      summary = summary;
      tool_calls = calls;
      cost_usd_micro = 0;
      error = error;
    }

    runs-ended :
        (ended later run.id status summary error calls (begun now run s)).runs
        ≡ s.runs ++ closed later status summary error calls row ∷ []
    unfolding insert_event
    runs-ended = ap (λ (r : Result StateError (Unit {0}) × Store). r.1.runs) finish_run_lem

    get_run-ended :
        get_run no_faults run.id (ended later run.id status summary error calls (begun now run s))
        ≡ ok final_run
    unfolding get_run new_row
    get_run-ended = rw (
      runs-ended,
      find-append_new run.id s.runs (closed later status summary error calls row) unused
          (str_eq_refl run.id),
    )

    closed_is_shut :
        any (is_open run.id) (s.runs ++ closed later status summary error calls row ∷ []) ≡ false
    closed_is_shut = ground (
      arith,
      any-is_open_append run.id s.runs (closed later status summary error calls row) unused,
    )

    finish_again :
        (again : RunStatus) (summary' error' : Str) (calls' at : ℕ)
        → is_terminal again ≡ true
        → finish_run no_faults at run.id again summary' error' calls'
            (ended later run.id status summary error calls (begun now run s))
          ≡ (err not_running, ended later run.id status summary error calls (begun now run s))
    unfolding finish_run transaction
    finish_again again summary' error' calls' at q = rw (q, runs-ended, closed_is_shut)

    -- A run that is started under an id that no row has, and finished with a terminal status: both
    -- calls succeed, GetRun then reads what was given to them (the cost stays zero), and a second
    -- finish is refused and changes nothing.
    run_once :
        ((start_run no_faults now run s).0 ≡ ok tt)
        × ((finish_run no_faults later run.id status summary error calls (begun now run s)).0
            ≡ ok tt)
        × (get_run no_faults run.id
              (ended later run.id status summary error calls (begun now run s))
            ≡ ok final_run)
        × ((again : RunStatus) (summary' error' : Str) (calls' at : ℕ)
            → is_terminal again ≡ true
            → finish_run no_faults at run.id again summary' error' calls'
                (ended later run.id status summary error calls (begun now run s))
              ≡ (err not_running, ended later run.id status summary error calls (begun now run s)))
    run_once = (cc start_run_lem, cc finish_run_lem, get_run-ended, finish_again)
