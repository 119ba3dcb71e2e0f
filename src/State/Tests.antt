-- ===== src/State/Tests.antt =====
-- The store's theorems at a small daemon's life, and runs of the operations.
use agent_ops.Prelude.{
  lit, none, some, ok, [], ◌∷◌, ◌≡◌, refl, true, false, str_eq, trim_space, take, drop,
}
use agent_ops.Prelude.Int.{pos}
use agent_ops.State.Data.{
  RunStatus, completed, failed, Task, TaskRun, RunRow, Store, database, fresh, run_finished,
}
use agent_ops.State.Tx.{Faults, no_faults, transaction, insert_event}
use agent_ops.State.Events.{events_since, clamp_limit}
use agent_ops.State.Tasks.{upsert_task}
use agent_ops.State.Runs.{start_run, finish_run, append_run_log, find_run, new_row, close_run}
use agent_ops.State.Mission.{add_fact, bound_facts, new_fact}
use agent_ops.State.History.{
  upsert, start, finish, log, learn, step, step_atomic, History, after_all,
}
use agent_ops.State.Json.{valid_utf8, rune_rest, field, as_text}
use agent_ops.State.Follower.{AllSpelled, fields_of}
use agent_ops.State.Replay.{replay, replay-after_all}
use agent_ops.State.Numbers.{events_since-after_all}
use agent_ops.State.RunLife.{terminal_run_frozen}
use agent_ops.State.RunRows.{RowsAreSound, after_all-RowsAreSound}

abbrev probe : Task
probe = record {
  name = lit "probe";
  cron = lit "*/5 * * * *";
  prompt = lit "Check the app.";
  tools = lit "shell" ∷ [];
  enabled = true;
  updated_at = 0;
}

abbrev probe_run : TaskRun
probe_run = record {
  id = lit "r1";
  task_name = lit "probe";
  trigger = lit "schedule";
  started_at = some 7;
  ended_at = none;
  status = RunStatus.other [];
  summary = [];
  tool_calls = 0;
  cost_usd_micro = 0;
  error = [];
}

abbrev commit_fails : Faults
commit_fails = record { begin = false; read = false; write = false; event = false; commit = true }

-- a task, a run of it, and two facts, the first of which is lost
abbrev life : History
life =
    (no_faults, 5, upsert probe)
    ∷ (no_faults, 7, start probe_run)
    ∷ (no_faults, 8, log (lit "r1") 1 (lit "info") (lit "looking"))
    ∷ (commit_fails, 9, learn (lit "auto") (lit "lost"))
    ∷ (no_faults, 9, learn [] (lit " kept "))
    ∷ (no_faults, 12, finish (lit "r1") completed (lit "fine") [] 2)
    ∷ []

step_atomic_example : (step commit_fails 5 (upsert probe) (fresh 1)).1 ≡ fresh 1
unfolding step upsert_task transaction
step_atomic_example = step_atomic commit_fails 5 (upsert probe) (fresh 1) database refl

life-AllSpelled : AllSpelled life
unfolding valid_utf8 rune_rest trim_space
life-AllSpelled = (
  (refl, refl, refl, refl),
  ((refl, refl, refl), (tt, ((refl, refl), ((refl, refl), ((refl, refl, refl), tt))))),
)

replay-after_all_example :
    replay 1 (after_all life (fresh 1)).events ≡ (after_all life (fresh 1)).tables
replay-after_all_example = replay-after_all 1 life life-AllSpelled

-- the last rune of a summary is cut: the payload has U+FFFD there, the column the single byte
cut_rune :
    (as_text (field (lit "summary") (fields_of (run_finished [] failed (0xe2 ∷ []) [] 0)))
      ≡ 0xef ∷ 0xbf ∷ 0xbd ∷ [])
unfolding run_finished field str_eq valid_utf8 rune_rest
cut_rune = refl

events_since-after_all_example :
    events_since no_faults (pos 2) (pos 0) (after_all life (fresh 1))
    ≡ ok (take (clamp_limit 10000 1000 (pos 0)) (drop 2 (after_all life (fresh 1)).events))
events_since-after_all_example = events_since-after_all 1 life 2 (pos 0)

abbrev over_row : RunRow
over_row = record {
  id = lit "r1";
  task_name = lit "probe";
  trigger = lit "schedule";
  started_at = 7;
  ended_at = some 12;
  status = completed;
  summary = some (lit "fine");
  tool_calls = 2;
  cost_usd_micro = 0;
  error = some [];
}

abbrev over_store : Store
over_store = record (fresh 1) { tables = record (fresh 1).tables { runs = over_row ∷ [] } }

-- a run that is over is finished again, and its log grows
abbrev aftermath : History
aftermath =
    (no_faults, 20, finish (lit "r1") failed (lit "no") (lit "late") 9)
    ∷ (no_faults, 21, log (lit "r1") 2 (lit "info") (lit "still here"))
    ∷ (no_faults, 22, start probe_run)
    ∷ []

terminal_run_frozen_example :
    find_run (lit "r1") (after_all aftermath over_store).runs ≡ some over_row
unfolding str_eq
terminal_run_frozen_example = terminal_run_frozen aftermath over_store (lit "r1") over_row refl refl

abbrev run_over : TaskRun
run_over = record probe_run {
  started_at = some 7;
  ended_at = some 20;
  status = completed;
  summary = lit "fine";
  tool_calls = 3;
}

after_all-RowsAreSound_example : RowsAreSound (after_all life (fresh 1)).runs
after_all-RowsAreSound_example = after_all-RowsAreSound 1 life

-- the life as a whole
life_run : find_run (lit "r1") (after_all life (fresh 1)).runs ≡ some over_row
unfolding after_all step fresh upsert_task start_run finish_run add_fact transaction insert_event
    str_eq trim_space new_row close_run append_run_log
life_run = refl

life_facts : (after_all life (fresh 1)).mission.facts ≡ new_fact 9 (lit "auto") (lit "kept") ∷ []
unfolding after_all step fresh upsert_task start_run finish_run add_fact transaction insert_event
    str_eq trim_space append_run_log bound_facts new_row
life_facts = refl
