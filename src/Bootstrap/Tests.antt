-- ===== src/Bootstrap/Tests.antt =====
-- internal/bootstrap/bootstrap.go: the theorems at concrete inputs.
use agent_ops.Prelude.{
  lit, str_eq, trim_space, none, some, ok, [], ◌∷◌, ◌++◌, List, ◌≡◌, ◌↔◌, refl, true, false,
}
use agent_ops.Config.Data.{Schedule}
use agent_ops.State.Data.{RunRow, RunStatus, failed, fresh}
use agent_ops.State.Tx.{no_faults, transaction, insert_event}
use agent_ops.State.Tasks.{upsert_task, get_task, put_task}
use agent_ops.State.Runs.{start_run, finish_run, close_run, get_run, new_row}
use agent_ops.Task.Filter.{truncate}
use agent_ops.State.Mission.{add_fact, get_mission}
use agent_ops.Scheduler.Model.{run_now, append_notify_clause}
use agent_ops.Task.Runner.{
  Driver, run, mark_inflight, drive, close_up, final_status, read_mission, release_inflight,
}
use agent_ops.Scheduler.Slots.{slots_cron, stopped}
use agent_ops.Task.Samples.{plain_env, idle}
use agent_ops.Bootstrap.Token.{TokenCalls, ensure_token, Lasts, ensure_token-Lasts}
use agent_ops.Bootstrap.Verdict.{extract_json_object, parse_verifier_json, decoded, VerifierResult}
use agent_ops.Bootstrap.Balance.{
  open_brace, close_brace, quote, IsStringEnd, IsObjectEnd, closes, goes_on, ends, string,
  extract_json_object-finds,
}
use agent_ops.Bootstrap.TailBuffer.{
  empty_tail, tail_string, write_lines, last_bytes, tail_cap, joined, tail_string-write_lines,
}
use agent_ops.Bootstrap.FirstRun.{
  Boot, FirstRunCalls, FactCall, TaskCalls, Install, maybe_run_first_run, install, task_run,
  completed_fact, finalize_bootstrap_success, verified,
}
use agent_ops.Bootstrap.Marked.{
  IsByTask, Completes, first_upsert, left_by, maybe_run_first_run-marker,
}

abbrev first_start : TokenCalls
first_start = record { mkdir = none; read = none; random = ok (lit "00ff"); write = none }

ensure_token-Lasts_example : Lasts [] (lit "ao_00ff") (ensure_token first_start [] none).1
unfolding ensure_token
ensure_token-Lasts_example = ensure_token-Lasts first_start [] none (lit "ao_00ff") refl

-- the string "}" and the brace behind it
in_quotes : IsStringEnd (close_brace ∷ quote ∷ [])
in_quotes = goes_on close_brace refl closes

object : IsObjectEnd 1 (quote ∷ ((close_brace ∷ quote ∷ []) ++ (close_brace ∷ [])))
object = string 1 (close_brace ∷ quote ∷ []) in_quotes ends

abbrev passing : VerifierResult
passing = record { pass = true; evidence = lit "port open"; fail_reason = [] }

extract_json_object-finds_example :
    let s = quote ∷ ((close_brace ∷ quote ∷ []) ++ (close_brace ∷ [])) in
    let t = lit "Sure: " ++ ((open_brace ∷ s) ++ lit " }") in
    (extract_json_object t ≡ some (open_brace ∷ s))
    × (parse_verifier_json (λ raw. ok passing) t ≡ decoded (ok passing))
extract_json_object-finds_example =
    extract_json_object-finds (lit "Sure: ") _ (lit " }") (λ raw. ok passing) refl object

tail_string-write_lines_example :
    tail_string (write_lines (lit "one" ∷ lit "two" ∷ []) empty_tail)
    ≡ last_bytes tail_cap (joined (lit "one" ∷ lit "two" ∷ []))
tail_string-write_lines_example = tail_string-write_lines (lit "one") (lit "two" ∷ [])

-- a driver whose every run fails
abbrev failing : Driver
failing req s = record {
  result = record { final_message = []; tool_calls = 0; cost_usd_micro = 0; error = [] };
  error = some (lit "api error");
  store = s;
}

abbrev fact_call : FactCall
fact_call = record { faults = no_faults; now = 30; stamp = lit "2026-01-01T00:00:00Z" }

abbrev task_calls : TaskCalls
task_calls = record {
  upsert = no_faults;
  upserted = 5;
  get = no_faults;
  env = plain_env;
  fact = fact_call;
}

abbrev no_install : Install slots_cron
no_install b = (none, b.scheduler, b.world)

abbrev calls : FirstRunCalls slots_cron
calls = record {
  equal_fold = str_eq;
  mode = [];
  script = [];
  workflow = [];
  stat = none;
  up_before = false;
  up_after = false;
  run_script = no_install;
  run_cheatsheet = no_install;
  run_agent_script = no_install;
  installed_fact = fact_call;
  driver = failing;
  first = task_calls;
  log_faults = no_faults;
  logged = 31;
  verifier = task_calls;
  decode = λ raw. ok passing;
  error_text = λ e. lit "run failed";
  state_text = λ e. lit "database";
  write = none;
}

abbrev boot : Boot slots_cron
boot = record { scheduler = stopped; world = idle; marker = false; handshakes = 0 }

abbrev setup : Schedule
setup = record {
  name = lit "setup";
  cron = [];
  prompt = lit "Install n8n.";
  tools = [];
  model = [];
  verify_prompt = [];
  verify_model = [];
  enabled = none;
}

boot-IsByTask : IsByTask slots_cron calls setup boot
unfolding str_eq trim_space
boot-IsByTask = record {
  no_script = refl;
  no_cheatsheet = refl;
  no_agent_script = refl;
  found_none = refl;
  no_marker = refl;
}

maybe_run_first_run-marker_example :
    ((maybe_run_first_run slots_cron calls (some setup) boot).1.marker ≡ true) ↔ (
      Completes slots_cron calls setup boot (first_upsert slots_cron calls setup boot)
      × (left_by (FirstRunCalls.write calls) ≡ true))
maybe_run_first_run-marker_example =
    maybe_run_first_run-marker slots_cron calls setup boot boot-IsByTask

abbrev after : Boot slots_cron
after = (maybe_run_first_run slots_cron calls (some setup) boot).1

abbrev statuses : List RunRow → List RunStatus
statuses [] = []
statuses (r ∷ rs) = r.status ∷ statuses rs

-- the run has failed, and the marker is there
failed_run_marked : (statuses after.world.store.runs ≡ failed ∷ []) × (after.marker ≡ true)
unfolding maybe_run_first_run install str_eq trim_space upsert_task transaction task_run run_now
    get_task insert_event put_task fresh run append_notify_clause mark_inflight start_run drive
    close_up completed_fact finalize_bootstrap_success verified add_fact finish_run close_run
    get_run new_row final_status read_mission get_mission release_inflight truncate
failed_run_marked = (refl, refl)
