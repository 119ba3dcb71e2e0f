-- ===== src/ClaudeCli/Tests.antt =====
-- internal/driver/claudecli/claudecli.go: runs of the driver, and the theorems at concrete inputs.
use agent_ops.Prelude.{Str, lit, str_eq, none, some, ok, List, [], ◌∷◌, ◌≡◌, ◌↔◌, refl, true, take}
use agent_ops.State.Data.{completed}
use agent_ops.Task.Filter.{truncate}
use agent_ops.Task.Runner.{live, final_status}
use agent_ops.ClaudeCli.CapWriter.{new_cap_writer, write, write_all, concat, write_all_lem}
use agent_ops.ClaudeCli.Stream.{
  StreamResult, StreamJson, turn, parse_stream, scan_lines, on_line, event_named, keep_tail,
  extract_assistant_signal,
}
use agent_ops.ClaudeCli.Run.{Process, run_process}
use agent_ops.ClaudeCli.Outcome.{Ran, IsSilent, run_process_lem, failure_completed}
use agent_ops.ClaudeCli.Tail.{IsKept, parse_stream-IsKept}

-- a run that was cut off, and has its text in `result`
abbrev cut_off : StreamResult
cut_off = record {
  result = lit "Reached max turns";
  cost_usd_micro = 120;
  num_turns = 25;
  is_error = true;
  error_message = [];
}

-- a line is its own type
abbrev plain_json : StreamJson
plain_json = record {
  envelope = λ line. some (record { type = line; message = lit "m" });
  blocks = λ raw. some (record { type = lit "tool_use"; text = []; name = lit "Bash" } ∷ []);
  result_blocks = λ raw. none;
  result = λ line. ok cut_off;
}

abbrev lines : List Str
lines = lit "system" ∷ [] ∷ lit "assistant" ∷ lit "result" ∷ lit "other" ∷ []

abbrev process : Process
process = record {
  pipe_error = none;
  start_error = none;
  stdout = lines;
  scan_error = none;
  stderr = lit "warn" ∷ [];
  exit_error = none;
}

logged :
    ((parse_stream plain_json lines none).0.log ≡ turn 1 (lit "Bash") [] ∷ [])
    × ((parse_stream plain_json lines none).0.out.event_count ≡ 4)
    × ((parse_stream plain_json lines none).0.out.raw_tail ≡ lit "system\nassistant\nresult\n")
unfolding parse_stream scan_lines on_line event_named keep_tail extract_assistant_signal str_eq
    truncate
logged = (refl, refl, refl)

write_all_lem_example :
    ((write_all (lit "abc" ∷ lit "def" ∷ []) (new_cap_writer 4)).dst
      ≡ take 4 (concat (lit "abc" ∷ lit "def" ∷ [])))
    × ((write (lit "x") (write_all (lit "abc" ∷ lit "def" ∷ []) (new_cap_writer 4))).1 ≡ 1)
write_all_lem_example = write_all_lem 4 (lit "abc" ∷ lit "def" ∷ []) (lit "x")

run_process_lem_example :
    ((run_process plain_json process).error ≡ [])
    ↔ ((r : StreamResult) × Ran plain_json process r × IsSilent r)
run_process_lem_example = run_process_lem plain_json process

ran : Ran plain_json process cut_off
unfolding event_named str_eq
ran = record { pipe = refl; start = refl; exit = refl; last = refl }

failure_completed_example :
    final_status live live none (run_process plain_json process).error ≡ (completed, [])
failure_completed_example =
    failure_completed plain_json process cut_off live live ran refl refl refl

parse_stream-IsKept_example :
    IsKept lines (parse_stream plain_json lines (some (lit "token too long"))).0.out.raw_tail
parse_stream-IsKept_example = parse_stream-IsKept plain_json lines (some (lit "token too long"))
