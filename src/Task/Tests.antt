-- ===== src/Task/Tests.antt =====
-- The runner's theorems at one run, and runs of the prompt's parts.
use agent_ops.Prelude.{ℕ, Str, lit, str_eq, List, [], ◌∷◌, ◌≡◌, refl, zero, suc}
use agent_ops.Prelude.Text.{split, contains, itoa}
use agent_ops.State.Data.{Fact, fresh}
use agent_ops.State.Tx.{insert_event, transaction}
use agent_ops.State.Runs.{start_run, finish_run, new_row, close_run}
use agent_ops.State.Mission.{get_mission}
use agent_ops.State.History.{after_all}
use agent_ops.State.RunRows.{RowsAreSound, after_all-RowsAreSound}
use agent_ops.Task.Filter.{
  filter_fact_for_prompt, is_noise, count_hidden, is_keep, lowered, is_drop,
}
use agent_ops.Task.Prompt.{format_date}
use agent_ops.Task.Samples.{plain_env, probe_spec, idle, quick}
use agent_ops.Task.Runner.{
  release_inflight, final_status, run, mark_inflight, drive, close_up, read_mission,
}
use agent_ops.Task.Flight.{
  Flight, begin, refused, end, Reachable, next, IsSingle, Reachable-IsSingle,
}
use agent_ops.Task.RunTotal.{IsHistory, Completed, run_completes}

abbrev npm_text : Str
npm_text = lit "npm warn deprecated a\nnpm warn: ERROR in b\nok"

epoch : format_date 0 ≡ lit "1970-01-01"
unfolding format_date itoa
epoch = refl

equinox : format_date 1_790_000_000_000_000_000 ≡ lit "2026-09-21"
unfolding format_date itoa
equinox = refl

hidden_lines : (filter_fact_for_prompt npm_text 3).1 ≡ 1
unfolding filter_fact_for_prompt count_hidden split is_noise is_keep contains lowered is_drop
hidden_lines = refl

abbrev forty : List Fact
forty = copies 40
  where
    copies : ℕ → List Fact
    copies zero = []
    copies (suc n) = record { ts = 0; source = lit "auto"; fact = itoa n } ∷ copies n

abbrev oldest : List Fact
oldest = record { ts = 0; source = lit "user"; fact = lit "the first" } ∷ []

quick-IsHistory : IsHistory quick
unfolding after_all
quick-IsHistory = record { acts = λ req s. []; at = λ req s. refl }

no_rows-RowsAreSound : RowsAreSound (fresh 1).runs
unfolding after_all
no_rows-RowsAreSound = after_all-RowsAreSound 1 []

run_completes_example :
    Completed quick plain_env probe_spec idle (run quick plain_env probe_spec idle).1.store
unfolding run mark_inflight start_run transaction insert_event fresh new_row str_eq drive
    read_mission get_mission close_up finish_run close_run final_status
run_completes_example =
    run_completes quick quick-IsHistory plain_env probe_spec idle no_rows-RowsAreSound refl

-- a probe and a backup overlap, and a second probe is refused meanwhile
abbrev both_in : Flight
both_in = record {
  inflight = lit "backup" ∷ lit "probe" ∷ [];
  active = lit "backup" ∷ lit "probe" ∷ [];
}

both_in-Reachable : Reachable both_in
unfolding mark_inflight str_eq
both_in-Reachable =
    next _ _
      (next _ _ (next _ _ Reachable.idle (begin (lit "probe") _ refl))
        (refused (lit "probe") _ refl))
      (begin (lit "backup") _ refl)

backup_in-Reachable :
    Reachable (record { inflight = lit "backup" ∷ []; active = lit "backup" ∷ [] })
unfolding mark_inflight release_inflight str_eq
backup_in-Reachable =
    next both_in _ both_in-Reachable (end (lit "probe") (lit "backup" ∷ []) [] both_in refl)

Reachable-IsSingle_example :
    IsSingle (record { inflight = lit "backup" ∷ []; active = lit "backup" ∷ [] })
Reachable-IsSingle_example =
    Reachable-IsSingle (record { inflight = lit "backup" ∷ []; active = lit "backup" ∷ [] })
      backup_in-Reachable
