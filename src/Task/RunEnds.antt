-- ===== src/Task/RunEnds.antt =====
-- How a call of Runner.Run that returns no error has ended its run in the store.
use agent_ops.Prelude.{
  ℕ, Str, lit, str_eq_iff, none, some, Result, ok, err, List, [], ◌∷◌, ◌≡◌, refl, true, false, not,
  any, arith, Bool-cases, inl, inr,
}
use agent_ops.State.Data.{RunStatus, RunRow, Store, StateError, run_finished}
use agent_ops.State.Tx.{Faults, insert_event}
use agent_ops.State.Runs.{
  is_terminal, is_running, has_id, find_run, is_open, closed, close_run, finish_run,
}
use agent_ops.State.Effect.{finish_ok, updated, updated_lem, publish_keeps}
use agent_ops.State.RunRows.{RowsAreSound, HasUniqueIds}
use agent_ops.State.RunLife.{Belongs}
use agent_ops.Task.Filter.{truncate}
use agent_ops.Task.RunnerLaws.{final_status_lem}
use agent_ops.Task.Runner.{Spec, Answer, World, Env, close_up, conclude, status_of, RunRecord, send}

-- an id that no row has
not_open : (id : Str) (rs : List RunRow) → any (has_id id) rs ≡ false → any (is_open id) rs ≡ false
not_open id [] h = refl
not_open id (r ∷ rs) h = ground (arith, not_open id rs)

-- where ids are unique, the row that the UPDATE closes is the row of that id
find-close_run_open :
    (now : ℕ) (id : Str) (status : RunStatus) (summary error : Str) (calls : ℕ) (rs : List RunRow)
    → HasUniqueIds rs
    → any (is_open id) rs ≡ true
    → (r : RunRow) × (find_run id rs ≡ some r)
      × (find_run id (close_run now id status summary error calls rs)
          ≡ some (closed now status summary error calls r))
unfolding close_run
find-close_run_open now id status summary error calls [] h q = cc
find-close_run_open now id status summary error calls (r ∷ rs) (h, hs) q =
    elim (Bool-cases (has_id id r)) [
      | inl p ↦
          let e : r.id ≡ id = (str_eq_iff r.id id).0 p in
          let rest : any (is_open id) rs ≡ false = not_open id rs (rw e at h) in
          let o : is_running r.status ≡ true = ground arith in (r, rw p, rw (p, o) (rw p))
      | inr p ↦
          let (x, e, e') =
            find-close_run_open now id status summary error calls rs hs (rw p at q) in
          (x, rw p e, rw p (rw p e'))
    ]

-- FinishRun without an error has closed a run of a store whose ids are unique.
finish_run_closes :
    (f : Faults) (now : ℕ) (id : Str) (status : RunStatus) (summary error : Str) (calls : ℕ)
    (s : Store) (u : Unit {0})
    → RowsAreSound s.runs
    → (finish_run f now id status summary error calls s).0 ≡ ok u
    → (r : RunRow) × (find_run id s.runs ≡ some r)
      × (find_run id (finish_run f now id status summary error calls s).1.runs
          ≡ some (closed now status summary error calls r))
finish_run_closes f now id status summary error calls s u sound q =
    publish_keeps
      (λ t.
        (r : RunRow) × (find_run id s.runs ≡ some r)
        × (find_run id t.runs ≡ some (closed now status summary error calls r)))
      (not (is_terminal status)) now (lit "run.finished")
      (run_finished id status summary error calls) (updated now id status summary error calls s)
      (λ c t e.
        let (o, p) = updated_lem now id status summary error calls s t e in
        unfold insert_event in
        rw p (find-close_run_open now id status summary error calls s.runs sound.unique o))
      (finish_ok f now id status summary error calls s u q)

-- the run of `id` is over in the store, as the driver's answer `a` decides
pub record IsOver (env : Env) (id : Str) (spec : Spec) (a : Answer) (s : Store) : Type 0 where
  pub row : RunRow
  pub found : find_run id s.runs ≡ some row
  pub of_task : row.task_name ≡ spec.name
  pub of_trigger : row.trigger ≡ spec.trigger
  pub since : row.started_at ≡ env.started
  pub decided : row.status ≡ (status_of env a).0
  pub over : is_terminal row.status ≡ true
  pub until : row.ended_at ≡ some env.finished
  pub message : row.error ≡ some (status_of env a).1
  pub counted : row.tool_calls ≡ a.result.tool_calls

store-send : (w : World) (rec : RunRecord) → (send w rec).store ≡ w.store
store-send w rec = ground arith

module _ (env : Env) (id : Str) (spec : Spec) (a : Answer) where
  abbrev closing : Result StateError (Unit {0}) × Store
  closing =
      finish_run env.finish_faults env.finished id (status_of env a).0
        (truncate a.result.final_message 2000) (status_of env a).1 a.result.tool_calls a.store

  closing-IsOver :
      (u : Unit {0})
      → RowsAreSound a.store.runs
      → Belongs id spec.name spec.trigger env.started a.store
      → closing.0 ≡ ok u
      → IsOver env id spec a closing.1
  closing-IsOver u sound b q =
      let (r, before, after) =
        finish_run_closes env.finish_faults env.finished id (status_of env a).0
          (truncate a.result.final_message 2000) (status_of env a).1 a.result.tool_calls a.store u
          sound q in
      let e : b.row ≡ r = cc (b.found, before) in
      record {
        row =
            closed env.finished (status_of env a).0 (truncate a.result.final_message 2000)
              (status_of env a).1 a.result.tool_calls r;
        found = after;
        of_task = rw (← e) b.of_task;
        of_trigger = rw (← e) b.of_trigger;
        since = rw (← e) b.since;
        decided = refl;
        over = (final_status_lem env.ctx env.cctx a.error a.result.error).0;
        until = refl;
        message = refl;
        counted = refl;
      }

  conclude-IsOver :
      (prompt : Str) (w : World) (r : Result StateError (Unit {0}) × Store)
      → ((u : Unit {0}) → r.0 ≡ ok u → IsOver env id spec a r.1)
      → (conclude env id spec prompt a (status_of env a) w r).0.error ≡ none
      → IsOver env id spec a (conclude env id spec prompt a (status_of env a) w r).1.store
  conclude-IsOver prompt w (err e, s) h q = cc
  conclude-IsOver prompt w (ok u, s) h q = rw store-send (h u refl)

  -- The end of a run, from the driver's answer on.
  pub close_up-IsOver :
      (prompt : Str) (w : World)
      → RowsAreSound a.store.runs
      → Belongs id spec.name spec.trigger env.started a.store
      → (close_up env id spec prompt a w).0.error ≡ none
      → IsOver env id spec a (close_up env id spec prompt a w).1.store
  unfolding close_up
  close_up-IsOver prompt w sound b q =
      conclude-IsOver prompt w closing (λ u p. closing-IsOver u sound b p) q
