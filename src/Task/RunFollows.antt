-- ===== src/Task/RunFollows.antt =====
-- What a call of Runner.Run does to the store, whatever it returns.
use agent_ops.Prelude.{
  Str, Option, none, some, Result, ok, err, List, [], ◌∷◌, ◌≡◌, refl, Bool, true, false, is_nil,
  if◌then◌else◌, Bool-cases, inl, inr,
}
use agent_ops.State.Data.{Store, StateError, RunStatus}
use agent_ops.State.Runs.{start_run}
use agent_ops.State.Mission.{get_mission}
use agent_ops.State.History.{after_all, step, start, finish}
use agent_ops.State.Follows.{Follows, unchanged-Follows, chained-Follows}
use agent_ops.Task.Filter.{truncate}
use agent_ops.Task.Runner.{
  Spec, Answer, Driver, World, Env, Sink, run, drive, if_started, with_run_id, if_free, close_up,
  conclude, read_mission, mission_or_warning, mark_inflight, new_run, with_store, request_of,
  status_of,
}
use agent_ops.Task.RunTotal.{IsHistory, mission_history}

if_store :
    (b : Bool) (x y : World) (s : Store)
    → x.store ≡ s
    → y.store ≡ s
    → (if b then x else y).store ≡ s
if_store true x y s p q = p
if_store false x y s p q = q

module _ (driver : Driver) (honest : IsHistory driver) (env : Env) (spec : Spec) where
  conclude_store :
      (id prompt : Str) (a : Answer) (o : RunStatus × Str) (w : World)
      (r : Result StateError (Unit {0}) × Store)
      → (conclude env id spec prompt a o w r).1.store ≡ r.1
  conclude_store id prompt a (status, message) w (err e, s) = refl
  conclude_store id prompt a (status, message) w (ok u, s) = if_store w.reporting _ _ s refl refl

  close_up-Follows :
      (id prompt : Str) (a : Answer) (w : World)
      → Follows a.store (close_up env id spec prompt a w).1.store
  unfolding close_up after_all step
  close_up-Follows id prompt a w =
      let (status, message) = status_of env a in
      record {
        acts =
            (
              env.finish_faults,
              env.finished,
              finish id status (truncate a.result.final_message 2000) message a.result.tool_calls,
            )
            ∷ [];
        at = conclude_store id prompt a (status_of env a) w _;
      }

  drive-Follows : (id : Str) (w : World) → Follows w.store (drive driver env id spec w).1.store
  unfolding drive read_mission
  drive-Follows id w =
      let k : Sink = record { run_id = id; seq = 0 } in
      let (m, k', s) = mission_or_warning env k w.store (get_mission env.mission_faults w.store) in
      let req = request_of env spec w m k' in
      let (h, e) = mission_history env k w.store (get_mission env.mission_faults w.store) in
      chained-Follows w.store s _ (record { acts = h; at = e })
        (chained-Follows s (driver req s).store _
          (record { acts = honest.acts req s; at = honest.at req s })
          (close_up-Follows id req.system_prompt (driver req s) w))

  if_started-Follows :
      (id : Str) (w : World) (r : Result StateError (Unit {0}) × Store)
      → Follows r.1 (if_started driver env id spec w r).1.store
  if_started-Follows id w (err e, s) = unchanged-Follows s
  if_started-Follows id w (ok u, s) = drive-Follows id (with_store w s)

  with_run_id-Follows :
      (o : Option Str) (w : World) → Follows w.store (with_run_id driver env o spec w).1.store
  unfolding after_all step
  with_run_id-Follows none w = unchanged-Follows _
  with_run_id-Follows (some id) w =
      chained-Follows w.store
        (start_run env.start_faults env.started (new_run env id spec) w.store).1 _
        (record {
          acts = (env.start_faults, env.started, start (new_run env id spec)) ∷ [];
          at = refl;
        })
        (if_started-Follows id w
          (start_run env.start_faults env.started (new_run env id spec) w.store))

  if_free-Follows :
      (l : List Str × Bool) (w : World) → Follows w.store (if_free driver env spec w l).1.store
  if_free-Follows (l, false) w = unchanged-Follows _
  if_free-Follows (l, true) w = with_run_id-Follows env.run_id (record w { inflight = l })

  -- a run, whatever it returns, uses the store by its operations only
  pub run-Follows : (w : World) → Follows w.store (run driver env spec w).1.store
  unfolding run
  run-Follows w = elim (Bool-cases (is_nil spec.name)) [
    | inl p ↦ rw p (unchanged-Follows _)
    | inr p ↦ elim (Bool-cases (is_nil spec.prompt)) [
      | inl q ↦ rw (p, q) (unchanged-Follows _)
      | inr q ↦ rw (p, q) (if_free-Follows (mark_inflight spec.name w.inflight) w)
    ]
  ]
