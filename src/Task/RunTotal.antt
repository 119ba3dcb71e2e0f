-- ===== src/Task/RunTotal.antt =====
-- Runner.Run as a whole: a call that returns no error has ended its run.
use agent_ops.Prelude.{
  ◌+◌, Str, str_eq_refl, Option, none, some, Result, ok, err, List, [], ◌∷◌, ◌++◌, ◌≡◌, refl, Bool,
  true, false, ◌||◌, is_nil, Bool-cases, inl, inr, lit,
}
use agent_ops.Tool.Registry.{subset}
use agent_ops.State.Data.{running, Store, StateError, Mission, run_started}
use agent_ops.State.Tx.{insert_event}
use agent_ops.State.Runs.{start_run, new_row}
use agent_ops.State.Mission.{get_mission}
use agent_ops.State.History.{History, after_all, start, log, step}
use agent_ops.State.Effect.{start_ok, inserted, inserted_lem, publish_keeps}
use agent_ops.State.RunRows.{RowsAreSound, after_all_sound}
use agent_ops.State.RunLife.{Belongs, Belongs-after_all}
use agent_ops.State.RunOnce.{find-append_new}
use agent_ops.Task.Runner.{
  Spec, Request, Driver, World, Env, run, drive, if_started, with_run_id, if_free, read_mission,
  mission_or_warning, sink_log, Sink, mark_inflight, new_run, with_store, request_of,
}
use agent_ops.Task.RunEnds.{IsOver, close_up-IsOver}

-- what the driver did to the store is some history of the store's operations
pub record IsHistory (driver : Driver) : Type 0 where
  pub acts : Request → Store → History
  pub at : (req : Request) (s : Store) → (driver req s).store ≡ after_all (acts req s) s

-- reading the mission writes at most a line of log
pub mission_history :
    (env : Env) (k : Sink) (s : Store) (r : Result StateError Mission)
    → (h : History) × ((mission_or_warning env k s r).2 ≡ after_all h s)
unfolding after_all step sink_log
mission_history env k s (ok m) = ([], refl)
mission_history env k s (err e) = (
  (
    env.log_faults,
    env.warned,
    log k.run_id (k.seq + 1) (lit "warn")
        (lit "could not read instance mission: " ++ env.mission_error),
  )
      ∷ [],
  refl,
)

-- a run that stands in a sound store
record Stands (env : Env) (id : Str) (spec : Spec) (s : Store) : Type 0 where
  sound : RowsAreSound s.runs
  belongs : Belongs id spec.name spec.trigger env.started s

Stands-after_all :
    (env : Env) (id : Str) (spec : Spec) (h : History) (s : Store)
    → Stands env id spec s
    → Stands env id spec (after_all h s)
Stands-after_all env id spec h s b = record {
  sound = after_all_sound h s b.sound;
  belongs = Belongs-after_all id spec.name spec.trigger env.started h s b.belongs;
}

start-Belongs :
    (env : Env) (id : Str) (spec : Spec) (s : Store) (u : Unit {0})
    → (start_run env.start_faults env.started (new_run env id spec) s).0 ≡ ok u
    → Belongs id spec.name spec.trigger env.started
        (start_run env.start_faults env.started (new_run env id spec) s).1
unfolding new_row
start-Belongs env id spec s u q =
    let r = new_row id spec.name spec.trigger env.started in
    publish_keeps (Belongs id spec.name spec.trigger env.started) (is_nil id || is_nil spec.name)
      env.started (lit "run.started")
      (run_started
        (record (new_run env id spec) { started_at = some env.started; status = running }))
      (inserted r s)
      (λ c t e.
        let (fresh_id, p) = inserted_lem r s t e in
        record {
          row = r;
          found =
              unfold insert_event in rw p (find-append_new id s.runs r fresh_id (str_eq_refl id));
          of_task = refl;
          of_trigger = refl;
          since = refl;
        })
      (start_ok env.start_faults env.started (new_run env id spec) s u q)

start-Stands :
    (env : Env) (id : Str) (spec : Spec) (s : Store) (u : Unit {0})
    → RowsAreSound s.runs
    → (start_run env.start_faults env.started (new_run env id spec) s).0 ≡ ok u
    → Stands env id spec (start_run env.start_faults env.started (new_run env id spec) s).1
unfolding after_all step
start-Stands env id spec s u sound q = record {
  sound =
      after_all_sound ((env.start_faults, env.started, start (new_run env id spec)) ∷ []) s sound;
  belongs = start-Belongs env id spec s u q;
}

-- what a call without an error leaves: the driver was asked with the task's prompt, the tools of its
-- allowlist and the runner's bound, and the run is over as the driver's answer decides
pub record Completed (driver : Driver) (env : Env) (spec : Spec) (w : World) (s : Store)
    : Type 0 where
  pub id : Str
  pub req : Request
  pub before : Store
  pub named : env.run_id ≡ some id
  pub asked : req.user_prompt ≡ spec.prompt
  pub allowed : req.tools ≡ subset spec.tools w.tools
  pub limited : req.max_tool_calls ≡ w.max_tool_calls
  pub pinned : req.model ≡ spec.model
  pub over : IsOver env id spec (driver req before) s

module _ (driver : Driver) (honest : IsHistory driver) (env : Env) (spec : Spec) where
  drive-Completed :
      (id : Str) (w : World)
      → env.run_id ≡ some id
      → Stands env id spec w.store
      → (drive driver env id spec w).0.error ≡ none
      → Completed driver env spec w (drive driver env id spec w).1.store
  unfolding drive read_mission
  drive-Completed id w n b q =
      let k : Sink = record { run_id = id; seq = 0 } in
      let (m, k', s) = mission_or_warning env k w.store (get_mission env.mission_faults w.store) in
      let req = request_of env spec w m k' in
      let (h, e) = mission_history env k w.store (get_mission env.mission_faults w.store) in
      let c : Stands env id spec s = rw e (Stands-after_all env id spec h w.store b) in
      let d : Stands env id spec (driver req s).store =
        rw (honest.at req s) (Stands-after_all env id spec (honest.acts req s) s c) in
      record {
        id = id;
        req = req;
        before = s;
        named = n;
        asked = refl;
        allowed = refl;
        limited = refl;
        pinned = refl;
        over = close_up-IsOver env id spec (driver req s) req.system_prompt w d.sound d.belongs q;
      }

  if_started-Completed :
      (id : Str) (w : World) (r : Result StateError (Unit {0}) × Store)
      → env.run_id ≡ some id
      → ((u : Unit {0}) → r.0 ≡ ok u → Stands env id spec r.1)
      → (if_started driver env id spec w r).0.error ≡ none
      → Completed driver env spec w (if_started driver env id spec w r).1.store
  if_started-Completed id w (err e, s) n h q = cc
  if_started-Completed id w (ok u, s) n h q =
      let c = drive-Completed id (with_store w s) n (h u refl) q in
      record {
        id = c.id;
        req = c.req;
        before = c.before;
        named = c.named;
        asked = c.asked;
        allowed = c.allowed;
        limited = c.limited;
        pinned = c.pinned;
        over = c.over;
      }

  with_run_id-Completed :
      (o : Option Str) (w : World)
      → env.run_id ≡ o
      → RowsAreSound w.store.runs
      → (with_run_id driver env o spec w).0.error ≡ none
      → Completed driver env spec w (with_run_id driver env o spec w).1.store
  with_run_id-Completed none w n sound q = cc
  with_run_id-Completed (some id) w n sound q =
      if_started-Completed id w
        (start_run env.start_faults env.started (new_run env id spec) w.store) n
        (λ u p. start-Stands env id spec w.store u sound p) q

  if_free-Completed :
      (l : List Str × Bool) (w : World)
      → RowsAreSound w.store.runs
      → (if_free driver env spec w l).0.error ≡ none
      → Completed driver env spec w (if_free driver env spec w l).1.store
  if_free-Completed (l, false) w sound q = cc
  if_free-Completed (l, true) w sound q =
      let c = with_run_id-Completed env.run_id (record w { inflight = l }) refl sound q in
      record {
        id = c.id;
        req = c.req;
        before = c.before;
        named = c.named;
        asked = c.asked;
        allowed = c.allowed;
        limited = c.limited;
        pinned = c.pinned;
        over = c.over;
      }

  -- A call of Run that returns no error, over a store whose rows are sound and with a driver that uses
  -- the store by its operations only: the driver was asked with the task's prompt, the tools of its
  -- allowlist, the runner's bound and the task's model; and the row of the new run shows the task, the
  -- trigger and the times, and the terminal status, the error and the tool calls of the driver's answer.
  pub run_completes :
      (w : World)
      → RowsAreSound w.store.runs
      → (run driver env spec w).0.error ≡ none
      → Completed driver env spec w (run driver env spec w).1.store
  unfolding run
  run_completes w sound q = elim (Bool-cases (is_nil spec.name)) [
    | inl p ↦ cc (p, q)
    | inr p ↦ elim (Bool-cases (is_nil spec.prompt)) [
      | inl p' ↦ cc (p, p', q)
      | inr p' ↦
          rw (p, p')
            (if_free-Completed (mark_inflight spec.name w.inflight) w sound (rw (p, p') at q))
    ]
  ]
