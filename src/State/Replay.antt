-- ===== src/State/Replay.antt =====
-- The event log as a replication log: the domain tables are what replaying the events makes.
use mathlib.Core.List.{foldl, foldl-append}
use agent_ops.Prelude.{
  ℕ, ◌+◌, Str, lit, trim_space, not, ◌||◌, none, some, List, [], ◌∷◌, ◌++◌, ◌≡◌, refl, sym, ap, ◌∙◌,
  true, false, is_nil, arith, inl, inr,
}
use agent_ops.State.Json.{Payload, raw}
use agent_ops.State.Data.{
  Task, TaskRun, running, Tables, Store, Event, task_upserted, run_started, run_finished,
  statement_set, fact_added, fresh,
}
use agent_ops.State.Tx.{insert_event}
use agent_ops.State.Tasks.{write_task}
use agent_ops.State.Runs.{new_row, or_now, is_terminal}
use agent_ops.State.Mission.{bound_facts, new_fact, or_auto, write_facts, write_statement}
use agent_ops.State.History.{
  Op, append, upsert, start, finish, log, state_mission, learn, History, after_all, step,
}
use agent_ops.State.Effect.{
  effect, step-AllOrNothing, publish_keeps, inserted, updated, inserted_lem, updated_lem,
}
use agent_ops.State.Follower.{
  apply_event, IsSpelled, AllSpelled, by_type-upsert, by_type-start, by_type-finish, by_type-learn,
  by_type-state, by_type-other,
}

unfoldable pub replay : ℕ → List Event → Tables
replay now = foldl apply_event (fresh now).tables

-- the tables of a store are the replay of its events
abbrev IsReplayed : ℕ → Store → Type 0
IsReplayed now s = replay now s.events ≡ s.tables

-- an operation that changes the tables as its event says
IsReplayed-publish :
    (now ts : ℕ) (typ : Str) (payload : Payload) (s u : Store)
    → IsReplayed now s
    → u.events ≡ s.events
    → u.tables
      ≡ apply_event s.tables
          (record { seq = u.last_seq + 1; ts = ts; typ = typ; payload = payload })
    → IsReplayed now (insert_event ts typ payload u)
unfolding replay insert_event
IsReplayed-publish now ts typ payload s u h q p =
    let e : Event = record { seq = u.last_seq + 1; ts = ts; typ = typ; payload = payload } in
    rw q (
      foldl-append apply_event (fresh now).tables s.events (e ∷ [])
      ∙ ap (λ t. apply_event t e) h
      ∙ sym p)

IsReplayed-effect :
    (now at : ℕ) (op : Op) (s t : Store)
    → IsSpelled op
    → IsReplayed now s
    → effect at op s ≡ some t
    → IsReplayed now t
IsReplayed-effect now at (append typ none) s t v h q = cc
IsReplayed-effect now at (append typ (some p)) s t v h q =
    publish_keeps (IsReplayed now) (is_nil typ) at typ (raw p) (some s)
      (λ _ u e.
        IsReplayed-publish now at typ (raw p) s u h (cc)
          (cc (e, by_type-other s.tables at typ [] v)))
      q
IsReplayed-effect now at (upsert x) s t v h q =
    let x' : Task = record x { updated_at = at } in
    publish_keeps (IsReplayed now) (is_nil x.name) at (lit "task.upserted") (task_upserted x')
      (some (write_task x' s))
      (λ _ u e.
        IsReplayed-publish now at _ (task_upserted x') s u h (cc)
          (cc (e, by_type-upsert s.tables at at x v)))
      q
IsReplayed-effect now at (start run) s t v h q =
    let ts = or_now at run.started_at in
    let r = new_row run.id run.task_name run.trigger ts in
    let run' : TaskRun = record run { started_at = some ts; status = running } in
    publish_keeps (IsReplayed now) (is_nil run.id || is_nil run.task_name) ts (lit "run.started")
      (run_started run') (inserted r s)
      (λ _ u e.
        let i = (inserted_lem r s u e).1 in
        IsReplayed-publish now ts _ (run_started run') s u h (cc i)
          (cc (i, by_type-start s.tables ts run' v)))
      q
IsReplayed-effect now at (finish id status summary error calls) s t v h q =
    publish_keeps (IsReplayed now) (not (is_terminal status)) at (lit "run.finished")
      (run_finished id status summary error calls) (updated at id status summary error calls s)
      (λ b u e.
        let i = (updated_lem at id status summary error calls s u e).1 in
        let m : is_terminal status ≡ true = ground (arith, b) in
        IsReplayed-publish now at _ (run_finished id status summary error calls) s u h (cc i)
          (cc (i, by_type-finish s.tables at id status summary error calls v m)))
      q
IsReplayed-effect now at (log id seq level message) s t v h q = ground arith
IsReplayed-effect now at (state_mission statement) s t v h q =
    publish_keeps (IsReplayed now) false at (lit "mission.statement_set") (statement_set statement)
      (some (write_statement statement at s))
      (λ _ u e.
        IsReplayed-publish now at _ (statement_set statement) s u h (cc)
          (cc (e, by_type-state s.tables at statement v)))
      q
IsReplayed-effect now at (learn source text) s t (v, w) h q =
    let source' = or_auto source in
    let text' = trim_space text in
    publish_keeps (IsReplayed now) (is_nil (trim_space text)) at (lit "mission.fact_added")
      (fact_added source' text')
      (some (write_facts (bound_facts (s.mission.facts ++ new_fact at source' text' ∷ [])) at s))
      (λ _ u e.
        IsReplayed-publish now at _ (fact_added source' text') s u h (cc)
          (cc (e, by_type-learn s.tables at source' text' v w)))
      q

IsReplayed-after_all :
    (now : ℕ) (h : History) (s : Store)
    → AllSpelled h
    → IsReplayed now s
    → IsReplayed now (after_all h s)
unfolding after_all
IsReplayed-after_all now [] s v p = p
IsReplayed-after_all now ((f, at, op) ∷ h) s (v, vs) p =
    IsReplayed-after_all now h (step f at op s).1 vs (elim (step-AllOrNothing f at op s) [
      | inl q ↦ rw q p
      | inr q ↦ IsReplayed-effect now at op s (step f at op s).1 v p q
    ])

-- Whatever the daemon did to a fresh store, and whichever calls of the database failed meanwhile: if
-- the texts were valid UTF-8, and no caller of Append took a type of the store's own, a follower that
-- starts fresh and applies the events in order, each by its type and the fields of its payload, has the
-- same tasks, runs and mission.
pub replay-after_all :
    (now : ℕ) (h : History)
    → AllSpelled h
    → replay now (after_all h (fresh now)).events ≡ (after_all h (fresh now)).tables
replay-after_all now h v = IsReplayed-after_all now h (fresh now) v (unfold replay fresh in refl)
