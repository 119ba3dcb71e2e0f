-- ===== src/State/History.antt =====
-- Any sequence of the store's mutating operations, with any of the database's calls failing.
use agent_ops.Prelude.{
  ℕ, Str, Option, none, some, Result, ok, err, List, [], ◌∷◌, ◌≡◌, arith, refl, is_nil, not, ◌||◌,
  trim_space, if◌then◌else◌, Bool, true, false,
}
use agent_ops.State.Data.{RunStatus, Task, TaskRun, Store, StateError}
use agent_ops.State.Tx.{Faults, transaction_atomic, transaction, Tx}
use agent_ops.State.Events.{append_event}
use agent_ops.State.Tasks.{upsert_task}
use agent_ops.State.Runs.{start_run, finish_run, append_run_log, is_terminal}
use agent_ops.State.Mission.{set_statement, add_fact}

pub data Op : Type 0 where
  append : Str → Option Str → Op
  upsert : Task → Op
  start : TaskRun → Op
  finish : Str → RunStatus → Str → Str → ℕ → Op
  log : Str → ℕ → Str → Str → Op
  state_mission : Str → Op
  learn : Str → Str → Op

abbrev pub error_of : {A : Type 0} → Result StateError A → Option StateError
error_of (ok a) = none
error_of (err e) = some e

abbrev pub outcome : {A : Type 0} → Result StateError A × Store → Option StateError × Store
outcome (r, s) = (error_of r, s)

-- the error that an operation returns, and the store that it leaves
unfoldable pub step : Faults → ℕ → Op → Store → Option StateError × Store
step f now (append typ payload) s = outcome (append_event f now typ payload s)
step f now (upsert t) s = outcome (upsert_task f now t s)
step f now (start run) s = outcome (start_run f now run s)
step f now (finish id status summary error calls) s =
    outcome (finish_run f now id status summary error calls s)
step f now (log id seq level message) s = outcome (append_run_log f now id seq level message s)
step f now (state_mission statement) s = outcome (set_statement f now statement s)
step f now (learn source text) s = outcome (add_fact f now source text s)

-- the operations of a daemon's life, each with the calls that fail in it and its time
abbrev pub History : Type 0
History = List (Faults × ℕ × Op)

unfoldable pub after_all : History → Store → Store
unfolding step
after_all [] s = s
after_all ((f, now, op) ∷ rest) s = after_all rest (step f now op s).1

-- What every operation keeps, every history keeps.
module _ {P : Store → Type 0}
    (keeps : (f : Faults) (now : ℕ) (op : Op) (s : Store) → P s → P (step f now op s).1) where
  pub after_all_induction : (h : History) (s : Store) → P s → P (after_all h s)
  unfolding after_all
  after_all_induction [] s p = p
  after_all_induction ((f, now, op) ∷ rest) s p =
      after_all_induction rest (step f now op s).1 (keeps f now op s p)

-- an error means that the store is the one before
abbrev Atomic : {A : Type 0} → Store → Result StateError A × Store → Type 0
Atomic s r = (e : StateError) → error_of r.0 ≡ some e → r.1 ≡ s

Atomic-transaction :
    {A : Type 0} (f : Faults) (body : Tx A) (s : Store) → Atomic s (transaction f body s)
Atomic-transaction {A} f body s e h = failed (transaction f body s).0 refl h
  where
    failed :
        (r : Result StateError A)
        → (transaction f body s).0 ≡ r
        → error_of r ≡ some e
        → (transaction f body s).1 ≡ s
    failed (ok a) q h = cc
    failed (err d) q h = transaction_atomic f body s d q

-- a check of the arguments before the transaction
Atomic-if :
    {A : Type 0} (b : Bool) (s : Store) (r q : Result StateError A × Store)
    → Atomic s r
    → Atomic s q
    → Atomic s (if b then r else q)
Atomic-if true s r q hr hq = hr
Atomic-if false s r q hr hq = hq

-- Whatever operation of the store returns an error, whichever of the database's calls failed, it has
-- left the tables, the events and the logs as they were.
pub step_atomic :
    (f : Faults) (now : ℕ) (op : Op) (s : Store) (e : StateError)
    → (step f now op s).0 ≡ some e
    → (step f now op s).1 ≡ s
unfolding step append_event upsert_task start_run finish_run append_run_log set_statement add_fact
step_atomic f now (append typ none) s e h = ground arith
step_atomic f now (append typ (some p)) s e h = ground arith
step_atomic f now (upsert t) s e h =
    Atomic-if (is_nil t.name) s _ _ (λ _ _. refl) (Atomic-transaction f _ s) e h
step_atomic f now (start run) s e h =
    Atomic-if (is_nil run.id || is_nil run.task_name) s _ _ (λ _ _. refl) (Atomic-transaction f _ s)
      e h
step_atomic f now (finish id status summary error calls) s e h =
    Atomic-if (not (is_terminal status)) s _ _ (λ _ _. refl) (Atomic-transaction f _ s) e h
step_atomic f now (log id seq level message) s e h = ground arith
step_atomic f now (state_mission statement) s e h = Atomic-transaction f _ s e h
step_atomic f now (learn source text) s e h =
    Atomic-if (is_nil (trim_space text)) s _ _ (λ _ _. refl) (Atomic-transaction f _ s) e h
