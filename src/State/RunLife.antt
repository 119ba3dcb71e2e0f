-- ===== src/State/RunLife.antt =====
-- The life of a task run: it opens once, closes once, and then never changes.
use agent_ops.Prelude.{
  ℕ, Str, some, List, [], ◌∷◌, ◌++◌, ◌≡◌, refl, ◌∙◌, true, false, arith, if◌then◌else◌, Bool-cases,
  inl, inr,
}
use agent_ops.State.Data.{RunStatus, RunRow, Store}
use agent_ops.State.Tx.{insert_event}
use agent_ops.State.Runs.{
  is_terminal, is_running, has_id, find_run, is_open, closed, close_run, new_row,
}
use agent_ops.State.History.{History, after_all}
use agent_ops.State.Effect.{effects_keep}
use agent_ops.State.Change.{
  Change, none_of_them, task, insert, close, charter, learned, Effected, event, line, effect_cases,
}

-- an old row stays the first of its id when rows are added
find-append :
    (id : Str) (rs : List RunRow) (x r : RunRow)
    → find_run id rs ≡ some r
    → find_run id (rs ++ x ∷ []) ≡ some r
find-append id [] x r h = cc
find-append id (y ∷ ys) x r h = ground (arith, find-append id ys x r)

-- the UPDATE reaches open rows only
find-close_run :
    (now : ℕ) (j : Str) (status : RunStatus) (summary error : Str) (calls : ℕ) (id : Str)
    (rs : List RunRow) (r : RunRow)
    → find_run id rs ≡ some r
    → is_running r.status ≡ false
    → find_run id (close_run now j status summary error calls rs) ≡ some r
unfolding close_run
find-close_run now j status summary error calls id [] r h q = cc
find-close_run now j status summary error calls id (y ∷ ys) r h q =
    ground (arith, find-close_run now j status summary error calls id ys r)

-- the row of a run that is over
Shows : Str → RunRow → Store → Type 0
Shows id r s = find_run id s.runs ≡ some r

Shows-Change :
    (id : Str) (r : RunRow) (s u : Store)
    → is_running r.status ≡ false
    → Shows id r s
    → Change s u
    → Shows id r u
unfolding Shows
Shows-Change id r s u q h (none_of_them p) = rw p h
Shows-Change id r s u q h (task t _ p) = rw p h
Shows-Change id r s u q h (insert j name trigger at _ p) =
    rw p (find-append id s.runs (new_row j name trigger at) r h)
Shows-Change id r s u q h (close now j status summary error calls _ p) =
    rw p (find-close_run now j status summary error calls id s.runs r h q)
Shows-Change id r s u q h (charter _ _ p) = rw p h
Shows-Change id r s u q h (learned _ _ p) = rw p h

Shows-Effected :
    (id : Str) (r : RunRow) (s t : Store)
    → is_running r.status ≡ false
    → Shows id r s
    → Effected s t
    → Shows id r t
Shows-Effected id r s t q h (event ts typ payload u c e) =
    rw e (unfold Shows insert_event in Shows-Change id r s u q h c)
Shows-Effected id r s t q h (line _ _ _ _ _ _ _ e) = rw e (unfold Shows in h)

not_running_of_terminal : (x : RunStatus) → is_terminal x ≡ true → is_running x ≡ false
not_running_of_terminal x h = ground arith

-- A run with a terminal status keeps its row, column for column, whatever operations follow and
-- whichever calls of the database fail.
pub terminal_run_frozen :
    (h : History) (s : Store) (id : Str) (r : RunRow)
    → find_run id s.runs ≡ some r
    → is_terminal r.status ≡ true
    → find_run id (after_all h s).runs ≡ some r
unfolding Shows
terminal_run_frozen h s id r found over =
    effects_keep {P = Shows id r}
      (λ at op s t p q.
        Shows-Effected id r s t (not_running_of_terminal r.status over) p
          (effect_cases at op s t q))
      h s found

-- a row of that id exists, for that task, by that trigger and since that time
pub record Belongs (id name trigger : Str) (at : ℕ) (s : Store) : Type 0 where
  pub row : RunRow
  pub found : find_run id s.runs ≡ some row
  pub of_task : row.task_name ≡ name
  pub of_trigger : row.trigger ≡ trigger
  pub since : row.started_at ≡ at

module _ (now : ℕ) (j : Str) (status : RunStatus) (summary error : Str) (calls : ℕ) where
  -- the row that the UPDATE leaves in the place of `r`
  rewritten : RunRow → RunRow
  rewritten r = if is_open j r then closed now status summary error calls r else r

  has_id-rewritten : (id : Str) (r : RunRow) → has_id id (rewritten r) ≡ has_id id r
  unfolding rewritten
  has_id-rewritten id r = ground arith

  close_run-cons :
      (r : RunRow) (rs : List RunRow)
      → close_run now j status summary error calls (r ∷ rs)
        ≡ rewritten r ∷ close_run now j status summary error calls rs
  unfolding close_run rewritten
  close_run-cons r rs = refl

  find-close_run_any :
      (id : Str) (rs : List RunRow) (r : RunRow)
      → find_run id rs ≡ some r
      → find_run id (close_run now j status summary error calls rs) ≡ some (rewritten r)
  find-close_run_any id [] r h = cc
  find-close_run_any id (y ∷ ys) r h = elim (Bool-cases (has_id id y)) [
    | inl p ↦ rw (close_run-cons, has_id-rewritten, p) (cc (rw p at h))
    | inr p ↦ rw (close_run-cons, has_id-rewritten, p) (find-close_run_any id ys r (rw p at h))
  ]

  rewritten_same :
      (r : RunRow)
      → ((rewritten r).task_name ≡ r.task_name)
        × ((rewritten r).trigger ≡ r.trigger)
        × ((rewritten r).started_at ≡ r.started_at)
  unfolding rewritten
  rewritten_same r = ground arith

Belongs-same :
    {id name trigger : Str} {at : ℕ} (s u : Store)
    → u.runs ≡ s.runs
    → Belongs id name trigger at s
    → Belongs id name trigger at u
Belongs-same s u p b = record {
  row = b.row;
  found = rw p b.found;
  of_task = b.of_task;
  of_trigger = b.of_trigger;
  since = b.since;
}

Belongs-Change :
    (id name trigger : Str) (at : ℕ) (s u : Store)
    → Belongs id name trigger at s
    → Change s u
    → Belongs id name trigger at u
Belongs-Change id name trigger at s u b (none_of_them p) = Belongs-same s u (cc) b
Belongs-Change id name trigger at s u b (task t _ p) = Belongs-same s u (cc) b
Belongs-Change id name trigger at s u b (insert j n x ts _ p) = rw p (record {
  row = b.row;
  found = find-append id s.runs (new_row j n x ts) b.row b.found;
  of_task = b.of_task;
  of_trigger = b.of_trigger;
  since = b.since;
})
Belongs-Change id name trigger at s u b (close now j status summary error calls _ p) =
    rw p (record {
      row = rewritten now j status summary error calls b.row;
      found = find-close_run_any now j status summary error calls id s.runs b.row b.found;
      of_task = (rewritten_same now j status summary error calls b.row).0 ∙ b.of_task;
      of_trigger = (rewritten_same now j status summary error calls b.row).1 ∙ b.of_trigger;
      since = (rewritten_same now j status summary error calls b.row).2 ∙ b.since;
    })
Belongs-Change id name trigger at s u b (charter _ _ p) = Belongs-same s u (cc) b
Belongs-Change id name trigger at s u b (learned _ _ p) = Belongs-same s u (cc) b

Belongs-Effected :
    (id name trigger : Str) (at : ℕ) (s t : Store)
    → Belongs id name trigger at s
    → Effected s t
    → Belongs id name trigger at t
Belongs-Effected id name trigger at s t b (event ts typ payload u c e) = rw e (
    Belongs-same u (insert_event ts typ payload u) (unfold insert_event in refl)
      (Belongs-Change id name trigger at s u b c))
Belongs-Effected id name trigger at s t b (line _ _ _ _ _ _ _ e) = Belongs-same s t (cc) b

-- A run's task, trigger and start never change.
pub Belongs-after_all :
    (id name trigger : Str) (at : ℕ) (h : History) (s : Store)
    → Belongs id name trigger at s
    → Belongs id name trigger at (after_all h s)
Belongs-after_all id name trigger at =
    effects_keep {P = Belongs id name trigger at}
      (λ now op s t p q. Belongs-Effected id name trigger at s t p (effect_cases now op s t q))
