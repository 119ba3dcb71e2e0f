-- ===== src/State/RunRows.antt =====
-- What every row of task_runs satisfies after any history.
use agent_ops.Prelude.{
  ℕ, Str, str_eq_iff, List, [], ◌∷◌, ◌++◌, ◌≡◌, refl, Bool, true, false, ◌&&◌, ◌||◌, any, All,
  All-append, is_some, arith, if◌then◌else◌,
}
use agent_ops.State.Data.{RunStatus, RunRow, Store, fresh}
use agent_ops.State.Tx.{insert_event}
use agent_ops.State.Runs.{is_terminal, is_running, has_id, closed, close_run, new_row}
use agent_ops.State.History.{History, after_all}
use agent_ops.State.Effect.{effects_keep}
use agent_ops.State.Change.{
  Change, none_of_them, task, insert, close, charter, learned, Effected, event, line, effect_cases,
}

-- A run is running and has no end time, summary or error, or is over and has all three; its cost is zero.
pub record IsConsistent (r : RunRow) : Type 0 where
  pub known : is_running r.status || is_terminal r.status ≡ true
  pub ended : is_some r.ended_at ≡ is_terminal r.status
  pub summarised : is_some r.summary ≡ is_terminal r.status
  pub explained : is_some r.error ≡ is_terminal r.status
  pub free : r.cost_usd_micro ≡ 0

-- no two rows have one id
abbrev pub HasUniqueIds : List RunRow → Type 0
HasUniqueIds [] = Unit
HasUniqueIds (r ∷ rs) = (any (has_id r.id) rs ≡ false) × HasUniqueIds rs

pub record RowsAreSound (rs : List RunRow) : Type 0 where
  pub consistent : All IsConsistent rs
  pub unique : HasUniqueIds rs

new_row-IsConsistent : (id name trigger : Str) (at : ℕ) → IsConsistent (new_row id name trigger at)
unfolding new_row
new_row-IsConsistent id name trigger at = record {
  known = refl;
  ended = refl;
  summarised = refl;
  explained = refl;
  free = refl;
}

any-append :
    (p : RunRow → Bool) (rs : List RunRow) (x : RunRow) → any p (rs ++ x ∷ []) ≡ (any p rs || p x)
any-append p [] x = ground arith
any-append p (r ∷ rs) x = ground (arith, any-append p rs x)

has_id_comm : (a b : RunRow) → has_id a.id b ≡ has_id b.id a
has_id_comm a b = ground (arith, str_eq_iff a.id b.id, str_eq_iff b.id a.id)

HasUniqueIds-append :
    (rs : List RunRow) (x : RunRow)
    → HasUniqueIds rs
    → any (has_id x.id) rs ≡ false
    → HasUniqueIds (rs ++ x ∷ [])
HasUniqueIds-append [] x h q = (refl, tt)
HasUniqueIds-append (r ∷ rs) x (p, h) q = (
  ground (arith, any-append (has_id r.id) rs x, has_id_comm r x),
  HasUniqueIds-append rs x h (ground arith),
)

module _ (now : ℕ) (id : Str) (status : RunStatus) (summary error : Str) (calls : ℕ)
    (over : is_terminal status ≡ true) where
  closed_row : RunRow → RunRow
  closed_row r =
      if has_id id r && is_running r.status then closed now status summary error calls r else r

  id-closed_row : (r : RunRow) → (closed_row r).id ≡ r.id
  unfolding closed_row
  id-closed_row r = ground arith

  closed_row-IsConsistent : (r : RunRow) → IsConsistent r → IsConsistent (closed_row r)
  unfolding closed_row
  closed_row-IsConsistent r h = ground arith

  close_run-IsConsistent :
      (rs : List RunRow)
      → All IsConsistent rs
      → All IsConsistent (close_run now id status summary error calls rs)
  unfolding close_run closed_row
  close_run-IsConsistent [] h = tt
  close_run-IsConsistent (r ∷ rs) (h, hs) =
      (closed_row-IsConsistent r h, close_run-IsConsistent rs hs)

  any-close_run :
      (j : Str) (rs : List RunRow)
      → any (has_id j) (close_run now id status summary error calls rs) ≡ any (has_id j) rs
  unfolding close_run
  any-close_run j [] = refl
  any-close_run j (r ∷ rs) = ground (arith, any-close_run j rs)

  close_run_unique :
      (rs : List RunRow)
      → HasUniqueIds rs
      → HasUniqueIds (close_run now id status summary error calls rs)
  unfolding close_run closed_row
  close_run_unique [] h = tt
  close_run_unique (r ∷ rs) (h, hs) =
      (rw (any-close_run (closed_row r).id rs) (rw (id-closed_row r) h), close_run_unique rs hs)

Change-RowsAreSound : (s u : Store) → RowsAreSound s.runs → Change s u → RowsAreSound u.runs
Change-RowsAreSound s u h (none_of_them p) = rw p h
Change-RowsAreSound s u h (task t _ p) = rw p h
Change-RowsAreSound s u h (insert id name trigger at q p) = rw p (record {
  consistent =
      All-append IsConsistent s.runs (new_row id name trigger at ∷ []) h.consistent
        (new_row-IsConsistent id name trigger at, tt);
  unique = HasUniqueIds-append s.runs (new_row id name trigger at) h.unique (unfold new_row in q);
})
Change-RowsAreSound s u h (close now id status summary error calls over p) = rw p (record {
  consistent = close_run-IsConsistent now id status summary error calls over s.runs h.consistent;
  unique = close_run_unique now id status summary error calls over s.runs h.unique;
})
Change-RowsAreSound s u h (charter _ _ p) = rw p h
Change-RowsAreSound s u h (learned _ _ p) = rw p h

-- the store's rows are sound, as a property of stores
Sound : Store → Type 0
Sound s = RowsAreSound s.runs

Effected-Sound : (s t : Store) → Sound s → Effected s t → Sound t
unfolding Sound
Effected-Sound s t h (event ts typ payload u c q) =
    rw q (unfold insert_event in Change-RowsAreSound s u h c)
Effected-Sound s t h (line _ _ _ _ _ _ _ q) = rw q h

-- Every history keeps this.
pub after_all_sound :
    (h : History) (s : Store) → RowsAreSound s.runs → RowsAreSound (after_all h s).runs
unfolding Sound
after_all_sound =
    effects_keep {P = Sound} (λ at op s t p q. Effected-Sound s t p (effect_cases at op s t q))

-- After any history of a fresh store no two runs have one id, and every run is either running, with no
-- end time, summary or error, or over, with all three; the cost column of every run is still zero.
pub after_all-RowsAreSound : (now : ℕ) (h : History) → RowsAreSound (after_all h (fresh now)).runs
unfolding Sound
after_all-RowsAreSound now h =
    after_all_sound h (fresh now) (unfold fresh in record { consistent = tt; unique = tt })
