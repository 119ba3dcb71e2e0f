-- ===== src/State/TaskLaws.antt =====
-- What UpsertTask, GetTask and ListTasks promise each other.
use mathlib.Core.List.{Perm}
use agent_ops.Prelude.{
  ℕ, Str, str_eq, str_eq_iff, some, List, [], ◌∷◌, ◌≡◌, refl, Bool, false, find, is_nil, arith,
  if◌then◌else◌, ok, any, ◌||◌,
}
use agent_ops.Prelude.Text.{str_le_total, str_le_trans}
use agent_ops.Prelude.Sort.{sort, IsSorted, IsOrder, sort-perm, sort-IsSorted}
use agent_ops.State.Data.{Task, Store, fresh}
use agent_ops.State.Tx.{no_faults, transaction, insert_event}
use agent_ops.State.Tasks.{put_task, upsert_task, get_task, list_tasks, by_name}
use agent_ops.State.History.{History, after_all}
use agent_ops.State.Effect.{effects_keep}
use agent_ops.State.Change.{
  Change, none_of_them, task, insert, close, charter, learned, Effected, event, line, effect_cases,
}

abbrev pub named : Str → Task → Bool
named k t = str_eq t.name k

pub find-put_task :
    (k : Str) (t : Task) (ts : List Task)
    → find (named k) (put_task t ts) ≡ (if str_eq t.name k then some t else find (named k) ts)
unfolding put_task
find-put_task k t [] = refl
find-put_task k t (u ∷ us) = ground (
  arith,
  str_eq_iff t.name k,
  str_eq_iff u.name t.name,
  str_eq_iff u.name k,
  find-put_task k t us,
)

-- After UpsertTask of a named task, GetTask of that name reads the task with its new time, and GetTask
-- of any other name reads what it read before.
pub get_task-upsert_task :
    (now : ℕ) (t : Task) (s : Store) (k : Str)
    → is_nil t.name ≡ false
    → get_task no_faults k (upsert_task no_faults now t s).1
      ≡ (if str_eq t.name k then ok (record t { updated_at = now }) else get_task no_faults k s)
unfolding get_task upsert_task transaction insert_event
get_task-upsert_task now t s k h =
    ground (arith, find-put_task k (record t { updated_at = now }) s.tasks)

by_name-IsOrder : IsOrder by_name
by_name-IsOrder = record {
  total = λ a b. str_le_total a.name b.name;
  trans = λ a b c. str_le_trans a.name b.name c.name;
}

-- ListTasks returns the tasks of the table, each as often as it stands there, in the order of names.
list_tasks-IsSorted :
    (s : Store)
    → (ts : List Task) × (list_tasks no_faults s ≡ ok ts) × IsSorted by_name ts × Perm ts s.tasks
unfolding list_tasks
list_tasks-IsSorted s = (
  sort by_name s.tasks,
  refl,
  sort-IsSorted by_name by_name-IsOrder s.tasks,
  sort-perm by_name s.tasks,
)

-- no two tasks have one name
abbrev pub HasUniqueNames : List Task → Type 0
HasUniqueNames [] = Unit
HasUniqueNames (t ∷ ts) = (any (named t.name) ts ≡ false) × HasUniqueNames ts

any-put_task :
    (k : Str) (t : Task) (ts : List Task)
    → any (named k) (put_task t ts) ≡ (named k t || any (named k) ts)
unfolding put_task
any-put_task k t [] = ground arith
any-put_task k t (u ∷ us) = ground (arith, str_eq_iff u.name t.name, any-put_task k t us)

pub put_task_unique :
    (t : Task) (ts : List Task) → HasUniqueNames ts → HasUniqueNames (put_task t ts)
unfolding put_task
put_task_unique t [] h = (refl, tt)
put_task_unique t (u ∷ us) (h, hs) = ground (
  arith,
  any-put_task u.name t us,
  str_eq_iff u.name t.name,
  str_eq_iff t.name u.name,
  put_task_unique t us hs,
)

-- the names of a store's tasks are unique, as a property of stores
Named : Store → Type 0
Named s = HasUniqueNames s.tasks

Change-Named : (s u : Store) → Named s → Change s u → Named u
unfolding Named
Change-Named s u h (none_of_them p) = rw p h
Change-Named s u h (task t _ p) = rw p (put_task_unique t s.tasks h)
Change-Named s u h (insert _ _ _ _ _ p) = rw p h
Change-Named s u h (close _ _ _ _ _ _ _ p) = rw p h
Change-Named s u h (charter _ _ p) = rw p h
Change-Named s u h (learned _ _ p) = rw p h

Effected-Named : (s t : Store) → Named s → Effected s t → Named t
unfolding Named
Effected-Named s t h (event ts typ payload u c q) =
    rw q (unfold insert_event in Change-Named s u h c)
Effected-Named s t h (line _ _ _ _ _ _ _ q) = rw q h

-- After any history of a fresh store no two tasks have one name.
after_all-HasUniqueNames : (now : ℕ) (h : History) → HasUniqueNames (after_all h (fresh now)).tasks
unfolding Named
after_all-HasUniqueNames now h =
    effects_keep {P = Named} (λ at op s t p q. Effected-Named s t p (effect_cases at op s t q)) h
      (fresh now) (unfold fresh in tt)
