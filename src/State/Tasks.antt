-- ===== src/State/Tasks.antt =====
-- internal/state/state.go: UpsertTask, GetTask and ListTasks.
use agent_ops.Prelude.{
  ℕ, Str, lit, str_eq, Bool, Option, none, some, Result, ok, err, List, [], ◌∷◌, if◌then◌else◌,
  is_nil, find,
}
use agent_ops.Prelude.Text.{str_le}
use agent_ops.Prelude.Sort.{sort}
use agent_ops.State.Data.{Task, Store, task_upserted, StateError, name_required, no_rows, database}
use agent_ops.State.Tx.{Faults, Tx, ◌>>◌, exec, transaction, insert_event}

-- `INSERT … ON CONFLICT(name) DO UPDATE`: the primary key is the name
unfoldable pub put_task : Task → List Task → List Task
put_task t [] = t ∷ []
put_task t (u ∷ us) = if str_eq u.name t.name then t ∷ us else u ∷ put_task t us

abbrev pub write_task : Task → Store → Store
write_task t s = record s { tables = record s.tables { tasks = put_task t s.tasks } }

-- nil Tools become an empty list, which is the empty list here
abbrev pub upsert_tx : Faults → Task → Tx (Unit {0})
upsert_tx f t =
    exec f.write (write_task t)
    >> exec f.event (insert_event t.updated_at (lit "task.upserted") (task_upserted t))

unfoldable pub upsert_task : Faults → ℕ → Task → Store → Result StateError (Unit {0}) × Store
upsert_task f now t s =
    if is_nil t.name
    then (err name_required, s)
    else transaction f (upsert_tx f (record t { updated_at = now })) s

abbrev pub found : {A : Type 0} → Option A → Result StateError A
found none = err no_rows
found (some a) = ok a

unfoldable pub get_task : Faults → Str → Store → Result StateError Task
get_task f name s =
    if f.read then err database else found (find (λ (t : Task). str_eq t.name name) s.tasks)

abbrev pub by_name : Task → Task → Bool
by_name a b = str_le a.name b.name

unfoldable pub list_tasks : Faults → Store → Result StateError (List Task)
list_tasks f s = if f.read then err database else ok (sort by_name s.tasks)
