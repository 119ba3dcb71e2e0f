-- ===== src/Scheduler/Cron.antt =====
-- What internal/scheduler relies on in github.com/robfig/cron/v3: AddFunc schedules a job under a new
-- id, or refuses the schedule's text; Remove takes an entry away.
use agent_ops.Prelude.{ℕ, Str, Option, none, some, ◌≡◌, if◌then◌else◌, ◌==◌}

-- a job is the task's name: makeJob's closure reads nothing else of the task
pub record Cron : Type 1 where
  pub Table : Type 0
  pub entry : Table → ℕ → Option (Str × Str)
  pub add_func : Str → Str → Table → Option (ℕ × Table)
  pub remove : ℕ → Table → Table
  pub add_new :
      (spec job : Str) (c : Table) (id : ℕ) (c' : Table)
      → add_func spec job c ≡ some (id, c')
      → entry c id ≡ none
  pub add_entry :
      (spec job : Str) (c : Table) (id : ℕ) (c' : Table) (k : ℕ)
      → add_func spec job c ≡ some (id, c')
      → entry c' k ≡ (if id == k then some (spec, job) else entry c k)
  pub remove_entry :
      (id : ℕ) (c : Table) (k : ℕ) → entry (remove id c) k ≡ (if id == k then none else entry c k)
