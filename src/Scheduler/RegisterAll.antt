-- ===== src/Scheduler/RegisterAll.antt =====
-- Hydrate's last loop: what registering a list of tasks makes of the entries.
use agent_ops.Prelude.{
  Str, str_eq, str_eq_iff, Option, none, some, Result, ok, err, List, [], ◌∷◌, ◌≡◌, refl, sym, ap,
  ◌∙◌, Bool, true, false, if◌then◌else◌, any, find, arith, Bool-cases, inl, inr,
}
use agent_ops.State.Data.{Task}
use agent_ops.State.Tasks.{put_task}
use agent_ops.State.TaskLaws.{named, find-put_task, HasUniqueNames, put_task_unique}
use agent_ops.Scheduler.Cron.{Cron}
use agent_ops.Scheduler.Model.{
  Scheduler, SchedulerError, task_of, index_tasks, Upserts, register_task, then_register,
  register_all,
}
use agent_ops.Scheduler.Entries.{IsCoherent, scheduled, Registered, register_task-Registered}

-- Go ranges over a map in any order, each key once, with its value
pub record IsRange (order : List Task → List Task) : Type 0 where
  pub once : (ts : List Task) → HasUniqueNames ts → HasUniqueNames (order ts)
  pub same :
      (ts : List Task) (k : Str) → HasUniqueNames ts → find (named k) (order ts) ≡ find (named k) ts

abbrev pub or_else : Option Task → Option Task → Option Task
or_else (some t) o = some t
or_else none o = o

-- the last task of that name
abbrev pub last_named : Str → List Task → Option Task
last_named k [] = none
last_named k (t ∷ ts) = or_else (last_named k ts) (if str_eq t.name k then some t else none)

-- an enabled task is scheduled; a disabled or an unknown one is left as it is
abbrev pub or_kept : Option Task → Option Str → Option Str
or_kept none o = o
or_kept (some t) o = if t.enabled then some t.cron else o

abbrev pub config_tasks : Upserts → List Task
config_tasks [] = []
config_tasks ((f, now, c) ∷ cs) = task_of c ∷ config_tasks cs

-- the configuration's task of that name, or else the stored one
abbrev pub merged : Str → Upserts → List Task → Option Task
merged k cs stored = or_else (last_named k (config_tasks cs)) (last_named k stored)

pub or_else-some :
    (o : Option Task) (b : Bool) (t : Task) (x : Option Task)
    → or_else o (if b then some t else x) ≡ or_else (or_else o (if b then some t else none)) x
or_else-some o b t x = ground arith

pub find-index_tasks :
    (k : Str) (ts m : List Task)
    → find (named k) (index_tasks ts m) ≡ or_else (last_named k ts) (find (named k) m)
find-index_tasks k [] m = refl
find-index_tasks k (t ∷ ts) m =
    rw (find-index_tasks k ts (put_task t m), find-put_task k t m)
      (or_else-some (last_named k ts) (str_eq t.name k) t (find (named k) m))

pub index_tasks_unique : (ts m : List Task) → HasUniqueNames m → HasUniqueNames (index_tasks ts m)
index_tasks_unique [] m h = h
index_tasks_unique (t ∷ ts) m h = index_tasks_unique ts (put_task t m) (put_task_unique t m h)

-- a name that no later task has
find-none : (k : Str) (ts : List Task) → any (named k) ts ≡ false → find (named k) ts ≡ none
find-none k [] h = refl
find-none k (t ∷ ts) h = ground (arith, find-none k ts)

module _ (C : Cron) where
  -- what the last loop leaves
  pub record AllRegistered (ts : List Task) (s : Scheduler C)
      (r : Result SchedulerError (Unit {0}) × Scheduler C) : Type 0 where
    pub coherent : IsCoherent C r.1
    pub on_success :
        (u : Unit {0})
        → r.0 ≡ ok u
        → (k : Str) → scheduled C k r.1 ≡ or_kept (find (named k) ts) (scheduled C k s)

  -- the first task of the loop, by its flag
  module _ (t : Task) (ts : List Task) (s : Scheduler C) (h : IsCoherent C s)
      (alone : any (named t.name) ts ≡ false)
      (rest : (s' : Scheduler C)
        → IsCoherent C s'
        → AllRegistered ts s' (register_all C ts s')) where
    enabled_step :
        (k : Str) (x : Option Str)
        → t.enabled ≡ true
        → or_kept (find (named k) ts) (if str_eq t.name k then some t.cron else x)
          ≡ or_kept (find (named k) (t ∷ ts)) x
    enabled_step k x p = elim (Bool-cases (str_eq t.name k)) [
      | inl m ↦
          let none_left : find (named k) ts ≡ none =
            find-none k ts (rw (← (str_eq_iff t.name k).0 m) alone) in
          rw (m, none_left) (sym (ap (λ b. if b then some t.cron else x) p))
      | inr m ↦ rw m
    ]

    disabled_step :
        (k : Str) (x : Option Str)
        → t.enabled ≡ false
        → or_kept (find (named k) ts) x ≡ or_kept (find (named k) (t ∷ ts)) x
    disabled_step k x p = elim (Bool-cases (str_eq t.name k)) [
      | inl m ↦
          let none_left : find (named k) ts ≡ none =
            find-none k ts (rw (← (str_eq_iff t.name k).0 m) alone) in
          rw (m, none_left) (sym (ap (λ b. if b then some t.cron else x) p))
      | inr m ↦ rw m
    ]

    then_register-AllRegistered :
        (r : Result SchedulerError (Unit {0}) × Scheduler C)
        → t.enabled ≡ true
        → Registered C t s r
        → AllRegistered (t ∷ ts) s (then_register C (λ s'. register_all C ts s') r)
    then_register-AllRegistered (err e, s1) p g = record {
      coherent = g.coherent;
      on_success = λ u q. cc;
    }
    then_register-AllRegistered (ok v, s1) p g =
        let all = rest s1 g.coherent in
        record {
          coherent = all.coherent;
          on_success = λ u q k.
              all.on_success u q k
              ∙ (ap (λ x. or_kept (find (named k) ts) x) (g.on_success v refl k)
                  ∙ enabled_step k (scheduled C k s) p);
        }

    by_flag :
        (b : Bool)
        → t.enabled ≡ b
        → AllRegistered (t ∷ ts) s (
            if b
            then then_register C (λ s'. register_all C ts s') (register_task C t s)
            else register_all C ts s)
    by_flag true p =
        then_register-AllRegistered (register_task C t s) p (register_task-Registered C t s h)
    by_flag false p =
        let all = rest s h in
        record {
          coherent = all.coherent;
          on_success = λ u q k. all.on_success u q k ∙ disabled_step k (scheduled C k s) p;
        }

  pub register_all-AllRegistered :
      (ts : List Task) (s : Scheduler C)
      → IsCoherent C s
      → HasUniqueNames ts
      → AllRegistered ts s (register_all C ts s)
  unfolding register_all
  register_all-AllRegistered [] s h n = record { coherent = h; on_success = λ u q k. refl }
  register_all-AllRegistered (t ∷ ts) s h (n, ns) =
      by_flag t ts s h n (λ s' h'. register_all-AllRegistered ts s' h' ns) t.enabled refl
