-- ===== src/Scheduler/Entries.antt =====
-- The entries map and cron's table agree, and what register does to them.
use agent_ops.Prelude.{
  ℕ, Str, str_eq, str_eq_iff, str_eq_refl, Option, none, some, Result, ok, err, ◌≡◌, refl, ap, ◌∙◌,
  Bool, true, false, if◌then◌else◌, ◌==◌, ==_iff, arith, Option-cases, Bool-cases, inl, inr,
}
use agent_ops.Prelude.Assoc.{get, put, remove, get-put, get-remove}
use agent_ops.State.Data.{Task}
use agent_ops.Scheduler.Cron.{Cron}
use agent_ops.Scheduler.Model.{Scheduler, SchedulerError, unschedule, register_task}

-- each entry of the map is an entry of cron for that task, and cron has no other
pub record IsCoherent (C : Cron) (s : Scheduler C) : Type 0 where
  pub listed :
      (name : Str) (id : ℕ)
      → get name s.entries ≡ some id
      → (spec : Str) × (C.entry s.table id ≡ some (spec, name))
  pub owned :
      (id : ℕ) (spec name : Str)
      → C.entry s.table id ≡ some (spec, name)
      → get name s.entries ≡ some id

abbrev pub spec_at : (C : Cron) → Scheduler C → Option ℕ → Option Str
spec_at C s none = none
spec_at C s (some id) = elim (C.entry s.table id) [ none ↦ none | some p ↦ some p.0 ]

-- the schedule on which cron fires the task
abbrev pub scheduled : (C : Cron) → Str → Scheduler C → Option Str
scheduled C name s = spec_at C s (get name s.entries)

module _ (C : Cron) where
  -- the same id belongs to one task
  owner_of :
      (s : Scheduler C) (id : ℕ) (name spec job : Str)
      → IsCoherent C s
      → get name s.entries ≡ some id
      → C.entry s.table id ≡ some (spec, job)
      → job ≡ name
  owner_of s id name spec job h q p = let (spec', w) = h.listed name id q in cc (w, p)

  if_not :
      {A : Type 0} (b : Bool) (o : Option A) (a : A)
      → (if b then none else o) ≡ some a
      → (b ≡ false) × (o ≡ some a)
  if_not true o a q = cc
  if_not false o a q = (refl, q)

  differ : (id i : ℕ) → (id ≡ i → ⊥) → (id == i) ≡ false
  differ id i n = ground arith

  differ_str : (j k : Str) → (j ≡ k → ⊥) → str_eq j k ≡ false
  differ_str j k n = ground (arith, str_eq_iff j k)

  without-IsCoherent :
      (name : Str) (id : ℕ) (s : Scheduler C)
      → IsCoherent C s
      → get name s.entries ≡ some id
      → IsCoherent C (record s { table = C.remove id s.table; entries = remove name s.entries })
  without-IsCoherent name id s h q = record {
    listed = λ k i p.
        let (n, e) = if_not (str_eq name k) (get k s.entries) i (rw get-remove at p) in
        let (spec, w) = h.listed k i e in
        let m : (id == i) ≡ false =
          differ id i (λ x. cc (x, w, (h.listed name id q).1, n, str_eq_refl name)) in
        (spec, rw (C.remove_entry, m) w);
    owned = λ i spec k p.
        let (m, w) = if_not (id == i) (C.entry s.table i) (spec, k) (rw C.remove_entry at p) in
        let e = h.owned i spec k w in
        let n : str_eq name k ≡ false =
          differ_str name k (λ x. let y : id ≡ i = cc (x, q, e) in ground arith) in
        rw (get-remove, n) e;
  }

  -- cron's table with the entry of the task
  added-IsCoherent :
      (name spec : Str) (id : ℕ) (table : C.Table) (s : Scheduler C)
      → IsCoherent C s
      → get name s.entries ≡ none
      → C.add_func spec name s.table ≡ some (id, table)
      → IsCoherent C (record s { table = table; entries = put name id s.entries })
  added-IsCoherent name spec id table s h q p = record {
    listed = λ k i e. elim (Bool-cases (str_eq name k)) [
      | inl n ↦
          let y : id ≡ i = cc (rw (get-put, n) at e) in
          (
            spec,
            rw (C.add_entry spec name s.table id table i p, (==_iff id i).1 y)
                (cc ((str_eq_iff name k).0 n)),
          )
      | inr n ↦
          let (spec', w) = h.listed k i (rw (get-put, n) at e) in
          let m : (id == i) ≡ false =
            differ id i (λ x. cc (x, w, C.add_new spec name s.table id table p)) in
          (spec', rw (C.add_entry spec name s.table id table i p, m) w)
    ];
    owned = λ i spec' k e. elim (Bool-cases (id == i)) [
      | inl m ↦
          let y : id ≡ i = (==_iff id i).0 m in
          let x : name ≡ k = cc (rw (C.add_entry spec name s.table id table i p, m) at e) in
          let n : str_eq name k ≡ true = (str_eq_iff name k).1 x in rw (get-put, n) (cc y)
      | inr m ↦
          let e' = h.owned i spec' k (rw (C.add_entry spec name s.table id table i p, m) at e) in
          let n : str_eq name k ≡ false = differ_str name k (λ x. cc (x, q, e')) in
          rw (get-put, n) e'
    ];
  }

  -- Taking a task's entry away keeps the agreement and the other tasks' schedules.
  pub unschedule-IsCoherent :
      (name : Str) (s : Scheduler C)
      → IsCoherent C s
      → IsCoherent C (unschedule C name s) × (get name (unschedule C name s).entries ≡ none)
  unfolding unschedule
  unschedule-IsCoherent name s h = elim (Option-cases (get name s.entries)) [
    | inl q ↦ rw q (h, q)
    | inr (id, q) ↦ rw q (without-IsCoherent name id s h q, rw (get-remove, str_eq_refl name))
  ]

  spec_at-same :
      (s s' : Scheduler C) (o : Option ℕ)
      → ((i : ℕ) → o ≡ some i → C.entry s'.table i ≡ C.entry s.table i)
      → spec_at C s' o ≡ spec_at C s o
  spec_at-same s s' none h = refl
  spec_at-same s s' (some i) h =
      ap (λ (o : Option (Str × Str)). elim o [ none ↦ none | some p ↦ some p.0 ]) (h i refl)

  pub scheduled-unschedule :
      (name k : Str) (s : Scheduler C)
      → IsCoherent C s
      → scheduled C k (unschedule C name s) ≡ (if str_eq name k then none else scheduled C k s)
  unfolding unschedule
  scheduled-unschedule name k s h = elim (Bool-cases (str_eq name k)) [
    | inl n ↦
        let e : get name (unschedule C name s).entries ≡ none =
          (unschedule-IsCoherent name s h).1 in
        rw (n, ← (str_eq_iff name k).0 n, e)
    | inr n ↦ elim (Option-cases (get name s.entries)) [
      | inl q ↦ rw (q, n)
      | inr (id, q) ↦
          rw (q, n, get-remove, n)
            (spec_at-same s
              (record s { table = C.remove id s.table; entries = remove name s.entries })
              (get k s.entries)
              (λ i e.
                let (spec, w) = h.listed k i e in
                let m : (id == i) ≡ false =
                  differ id i (λ x. cc (x, w, (h.listed name id q).1, n, str_eq_refl name)) in
                rw (C.remove_entry, m)))
    ]
  ]

  -- An added entry fires its task on its schedule, and the others on theirs.
  scheduled-added :
      (name spec k : Str) (id : ℕ) (table : C.Table) (s : Scheduler C)
      → IsCoherent C s
      → C.add_func spec name s.table ≡ some (id, table)
      → scheduled C k (record s { table = table; entries = put name id s.entries })
        ≡ (if str_eq name k then some spec else scheduled C k s)
  scheduled-added name spec k id table s h p = elim (Bool-cases (str_eq name k)) [
    | inl n ↦
        let m : (id == id) ≡ true = (==_iff id id).1 refl in
        rw (get-put, n, C.add_entry spec name s.table id table id p, m)
    | inr n ↦
        rw (get-put, n)
          (spec_at-same s (record s { table = table; entries = put name id s.entries })
            (get k s.entries)
            (λ i e.
              let (spec', w) = h.listed k i e in
              let m : (id == i) ≡ false =
                differ id i (λ x. cc (x, w, C.add_new spec name s.table id table p)) in
              rw (C.add_entry spec name s.table id table i p, m)))
  ]

  -- what register leaves: the entries agree with cron; without an error the task is scheduled as it
  -- says, with an error it is not scheduled at all; the other tasks are as they were
  pub record Registered (t : Task) (s : Scheduler C)
      (r : Result SchedulerError (Unit {0}) × Scheduler C) : Type 0 where
    pub coherent : IsCoherent C r.1
    pub on_success :
        (u : Unit {0})
        → r.0 ≡ ok u
        → (k : Str) → scheduled C k r.1 ≡ (if str_eq t.name k then some t.cron else scheduled C k s)
    pub on_error :
        (e : SchedulerError)
        → r.0 ≡ err e
        → (k : Str) → scheduled C k r.1 ≡ (if str_eq t.name k then none else scheduled C k s)

  if_twice :
      {A : Type 0} (b : Bool) (x y z : A)
      → (if b then x else if b then y else z) ≡ (if b then x else z)
  if_twice b x y z = ground arith

  -- Register, in any scheduler whose entries agree with cron.
  pub register_task-Registered :
      (t : Task) (s : Scheduler C) → IsCoherent C s → Registered t s (register_task C t s)
  unfolding register_task
  register_task-Registered t s h =
      let s' = unschedule C t.name s in
      let (c, gone) = unschedule-IsCoherent t.name s h in
      elim (Option-cases (C.add_func t.cron t.name s'.table)) [
        | inl q ↦ rw q (record {
          coherent = c;
          on_success = λ u x. cc;
          on_error = λ e x k. scheduled-unschedule t.name k s h;
        })
        | inr ((id, table), q) ↦ rw q (record {
          coherent = added-IsCoherent t.name t.cron id table s' c gone q;
          on_success = λ u x k.
              scheduled-added t.name t.cron k id table s' c q
              ∙ rw (scheduled-unschedule t.name k s h) (if_twice (str_eq t.name k) _ _ _);
          on_error = λ e x. cc;
        })
      ]
