-- ===== src/Scheduler/Slots.antt =====
-- A cron table of numbered slots, which refuses empty texts and those with a question mark in front, to
-- try the scheduler and the server with.
use agent_ops.Prelude.{
  ℕ, ◌+◌, Str, Option, none, some, ◌≡◌, Bool, true, false, not, if◌then◌else◌, ◌==◌, ltb, arith, [],
  ◌∷◌,
}
use agent_ops.Prelude.Assoc.{get}
use agent_ops.Scheduler.Cron.{Cron}
use agent_ops.Scheduler.Model.{Scheduler}
use agent_ops.Scheduler.Entries.{IsCoherent}

pub record Slots : Type 0 where
  pub next : ℕ
  pub at : ℕ → Option (Str × Str)

abbrev pub slot : Slots → ℕ → Option (Str × Str)
slot c k = if ltb k c.next then c.at k else none

abbrev pub filled : Str → Str → Slots → Slots
filled spec job c = record {
  next = c.next + 1;
  at = λ k. if c.next == k then some (spec, job) else c.at k;
}

-- neither an empty text nor one that begins with a question mark
abbrev pub parses : Str → Bool
parses [] = false
parses (b ∷ spec) = not (b == b'?')

abbrev pub fill_if : Bool → Str → Str → Slots → Option (ℕ × Slots)
fill_if false spec job c = none
fill_if true spec job c = some (c.next, filled spec job c)

abbrev pub fill : Str → Str → Slots → Option (ℕ × Slots)
fill spec job c = fill_if (parses spec) spec job c

pub fill_lem :
    (b : Bool) (spec job : Str) (c : Slots) (id : ℕ) (c' : Slots)
    → fill_if b spec job c ≡ some (id, c')
    → (c.next ≡ id) × (filled spec job c ≡ c')
fill_lem false spec job c id c' q = cc
fill_lem true spec job c id c' q = (cc q, cc q)

pub fill_new : (c : Slots) → slot c c.next ≡ none
fill_new c = ground arith

pub fill_slot :
    (spec job : Str) (c : Slots) (k : ℕ)
    → slot (filled spec job c) k ≡ (if c.next == k then some (spec, job) else slot c k)
fill_slot spec job c k = ground arith

pub removed_slot :
    (id : ℕ) (c : Slots) (k : ℕ)
    → slot (record c { at = λ j. if id == j then none else c.at j }) k
      ≡ (if id == k then none else slot c k)
removed_slot id c k = ground arith

-- a table of numbered slots
abbrev pub slots_cron : Cron
slots_cron = record {
  Table = Slots;
  entry = slot;
  add_func = fill;
  remove = λ id c. record c { at = λ k. if id == k then none else c.at k };
  add_new = λ spec job c id c' q. rw (← (fill_lem (parses spec) spec job c id c' q).0) (fill_new c);
  add_entry = λ spec job c id c' k q.
      rw
        (
          ← (fill_lem (parses spec) spec job c id c' q).0,
          ← (fill_lem (parses spec) spec job c id c' q).1,
        )
        (fill_slot spec job c k);
  remove_entry = λ id c k. removed_slot id c k;
}

abbrev pub stopped : Scheduler slots_cron
stopped = record {
  table = record { next = 1; at = λ k. none };
  entries = [];
  model_overrides = [];
  has_runner = true;
}

slot-none : (k : ℕ) → slot stopped.table k ≡ none
slot-none k = ground arith

pub stopped-IsCoherent : IsCoherent slots_cron stopped
unfolding get
stopped-IsCoherent = record {
  listed = λ name id q. cc;
  owned = λ id spec name q. cc (slot-none id, q);
}
