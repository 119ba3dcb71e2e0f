-- ===== src/State/Numbers.antt =====
-- The numbers of the events: AUTOINCREMENT, and paging by EventsSince.
use agent_ops.Prelude.{
  ℕ, zero, suc, ◌+◌, ◌≤◌, Str, List, [], ◌∷◌, ◌++◌, ◌≡◌, refl, arith, keep, take, drop, ok,
}
use agent_ops.Prelude.Int.{ℤ, pos}
use agent_ops.State.Data.{Store, Event, fresh}
use agent_ops.State.Json.{Payload}
use agent_ops.State.Tx.{insert_event, no_faults}
use agent_ops.State.Events.{after, events_since, clamp_limit}
use agent_ops.State.History.{History, after_all}
use agent_ops.State.Effect.{effects_keep}
use agent_ops.State.Change.{
  Change, none_of_them, task, insert, close, charter, learned, Effected, event, line, effect_cases,
}
use native.Mathlib.Numerals.{add-one}

-- the events after number `n` are numbered n + 1, n + 2, … and end at `last`
abbrev pub Numbered : ℕ → List Event → ℕ → Type 0
Numbered n [] last = n ≡ last
Numbered n (e ∷ es) last = (e.seq ≡ suc n) × Numbered (suc n) es last

Numbered-append :
    (n : ℕ) (es : List Event) (last : ℕ) (e : Event)
    → Numbered n es last
    → e.seq ≡ suc last
    → Numbered n (es ++ e ∷ []) (suc last)
Numbered-append n [] last e h q = ground arith
Numbered-append n (x ∷ es) last e (p, h) q = (p, Numbered-append (suc n) es last e h q)

keep-Numbered_all :
    (n m : ℕ) (es : List Event) (last : ℕ)
    → m ≤ n
    → Numbered n es last
    → keep (after (pos m)) es ≡ es
keep-Numbered_all n m [] last h _ = refl
keep-Numbered_all n m (e ∷ es) last h (p, q) =
    ground (arith, keep-Numbered_all (suc n) m es last (omega arith) q)

-- among consecutive numbers, those after the k-th are what is left when k are dropped
keep-Numbered :
    (n k m : ℕ) (es : List Event) (last : ℕ)
    → m ≡ n + k
    → Numbered n es last
    → keep (after (pos m)) es ≡ drop k es
keep-Numbered n zero m es last q h = keep-Numbered_all n m es last (omega arith) h
keep-Numbered n (suc k) m [] last q h = refl
keep-Numbered n (suc k) m (e ∷ es) last q (p, h) =
    ground (arith, keep-Numbered (suc n) k m es last (omega arith) h)

IsNumbered : Store → Type 0
IsNumbered s = Numbered 0 s.events s.last_seq

IsNumbered-insert_event :
    (ts : ℕ) (typ : Str) (payload : Payload) (s u : Store)
    → IsNumbered s
    → u.events ≡ s.events
    → u.last_seq ≡ s.last_seq
    → IsNumbered (insert_event ts typ payload u)
unfolding insert_event IsNumbered
IsNumbered-insert_event ts typ payload s u h p q =
    rw (p, q, add-one) (Numbered-append 0 s.events s.last_seq _ h refl)

Change-events : (s u : Store) → Change s u → (u.events ≡ s.events) × (u.last_seq ≡ s.last_seq)
Change-events s u (none_of_them p) = (cc, cc)
Change-events s u (task t _ p) = (cc, cc)
Change-events s u (insert _ _ _ _ _ p) = (cc, cc)
Change-events s u (close _ _ _ _ _ _ _ p) = (cc, cc)
Change-events s u (charter _ _ p) = (cc, cc)
Change-events s u (learned _ _ p) = (cc, cc)

IsNumbered-Effected : (s t : Store) → IsNumbered s → Effected s t → IsNumbered t
IsNumbered-Effected s t h (event ts typ payload u c q) =
    let (p, r) = Change-events s u c in rw q (IsNumbered-insert_event ts typ payload s u h p r)
IsNumbered-Effected s t h (line _ _ _ _ _ _ _ q) = rw q (unfold IsNumbered in h)

after_all-IsNumbered : (now : ℕ) (h : History) → IsNumbered (after_all h (fresh now))
after_all-IsNumbered now h =
    effects_keep {P = IsNumbered}
      (λ at op s t p q. IsNumbered-Effected s t p (effect_cases at op s t q)) h (fresh now)
      (unfold IsNumbered fresh in refl)

-- After any history of a fresh store, EventsSince of a number k returns, oldest first and cut at the
-- clamped limit, all the events but the first k: a reader that asks again from the last number that it
-- has seen misses none and sees none twice.
pub events_since-after_all :
    (now : ℕ) (h : History) (k : ℕ) (limit : ℤ)
    → events_since no_faults (pos k) limit (after_all h (fresh now))
      ≡ ok (take (clamp_limit 10000 1000 limit) (drop k (after_all h (fresh now)).events))
unfolding events_since IsNumbered
events_since-after_all now h k limit = rw (
    keep-Numbered 0 k k (after_all h (fresh now)).events _ (omega arith)
      (after_all-IsNumbered now h))

-- In such a store the events are numbered 1, 2, 3, … with no gap.
after_all-Numbered :
    (now : ℕ) (h : History)
    → Numbered 0 (after_all h (fresh now)).events (after_all h (fresh now)).last_seq
unfolding IsNumbered
after_all-Numbered now h = after_all-IsNumbered now h
