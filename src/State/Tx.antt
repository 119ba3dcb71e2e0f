-- ===== src/State/Tx.antt =====
-- The database under internal/state: which calls fail is an argument, and a transaction works on a
-- copy that replaces the store only by a commit (`defer tx.Rollback()` undoes the rest).
use agent_ops.Prelude.{
  ℕ, ◌+◌, Str, Bool, false, Result, ok, err, [], ◌∷◌, ◌++◌, if◌then◌else◌, ◌≡◌, refl, arith, Option,
  none, some, true, inl, inr, ◌⊎◌, Bool-cases,
}
use mathlib.Core.Option
use agent_ops.State.Data.{Store, StateError, database}
use agent_ops.State.Json.{Payload}

-- which of an operation's calls of the database the database refuses
pub record Faults : Type 0 where
  pub begin : Bool
  pub read : Bool
  pub write : Bool
  pub event : Bool
  pub commit : Bool

abbrev pub no_faults : Faults
no_faults = record { begin = false; read = false; write = false; event = false; commit = false }

-- statements of a transaction: they read and change its copy of the store
abbrev pub Tx : Type 0 → Type 0
Tx A = Store → Result StateError (A × Store)

-- what a bind makes of the result of its first part
abbrev pub resume :
    {A B : Type 0} → Result StateError (A × Store) → (A → Tx B) → Result StateError (B × Store)
resume (err e) f = err e
resume (ok (a, s')) f = f a s'

infixl 5 ◌>>=◌ ◌>>◌
abbrev pub ◌>>=◌ : {A B : Type 0} → Tx A → (A → Tx B) → Tx B
◌>>=◌ m f s = resume (m s) f

abbrev pub ◌>>◌ : {B : Type 0} → Tx (Unit {0}) → Tx B → Tx B
m >> k = m >>= λ _. k

abbrev pub pure : {A : Type 0} → A → Tx A
pure a s = ok (a, s)

abbrev pub raise : {A : Type 0} → StateError → Tx A
raise e s = err e

-- a query, and a statement that changes a table; the flag says that the call fails
abbrev pub query : {A : Type 0} → Bool → (Store → A) → Tx A
query fails f s = if fails then err database else ok (f s, s)

abbrev pub exec : Bool → (Store → Store) → Tx (Unit {0})
exec fails f s = if fails then err database else ok (tt, f s)

-- Commit, once the statements have run; an early return rolls back
abbrev pub settle :
    {A : Type 0} → Bool → Result StateError (A × Store) → Store → Result StateError A × Store
settle refused (err e) s = (err e, s)
settle refused (ok (a, s')) s = if refused then (err database, s) else (ok a, s')

-- BeginTx, the statements, Commit
unfoldable pub transaction : {A : Type 0} → Faults → Tx A → Store → Result StateError A × Store
transaction f body s = if f.begin then (err database, s) else settle f.commit (body s) s

-- `INSERT INTO events(ts, typ, payload)`: the row takes the next number
unfoldable pub insert_event : ℕ → Str → Payload → Store → Store
insert_event ts typ payload s = record s {
  events = s.events ++ record { seq = s.last_seq + 1; ts = ts; typ = typ; payload = payload } ∷ [];
  last_seq = s.last_seq + 1;
}

-- A transaction that returns an error has changed nothing.
pub transaction_atomic :
    {A : Type 0} (f : Faults) (body : Tx A) (s : Store) (e : StateError)
    → (transaction f body s).0 ≡ err e
    → (transaction f body s).1 ≡ s
unfolding transaction
transaction_atomic f body s e h = ground arith

-- nothing, or the whole of what an operation may do, where it may do something
abbrev pub AllOrNothing : Store → Option Store → Store → Type 0
AllOrNothing s o s' = (s' ≡ s) ⊎ (o ≡ some s')

-- what a call, if it succeeds, makes of the store
abbrev pub Yields : {A : Type 0} → Result StateError (A × Store) → Option Store → Type 0
Yields {A} r o = (a : A) (t : Store) → r ≡ ok (a, t) → o ≡ some t

settle_cases :
    {A : Type 0} (refused : Bool) (r : Result StateError (A × Store)) (s : Store) (o : Option Store)
    → Yields r o
    → AllOrNothing s o (settle refused r s).1
settle_cases refused (err e) s o h = inl refl
settle_cases true (ok (a, t)) s o h = inl refl
settle_cases false (ok (a, t)) s o h = inr (h a t refl)

-- A transaction does all that its statements do, or nothing.
pub transaction_cases :
    {A : Type 0} (f : Faults) (body : Tx A) (s : Store) (o : Option Store)
    → Yields (body s) o
    → AllOrNothing s o (transaction f body s).1
unfolding transaction
transaction_cases f body s o h = elim (Bool-cases f.begin) [
  | inl p ↦ rw p (inl refl)
  | inr p ↦ rw p (settle_cases f.commit (body s) s o h)
]

-- a check of the arguments before it
pub guarded_cases :
    {A : Type 0} (b : Bool) (e : StateError) (f : Faults) (body : Tx A) (s : Store)
    (o : Option Store)
    → Yields (body s) o
    → AllOrNothing s (if b then none else o) (if b then (err e, s) else transaction f body s).1
guarded_cases true e f body s o h = inl refl
guarded_cases false e f body s o h = transaction_cases f body s o h

settle_ok :
    {A : Type 0} (refused : Bool) (r : Result StateError (A × Store)) (s : Store) (o : Option Store)
    (a : A)
    → Yields r o
    → (settle refused r s).0 ≡ ok a
    → o ≡ some (settle refused r s).1
settle_ok refused (err e) s o a h q = cc
settle_ok true (ok (b, t)) s o a h q = cc
settle_ok false (ok (b, t)) s o a h q = h b t refl

-- Where such an operation returns no error, it has had its effect.
pub guarded_ok :
    {A : Type 0} (b : Bool) (e : StateError) (f : Faults) (body : Tx A) (s : Store)
    (o : Option Store) (a : A)
    → Yields (body s) o
    → (if b then (err e, s) else transaction f body s).0 ≡ ok a
    → (if b then none else o) ≡ some (if b then (err e, s) else transaction f body s).1
unfolding transaction
guarded_ok true e f body s o a h q = cc
guarded_ok false e f body s o a h q = elim (Bool-cases f.begin) [
  | inl p ↦ cc (p, q)
  | inr p ↦ rw p (settle_ok f.commit (body s) s o a h (rw p at q))
]

Yields-resume :
    (r : Result StateError (Unit {0} × Store)) (fails : Bool) (k : Store → Store) (o : Option Store)
    → Yields r o
    → Yields (resume r (λ _. exec fails k)) (Option.map k o)
Yields-resume (err e) fails k o h a t' q = cc
Yields-resume (ok (b, u)) true k o h a t' q = cc
Yields-resume (ok (b, u)) false k o h a t' q = rw (h b u refl) (cc q)

-- A table's statement, then the event's.
pub Yields-bind :
    (m : Tx (Unit {0})) (fails : Bool) (k : Store → Store) (s : Store) (o : Option Store)
    → Yields (m s) o
    → Yields ((m >> exec fails k) s) (Option.map k o)
Yields-bind m fails k s o h a t' q = Yields-resume (m s) fails k o h a t' q

pub Yields-exec :
    (fails : Bool) (g : Store → Store) (s : Store) → Yields (exec fails g s) (some (g s))
Yields-exec true g s a t' q = cc
Yields-exec false g s a t' q = cc
