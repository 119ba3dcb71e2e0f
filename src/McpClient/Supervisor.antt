-- ===== src/McpClient/Supervisor.antt =====
-- internal/mcpclient/manager.go: superviseStdio as steps, with those of the subprocess and of Close.
use agent_ops.Prelude.{
  ℕ, ◌*◌, ◌≤◌, ltb, Option, none, some, Bool, true, false, not, ◌&&◌, if◌then◌else◌, ◌==◌, ◌≡◌,
  refl, ◌⊎◌, Bool-cases, inl, inr, arith,
}

-- a stdioClient: whether `cmd` is set; `doneCh`, `none` while it is nil, else whether it is closed, as it
-- is once the process has exited; and `closed`
pub record Process : Type 0 where
  pub running : Bool
  pub done : Option Bool
  pub closed : Bool

pub data Phase : Type 0 where
  watching waiting returned : Phase

pub record Supervisor : Type 0 where
  pub process : Process
  pub backoff : ℕ
  pub phase : Phase
  pub stopped : Bool

-- nanoseconds
abbrev pub second : ℕ
second = 1_000_000_000

abbrev pub max_backoff : ℕ → ℕ
max_backoff seconds = if seconds == 0 then 30 * second else seconds * second

unfoldable pub next_backoff : ℕ → ℕ → ℕ
next_backoff b max = if ltb max (b * 2) then max else b * 2

-- `cmd` and `doneCh` are nil
abbrev cleared : Process → Process
cleared p = record p { running = false; done = none }

abbrev running_again : Process → Process
running_again p = record p { running = true; done = some false }

-- behind the wait: Start fails on a closed client; `start` and `init` are whether the calls succeed
unfoldable pub restarted : ℕ → Bool → Bool → Supervisor → Supervisor
restarted max start init s =
    if not (start && not s.process.closed)
    then record s {
      process = cleared s.process;
      backoff = next_backoff s.backoff max;
      phase = watching;
    }
    else if not init
    then record s {
      process = running_again s.process;
      backoff = next_backoff s.backoff max;
      phase = watching;
    }
    else record s { process = running_again s.process; backoff = second; phase = watching }

pub data Step (max : ℕ) : Supervisor → Supervisor → Type 0 where
  exits :
      (s : Supervisor)
      → s.process.done ≡ some false
      → Step max s (record s { process = record s.process { done = some true } })
  closes : (s : Supervisor) → Step max s (record s { process = record s.process { closed = true } })
  stops : (s : Supervisor) → Step max s (record s { stopped = true })
  notices :
      (s : Supervisor)
      → s.phase ≡ watching
      → s.process.done ≡ some true
      → Step max s (record s { phase = if s.process.closed then returned else waiting })
  returns :
      (s : Supervisor)
      → (s.phase ≡ watching) ⊎ (s.phase ≡ waiting)
      → s.stopped ≡ true
      → Step max s (record s { phase = returned })
  restarts :
      (s : Supervisor) (start init : Bool)
      → s.phase ≡ waiting
      → Step max s (restarted max start init s)

pub data Steps (max : ℕ) : Supervisor → Supervisor → Type 0 where
  here : (s : Supervisor) → Steps max s s
  next : (s t u : Supervisor) → Steps max s t → Step max t u → Steps max s u

-- the supervisor of a client that has just started
abbrev pub fresh_supervisor : Supervisor
fresh_supervisor = record {
  process = record { running = true; done = some false; closed = false };
  backoff = second;
  phase = watching;
  stopped = false;
}

next_backoff_lem :
    (b max : ℕ)
    → second ≤ b
    → second ≤ max
    → (second ≤ next_backoff b max) × (next_backoff b max ≤ max)
unfolding next_backoff
next_backoff_lem b max h k = ground arith

-- the delay before a restart
pub record IsPaced (max : ℕ) (s : Supervisor) : Type 0 where
  pub low : second ≤ s.backoff
  pub high : s.backoff ≤ max

restarted-IsPaced :
    (max : ℕ) (start init : Bool) (s : Supervisor)
    → second ≤ max
    → IsPaced max s
    → IsPaced max (restarted max start init s)
unfolding restarted
restarted-IsPaced max start init s h p =
    let (l, u) = next_backoff_lem s.backoff max p.low h in
    elim (Bool-cases (not (start && not s.process.closed))) [
      | inl f ↦ rw f (record { low = l; high = u })
      | inr f ↦ elim (Bool-cases (not init)) [
        | inl g ↦ rw (f, g) (record { low = l; high = u })
        | inr g ↦ rw (f, g) (record { low = omega arith; high = h })
      ]
    ]

Step-IsPaced :
    (max : ℕ) (s t : Supervisor) → second ≤ max → IsPaced max s → Step max s t → IsPaced max t
Step-IsPaced max s t h p (exits _ e) = record { low = p.low; high = p.high }
Step-IsPaced max s t h p (closes _) = record { low = p.low; high = p.high }
Step-IsPaced max s t h p (stops _) = record { low = p.low; high = p.high }
Step-IsPaced max s t h p (notices _ e d) = record { low = p.low; high = p.high }
Step-IsPaced max s t h p (returns _ e d) = record { low = p.low; high = p.high }
Step-IsPaced max s t h p (restarts _ start init e) = restarted-IsPaced max start init _ h p

max_backoff_lem : (seconds : ℕ) → second ≤ max_backoff seconds
max_backoff_lem seconds = ground arith

steps-IsPaced :
    (max : ℕ) (s t : Supervisor) → second ≤ max → IsPaced max s → Steps max s t → IsPaced max t
steps-IsPaced max s t h p (here _) = p
steps-IsPaced max s t h p (next _ m _ w x) = Step-IsPaced max m t h (steps-IsPaced max s m h p w) x

-- However often a subprocess exits and its restarts fail, the delay before a restart is a second at
-- least, and at most the configured bound, or 30 seconds without one.
Steps-IsPaced :
    (seconds : ℕ) (t : Supervisor)
    → Steps (max_backoff seconds) fresh_supervisor t
    → IsPaced (max_backoff seconds) t
Steps-IsPaced seconds t w =
    let h = max_backoff_lem seconds in
    steps-IsPaced (max_backoff seconds) fresh_supervisor t h
      (record { low = omega arith; high = h }) w

-- a supervisor that waits on a nil channel, or has returned
pub record IsStuck (s : Supervisor) : Type 0 where
  pub idle : s.process.running ≡ false
  pub nil_channel : s.process.done ≡ none
  pub no_wait : (s.phase ≡ watching) ⊎ (s.phase ≡ returned)

Step-IsStuck : (max : ℕ) (s t : Supervisor) → IsStuck s → Step max s t → IsStuck t
Step-IsStuck max s t k (exits _ e) = cc (k.nil_channel, e)
Step-IsStuck max s t k (closes _) = record {
  idle = k.idle;
  nil_channel = k.nil_channel;
  no_wait = k.no_wait;
}
Step-IsStuck max s t k (stops _) = record {
  idle = k.idle;
  nil_channel = k.nil_channel;
  no_wait = k.no_wait;
}
Step-IsStuck max s t k (notices _ e d) = cc (k.nil_channel, d)
Step-IsStuck max s t k (returns _ e d) = record {
  idle = k.idle;
  nil_channel = k.nil_channel;
  no_wait = inr refl;
}
Step-IsStuck max s t k (restarts _ start init e) = elim k.no_wait [
  | inl q ↦ cc (q, e)
  | inr q ↦ cc (q, e)
]

steps-IsStuck : (max : ℕ) (s t : Supervisor) → IsStuck s → Steps max s t → IsStuck t
steps-IsStuck max s t k (here _) = k
steps-IsStuck max s t k (next _ m _ w x) = Step-IsStuck max m t (steps-IsStuck max s m k w) x

-- Once Start has failed after a crash, the supervisor never tries again: `doneCh` stays nil, and
-- whatever happens then, the process does not run and no wait for a restart begins.
pub restarted-IsStuck :
    (max : ℕ) (init : Bool) (s t : Supervisor)
    → Steps max (restarted max false init s) t
    → IsStuck t
unfolding restarted
restarted-IsStuck max init s t w =
    steps-IsStuck max (restarted max false init s) t
      (record { idle = refl; nil_channel = refl; no_wait = inl refl }) w
