-- ===== src/Front/Ready.antt =====
-- internal/api/mcp/server.go: startReadinessGate. What the application answers, and when, is an argument.
use agent_ops.Prelude.{
  ℕ, zero, suc, ◌+◌, ◌*◌, ◌≤◌, ◌<◌, ◌≡◌, refl, Option, none, some, Bool, true, false, ◌&&◌, ltb,
  leb, if◌then◌else◌, Bool-cases, inl, inr, arith,
}

-- the status of an answer, `none` for an error, and the time behind the request
pub record Poll : Type 0 where
  pub answer : Option ℕ
  pub now : ℕ

abbrev pub second : ℕ
second = 1000000000

abbrev pub gate_timeout : ℕ
gate_timeout = 360 * second

abbrev pub poll_interval : ℕ
poll_interval = 3 * second

abbrev pub in_status_range : ℕ × ℕ → Option ℕ → Bool
in_status_range range none = false
in_status_range (lo, hi) (some code) = leb lo code && leb code hi

-- the poll at which the gate opens
pub data Opened : Type 0 where
  passed failed_open : ℕ → Opened

-- the polls from this one, on fuel
unfoldable pub poll_until_ready : ℕ → ℕ × ℕ → ℕ → (ℕ → Poll) → ℕ → Option Opened
poll_until_ready zero range deadline polls n = none
poll_until_ready (suc fuel) range deadline polls n =
    let rest = poll_until_ready fuel range deadline polls (suc n) in
    if in_status_range range (polls n).answer
    then some (passed n)
    else if ltb deadline (polls n).now
    then some (failed_open n)
    else rest

unfoldable pub readiness_gate : ℕ → ℕ × ℕ → ℕ → (ℕ → Poll) → Option Opened
readiness_gate fuel range start polls = poll_until_ready fuel range (start + gate_timeout) polls 0

abbrev pub IsJustified : ℕ × ℕ → ℕ → (ℕ → Poll) → Opened → Type 0
IsJustified range start polls (passed n) = in_status_range range (polls n).answer ≡ true
IsJustified range start polls (failed_open n) = start + gate_timeout < (polls n).now

poll_until_ready_total :
    (fuel : ℕ) (range : ℕ × ℕ) (start : ℕ) (polls : ℕ → Poll) (n : ℕ)
    → 121 < fuel + n
    → n < 122
    → ((i : ℕ) → start + poll_interval * i ≤ (polls i).now)
    → (o : Opened) × (poll_until_ready fuel range (start + gate_timeout) polls n ≡ some o)
      × IsJustified range start polls o
unfolding poll_until_ready
poll_until_ready_total zero range start polls n f b h = absurd (omega arith)
poll_until_ready_total (suc fuel) range start polls n f b h =
    elim (Bool-cases (in_status_range range (polls n).answer)) [
      | inl p ↦ (passed n, rw p refl, p)
      | inr p ↦ elim (Bool-cases (ltb (start + gate_timeout) (polls n).now)) [
        | inl q ↦ (failed_open n, rw (p, q) refl, ground arith)
        | inr q ↦
            let more =
              poll_until_ready_total fuel range start polls (suc n) (omega arith)
                (ground (arith, h n)) h in
            (more.0, rw (p, q) more.1, more.2)
      ]
    ]

-- The readiness gate opens after at most 122 polls, whatever the application answers, if poll i ends at
-- least 3 i seconds after the start: it opens at an answer with a status in the range, or at
-- a poll that ends more than six minutes after the start.
pub readiness_gate_total :
    (range : ℕ × ℕ) (start : ℕ) (polls : ℕ → Poll)
    → ((i : ℕ) → start + poll_interval * i ≤ (polls i).now)
    → (o : Opened) × (readiness_gate 122 range start polls ≡ some o)
      × IsJustified range start polls o
unfolding readiness_gate
readiness_gate_total range start polls h =
    poll_until_ready_total 122 range start polls 0 (omega arith) (omega arith) h
