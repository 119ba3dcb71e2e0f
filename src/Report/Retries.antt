-- ===== src/Report/Retries.antt =====
-- The bounds on what Report sends and how long it waits.
use Prim.Native.Nat.{◌^◌}
use agent_ops.Prelude.{
  ℕ, zero, suc, ◌+◌, ◌*◌, ◌≤◌, List, [], ◌∷◌, ◌≡◌, refl, Bool, true, false, ◌||◌, if◌then◌else◌,
  any, length, arith, Bool-cases, inl, inr,
}
use agent_ops.Report.Reporter.{
  Reply, is_success, base_backoff, Trace, gave_up, waits_before, is_cut, after_post, attempts,
}

abbrev pub total : List ℕ → ℕ
total [] = 0
total (n ∷ ns) = n + total ns

length-after_post :
    (k : ℕ) (b : Bool) (rest : Trace) (left : ℕ)
    → length rest.posts ≤ left
    → length (after_post k b rest).posts ≤ suc left
length-after_post k true rest left h = omega arith
length-after_post k false rest left h = omega arith

length-attempts :
    (replies : ℕ → Reply) (ended : ℕ → Bool) (k left : ℕ)
    → length (attempts replies ended k left).posts ≤ left
unfolding attempts
length-attempts replies ended k zero = omega arith
length-attempts replies ended k (suc left) = elim (Bool-cases (is_cut ended k)) [
  | inl p ↦ rw p (omega arith)
  | inr p ↦ rw p (
      length-after_post k (is_success (replies k)) (attempts replies ended (suc k) left) left
        (length-attempts replies ended (suc k) left))
]

after_post_delivered :
    (good : ℕ → Bool) (k : ℕ) (b : Bool) (rest : Trace)
    → good k ≡ b
    → rest.delivered ≡ any good rest.posts
    → (after_post k b rest).delivered ≡ any good (after_post k b rest).posts
after_post_delivered good k true rest q h = rw q
after_post_delivered good k false rest q h = rw q h

attempts_delivered :
    (replies : ℕ → Reply) (ended : ℕ → Bool) (k left : ℕ)
    → (attempts replies ended k left).delivered
      ≡ any (λ n. is_success (replies n)) (attempts replies ended k left).posts
unfolding attempts
attempts_delivered replies ended k zero = refl
attempts_delivered replies ended k (suc left) = elim (Bool-cases (is_cut ended k)) [
  | inl p ↦ rw p
  | inr p ↦ rw p (
      after_post_delivered (λ n. is_success (replies n)) k (is_success (replies k))
        (attempts replies ended (suc k) left) refl (attempts_delivered replies ended (suc k) left))
]

-- the three attempts of one report, by what decides them
abbrev three : (ℕ → Bool) → (ℕ → Bool) → Trace
three good ended = after_post 0 (good 0) (
    if ended 1
    then gave_up
    else after_post 1 (good 1) (if ended 2 then gave_up else after_post 2 (good 2) gave_up))

add_le : (a x n : ℕ) → x ≤ n → a + x ≤ a + 0 + n
add_le a x n h = omega arith

le_add : (a n : ℕ) → a + 0 ≤ a + 0 + n
le_add a n = omega arith

after_post_waits :
    (k : ℕ) (b : Bool) (rest : Trace) (n : ℕ)
    → total rest.waits ≤ n
    → total (after_post k b rest).waits ≤ total (waits_before k) + n
after_post_waits zero true rest n h = omega arith
after_post_waits zero false rest n h = omega (arith, h)
after_post_waits (suc k) true rest n h = le_add (base_backoff * 2 ^ k) n
after_post_waits (suc k) false rest n h = add_le (base_backoff * 2 ^ k) (total rest.waits) n h

if_waits :
    (b : Bool) (rest : Trace) (n : ℕ)
    → total rest.waits ≤ n
    → total (if b then gave_up else rest).waits ≤ n
if_waits true rest n h = omega arith
if_waits false rest n h = h

three_waits : (good ended : ℕ → Bool) → total (three good ended).waits ≤ 3 * base_backoff
three_waits good ended = after_post_waits 0 (good 0) _ (3 * base_backoff) (
    if_waits (ended 1) _ (3 * base_backoff) (
      after_post_waits 1 (good 1) _ (2 * base_backoff) (
        if_waits (ended 2) _ (2 * base_backoff)
          (after_post_waits 2 (good 2) gave_up 0 (omega arith)))))

three_delivered :
    (good ended : ℕ → Bool)
    → ended 1 || ended 2 ≡ false
    → (three good ended).delivered ≡ (good 0 || good 1 || good 2)
three_delivered good ended h = ground arith

-- The loop of Report, whatever the server replies and whenever the context ends: at most three
-- attempts, at most a second and a half of waits that elapse, and the report is delivered exactly if one
-- of the attempts that were made was a success; if the context does not end while it waits, that is
-- exactly if the server would accept one of the three.
attempts_bounded :
    (replies : ℕ → Reply) (ended : ℕ → Bool)
    → (length (attempts replies ended 0 3).posts ≤ 3)
      × (total (attempts replies ended 0 3).waits ≤ 3 * base_backoff)
      × ((attempts replies ended 0 3).delivered
          ≡ any (λ n. is_success (replies n)) (attempts replies ended 0 3).posts)
      × (ended 1 || ended 2 ≡ false
          → (attempts replies ended 0 3).delivered
            ≡ (is_success (replies 0) || is_success (replies 1) || is_success (replies 2)))
unfolding attempts
attempts_bounded replies ended = (
  length-attempts replies ended 0 3,
  three_waits (λ n. is_success (replies n)) ended,
  attempts_delivered replies ended 0 3,
  three_delivered (λ n. is_success (replies n)) ended,
)
