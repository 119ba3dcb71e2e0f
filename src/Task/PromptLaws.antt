-- ===== src/Task/PromptLaws.antt =====
-- What the system prompt holds of the mission.
use agent_ops.Prelude.{
  ℕ, zero, suc, ◌-◌, Str, lit, List, [], ◌∷◌, ◌++◌, ◌≡◌, refl, ◌&&◌, is_nil, ltb, length,
  length-append, take, drop, take-append-drop, append_assoc, arith, Bool-cases, inl, inr,
}
use agent_ops.State.Data.{Fact, Mission}
use agent_ops.Task.Prompt.{
  prompt_facts, recent_facts, fact_line, fact_lines, mission_part, facts_part,
  compose_system_prompt,
}

-- the facts of the prompt are the last of the list
pub recent_facts-suffix :
    (facts : List Fact) → (old : List Fact) × (old ++ recent_facts facts ≡ facts)
unfolding recent_facts
recent_facts-suffix facts = elim (Bool-cases (ltb prompt_facts (length facts))) [
  | inl p ↦ (
    take (length facts - prompt_facts) facts,
    rw p (take-append-drop (length facts - prompt_facts) facts),
  )
  | inr p ↦ ([], rw p)
]

drop-append : (old recent : List Fact) (n : ℕ) → n ≡ length old → drop n (old ++ recent) ≡ recent
drop-append [] recent zero h = refl
drop-append [] recent (suc n) h = absurd (omega arith)
drop-append (f ∷ old) recent zero h = absurd (omega arith)
drop-append (f ∷ old) recent (suc n) h = drop-append old recent n (omega arith)

recent_facts-append :
    (old recent : List Fact) → length recent ≡ prompt_facts → recent_facts (old ++ recent) ≡ recent
unfolding recent_facts
recent_facts-append [] recent h = ground arith
recent_facts-append (f ∷ old) recent h = ground (
  arith,
  length-append (f ∷ old) recent,
  drop-append (f ∷ old) recent (length ((f ∷ old) ++ recent) - prompt_facts),
)

abbrev pub with_facts : Str → List Fact → ℕ → Mission
with_facts statement facts at = record { statement = statement; facts = facts; updated_at = at }

recent_facts-full :
    (recent : List Fact) → length recent ≡ prompt_facts → recent_facts recent ≡ recent
unfolding recent_facts
recent_facts-full recent h = ground arith

facts_part-append :
    (old recent : List Fact)
    → length recent ≡ prompt_facts
    → (facts_part (old ++ recent) ≡ facts_part recent) × (is_nil (old ++ recent) ≡ is_nil recent)
facts_part-append old [] h = absurd (omega arith)
facts_part-append [] (f ∷ recent) h = (refl, refl)
facts_part-append (g ∷ old) (f ∷ recent) h =
    (rw (recent_facts-append (g ∷ old) (f ∷ recent) h, recent_facts-full (f ∷ recent) h), refl)

-- The prompt depends on the last forty facts only, however many came before them.
compose_system_prompt-recent :
    (base statement : Str) (old recent : List Fact) (at : ℕ)
    → length recent ≡ prompt_facts
    → compose_system_prompt base (with_facts statement (old ++ recent) at)
      ≡ compose_system_prompt base (with_facts statement recent at)
unfolding compose_system_prompt
compose_system_prompt-recent base statement old recent at h =
    let (p, q) = facts_part-append old recent h in rw (p, q)

-- Whatever the mission says, the base guidance is the end of the prompt.
compose_system_prompt-base :
    (base : Str) (m : Mission) → (before : Str) × (compose_system_prompt base m ≡ before ++ base)
unfolding compose_system_prompt
compose_system_prompt-base base m = elim (Bool-cases (is_nil m.statement && is_nil m.facts)) [
  | inl p ↦ ([], rw p)
  | inr p ↦ (
    lit "You are agent-ops stewarding one specific instance.\n\n"
        ++ mission_part m.statement
        ++ facts_part m.facts
        ++ lit "== BASE GUIDANCE ==\n",
    rw (p, append_assoc),
  )
]

-- the line of a fact with the number of facts after it
pub fact_lines-append :
    (pre post : List Fact) (f : Fact)
    → (before : Str) × (fact_lines (pre ++ f ∷ post)
        ≡ before ++ (fact_line f (length post) ++ fact_lines post))
unfolding fact_lines
fact_lines-append [] post f = ([], refl)
fact_lines-append (g ∷ pre) post f =
    let (before, q) = fact_lines-append pre post f in
    (fact_line g (length (pre ++ f ∷ post)) ++ before, rw (q, append_assoc))
