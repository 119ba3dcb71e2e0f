-- ===== src/Mcp/FactInspect.antt =====
-- internal/api/mcp/server.go: toolFactInspect, and the numbers that the prompt shows for it.
use agent_ops.Prelude.{
  ℕ, ◌-◌, Str, lit, [], ltb, is_nil, true, Bool-cases, inl, inr, none, some, Result, ok, err, List,
  ◌∷◌, ◌++◌, ◌≡◌, sym, ap, ◌∙◌, if◌then◌else◌, leb, length, length-append, get_elem?,
  get_elem?-append, append_assoc, arith,
}
use agent_ops.Prelude.Int.{ℤ, pos, negsuc}
use agent_ops.State.Data.{Fact, Mission, Store, StateError}
use agent_ops.State.Tx.{Faults, no_faults}
use agent_ops.State.Mission.{get_mission}
use agent_ops.Prelude.Text.{itoa, split, join}
use agent_ops.Task.Filter.{
  newline, kept_lines, count_hidden, hint, with_hint, filter_fact_for_prompt,
}
use agent_ops.Task.Prompt.{recent_facts, format_date, fact_line, fact_lines}
use agent_ops.Task.PromptLaws.{recent_facts-suffix, fact_lines-append}

-- the arguments, as json.Unmarshal leaves them: no object, no "index", one that is no integer, or one
pub data IndexArgs : Type 0 where
  bad_args missing not_an_integer : IndexArgs
  index : ℤ → IndexArgs

-- -32602 with its text, or the store's error as a tool error
pub data InspectError : Type 0 where
  invalid_args index_required not_natural : InspectError
  no_fact_at : ℕ → InspectError
  tool_error : StateError → InspectError

abbrev pub nth_last : List Fact → ℕ → Result InspectError Fact
nth_last facts i =
    if leb (length facts) i
    then err (no_fact_at i)
    else elim (get_elem? facts (length facts - 1 - i)) [ none ↦ err (no_fact_at i) | some f ↦ ok f ]

abbrev pub inspect_mission : Result StateError Mission → ℕ → Result InspectError Fact
inspect_mission (err e) i = err (tool_error e)
inspect_mission (ok m) i = nth_last m.facts i

-- the fact whose fields the answer spells
unfoldable pub fact_inspect : Faults → IndexArgs → Store → Result InspectError Fact
fact_inspect f bad_args s = err invalid_args
fact_inspect f missing s = err index_required
fact_inspect f not_an_integer s = err not_natural
fact_inspect f (index (negsuc i)) s = err not_natural
fact_inspect f (index (pos i)) s = inspect_mission (get_mission f s) i

nth_last-append :
    (pre post : List Fact) (f : Fact) → nth_last (pre ++ f ∷ post) (length post) ≡ ok f
nth_last-append pre post f = ground (
  arith,
  length-append pre (f ∷ post),
  get_elem?-append pre post f (length (pre ++ f ∷ post) - 1 - length post),
)

-- the end of the line of a fact that is not shown whole
abbrev pub called : ℕ → Str
called n = lit " call `fact_inspect(" ++ itoa n ++ lit ")` to see full)\n"

with_hint-called :
    (out : Str) (hidden n : ℕ)
    → (x : Str) × (with_hint out (hint hidden n) ++ lit "\n" ≡ x ++ called n)
unfolding hint
with_hint-called out hidden n =
    let top =
      lit "("
      ++ itoa hidden
      ++ lit " lines filtered as npm-warn noise "
      ++ 0xe2 ∷ 0x80 ∷ 0x94 ∷ [] in
    elim (Bool-cases (is_nil out)) [
      | inl e ↦ (top, rw e (simp append_assoc))
      | inr e ↦ (out ++ lit "\n" ++ top, rw e (simp append_assoc))
    ]

filtered-called :
    (text : Str) (n : ℕ)
    → ltb 0 (count_hidden (split newline text)) ≡ true
    → (x : Str) × ((filter_fact_for_prompt text n).0 ++ lit "\n" ≡ x ++ called n)
unfolding filter_fact_for_prompt
filtered-called text n h =
    let out = join newline (kept_lines (split newline text)) in
    let (x, e) = with_hint-called out (count_hidden (split newline text)) n in (x, rw h e)

fact_line-called :
    (f : Fact) (n : ℕ)
    → ltb 0 (count_hidden (split newline f.fact)) ≡ true
    → (x : Str) × (fact_line f n ≡ x ++ called n)
unfolding fact_line
fact_line-called f n h =
    let (x, e) = filtered-called f.fact n h in
    let top = lit "- [" ++ format_date f.ts ++ lit "] (" ++ f.source ++ lit ") " in
    (
      top ++ x,
      append_assoc top (filter_fact_for_prompt f.fact n).0 (lit "\n")
          ∙ ap (λ z. top ++ z) e
          ∙ sym (append_assoc top x (called n)),
    )

-- A fact of the prompt of which a line is hidden stands there with a call of fact_inspect as the end of
-- its text, then come the facts after it; and the number in this call, written in decimals, makes
-- fact_inspect return this fact, whole, also where older facts are not shown.
pub fact_inspect-prompt :
    (s : Store) (pre post : List Fact) (f : Fact)
    → recent_facts s.mission.facts ≡ pre ++ f ∷ post
    → ltb 0 (count_hidden (split newline f.fact)) ≡ true
    → (n : ℕ) × ((before : Str) × (fact_lines (recent_facts s.mission.facts)
          ≡ before ++ (called n ++ fact_lines post)))
      × (fact_inspect no_faults (index (pos n)) s ≡ ok f)
unfolding fact_inspect get_mission
fact_inspect-prompt s pre post f h hidden =
    let (old, q) = recent_facts-suffix s.mission.facts in
    let (before, e) = fact_lines-append pre post f in
    let (x, l) = fact_line-called f (length post) hidden in
    (
      length post,
      (before ++ x, rw (h, e, l) (simp append_assoc)),
      rw (← q, h, ← append_assoc) (nth_last-append (old ++ pre) post f),
    )
