-- ===== src/Task/FilterLaws.antt =====
-- What the filter of facts hides, and what it never touches.
use agent_ops.Prelude.{ℕ, ◌+◌, Str, List, [], ◌∷◌, ◌≡◌, refl, Bool, keep, length, arith}
use agent_ops.Prelude.Text.{split, join-split}
use agent_ops.Task.Filter.{
  newline, lowered, is_keep, is_noise, kept_lines, count_hidden, filter_fact_for_prompt,
}

-- every line is kept or counted
length-kept_lines :
    (lines : List Str) → length (kept_lines lines) + count_hidden lines ≡ length lines
unfolding kept_lines count_hidden
length-kept_lines [] = omega arith
length-kept_lines (ln ∷ lines) = ground (arith, length-kept_lines lines)

kept_lines_all : (lines : List Str) → count_hidden lines ≡ 0 → kept_lines lines ≡ lines
unfolding kept_lines count_hidden
kept_lines_all [] h = refl
kept_lines_all (ln ∷ lines) h = ground (arith, kept_lines_all lines)

abbrev pub has_error : Str → Bool
has_error ln = is_keep (lowered ln)

-- the lines with a word of the keep list are all kept, in their order
errors-kept_lines : (lines : List Str) → keep has_error (kept_lines lines) ≡ keep has_error lines
unfolding kept_lines is_noise
errors-kept_lines [] = refl
errors-kept_lines (ln ∷ lines) = ground (arith, errors-kept_lines lines)

-- Of the lines of a fact, each is kept or counted as hidden; those that mention an error are all kept,
-- in order; and a fact of which nothing is hidden is shown as it is.
filter_fact_lem :
    (s : Str) (index : ℕ)
    → (length (kept_lines (split newline s)) + (filter_fact_for_prompt s index).1
        ≡ length (split newline s))
      × (keep has_error (kept_lines (split newline s)) ≡ keep has_error (split newline s))
      × ((filter_fact_for_prompt s index).1 ≡ 0 → (filter_fact_for_prompt s index).0 ≡ s)
unfolding filter_fact_for_prompt
filter_fact_lem s index = (
  length-kept_lines (split newline s),
  errors-kept_lines (split newline s),
  λ h. rw (h, kept_lines_all (split newline s) h) (join-split newline s),
)
