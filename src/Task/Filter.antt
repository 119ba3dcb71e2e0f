-- ===== src/Task/Filter.antt =====
-- internal/task/runner.go: filterFactForPrompt and truncate.
use agent_ops.Prelude.{
  ℕ, ◌+◌, Str, lit, List, [], ◌∷◌, ◌++◌, Bool, ◌&&◌, ◌||◌, not, if◌then◌else◌, is_nil, ltb, leb,
  ◌==◌, any, keep, length, take,
}
use agent_ops.Prelude.Text.{to_lower, trim_left, has_prefix, contains, split, join, itoa}

abbrev pub newline : ℕ
newline = 10

-- `s[:n] + "…"`, where it is longer than n bytes
unfoldable pub truncate : Str → ℕ → Str
truncate s n = if leb (length s) n then s else take n s ++ 0xe2 ∷ 0x80 ∷ 0xa6 ∷ []

abbrev pub keep_needles : List Str
keep_needles =
    lit "error"
    ∷ lit "failed"
    ∷ lit "fatal"
    ∷ lit "eresolve"
    ∷ lit "enoent"
    ∷ lit "eaccess"
    ∷ lit "etimedout"
    ∷ lit "exit code"
    ∷ lit "exit_code"
    ∷ lit "exit status"
    ∷ []

abbrev pub drop_prefixes : List Str
drop_prefixes = lit "npm warn deprecated" ∷ lit "npm warn " ∷ lit "npm WARN" ∷ []

abbrev pub is_indent : ℕ → Bool
is_indent c = (c == 32) || (c == 9)

unfoldable pub lowered : Str → Str
lowered ln = to_lower (trim_left is_indent ln)

unfoldable pub is_keep : Str → Bool
is_keep lower = any (λ k. contains lower k) keep_needles

unfoldable pub is_drop : Str → Bool
is_drop lower = any (λ p. has_prefix lower (to_lower p)) drop_prefixes

-- a line that the loop counts as hidden; every other line is kept
unfoldable pub is_noise : Str → Bool
is_noise ln = not (is_keep (lowered ln)) && is_drop (lowered ln)

unfoldable pub kept_lines : List Str → List Str
kept_lines lines = keep (λ ln. not (is_noise ln)) lines

unfoldable pub count_hidden : List Str → ℕ
count_hidden [] = 0
count_hidden (ln ∷ lines) = (if is_noise ln then 1 else 0) + count_hidden lines

-- the em dash is three bytes
unfoldable pub hint : ℕ → ℕ → Str
hint hidden index =
    lit "("
    ++ itoa hidden
    ++ lit " lines filtered as npm-warn noise "
    ++ (0xe2 ∷ 0x80 ∷ 0x94 ∷ [])
    ++ lit " call `fact_inspect("
    ++ itoa index
    ++ lit ")` to see full)"

abbrev pub with_hint : Str → Str → Str
with_hint out h = if is_nil out then h else out ++ lit "\n" ++ h

-- the filtered text and the number of hidden lines
unfoldable pub filter_fact_for_prompt : Str → ℕ → Str × ℕ
filter_fact_for_prompt s index =
    let lines = split newline s in
    let out = join newline (kept_lines lines) in
    let hidden = count_hidden lines in
    (if ltb 0 hidden then with_hint out (hint hidden index) else out, hidden)
