-- ===== src/Front/Numbers.antt =====
-- internal/api/mcp/server.go: parseStatusRange and parsePathSet, with strconv.Atoi and strings.Cut.
use agent_ops.Prelude.{
  ℕ, Str, trim_space, Option, none, some, List, [], ◌∷◌, ◌≤◌, ◌<◌, ◌+◌, ◌-◌, ◌*◌, ◌==◌, Bool, true,
  false, ◌&&◌, leb, ltb, is_nil, if◌then◌else◌, arith, Bool-cases, inl, inr,
}
use agent_ops.Prelude.Int.{ℤ, pos, negsuc}
use agent_ops.Prelude.Text.{split}

abbrev pub is_digit : ℕ → Bool
is_digit c = leb b'0' c && leb c b'9'

-- the number that the digits spell, behind one that was read before
unfoldable pub digits : ℕ → Str → Option ℕ
digits n [] = some n
digits n (c ∷ s) = let rest = digits (n * 10 + (c - b'0')) s in if is_digit c then rest else none

-- at least one digit, and no other byte
unfoldable pub number : Str → Option ℕ
unfolding digits
number [] = none
number (c ∷ s) = digits 0 (c ∷ s)

-- 2^63 - 1
abbrev pub max_int : ℕ
max_int = 9223372036854775807

abbrev pub positive : Option ℕ → Option ℤ
positive none = none
positive (some n) = if leb n max_int then some (pos n) else none

abbrev pub negative : Option ℕ → Option ℤ
negative none = none
negative (some n) =
    if n == 0 then some (pos 0) else if leb n (max_int + 1) then some (negsuc (n - 1)) else none

-- strconv.Atoi, `none` for an error
unfoldable pub atoi : Str → Option ℤ
unfolding number
atoi [] = none
atoi (c ∷ s) =
    if c == b'+'
    then positive (number s)
    else if c == b'-'
    then negative (number s)
    else positive (number (c ∷ s))

abbrev pub before : ℕ → Str × Str → Str × Str
before c (a, b) = (c ∷ a, b)

-- strings.Cut at a byte: without it, all is before
unfoldable pub cut_at : ℕ → Str → Str × Str
cut_at sep [] = ([], [])
cut_at sep (c ∷ s) = if c == sep then ([], s) else before c (cut_at sep s)

abbrev pub has : ℕ → Str → Bool
has b [] = false
has b (c ∷ s) = if c == b then true else has b s

-- `i > 0` of strings.IndexByte
abbrev pub has_behind_first : ℕ → Str → Bool
has_behind_first b [] = false
has_behind_first b (c ∷ s) = if c == b then false else has b s

abbrev pub default_range : ℕ × ℕ
default_range = (200, 399)

abbrev pub as_range : Option ℤ → Option ℤ → ℕ × ℕ
as_range (some (pos lo)) (some (pos hi)) = if ltb 0 lo && leb lo hi then (lo, hi) else default_range
as_range (some (pos lo)) (some (negsuc hi)) = default_range
as_range (some (pos lo)) none = default_range
as_range (some (negsuc lo)) hi = default_range
as_range none hi = default_range

abbrev pub as_status : Option ℤ → ℕ × ℕ
as_status (some (pos n)) = if ltb 0 n then (n, n) else default_range
as_status (some (negsuc n)) = default_range
as_status none = default_range

unfoldable pub parse_status_range : Str → ℕ × ℕ
parse_status_range raw =
    let s = trim_space raw in
    if is_nil s
    then default_range
    else if has_behind_first b'-' s
    then as_range (atoi (trim_space (cut_at b'-' s).0)) (atoi (trim_space (cut_at b'-' s).1))
    else as_status (atoi s)

abbrev pub paths : List Str → List Str
paths [] = []
paths (p ∷ ps) = let rest = paths ps in if is_nil (trim_space p) then rest else trim_space p ∷ rest

unfoldable pub parse_path_set : Str → List Str
parse_path_set csv = if is_nil (trim_space csv) then [] else paths (split b',' (trim_space csv))

abbrev pub IsRange : ℕ × ℕ → Type 0
IsRange (lo, hi) = (0 < lo) × (lo ≤ hi)

as_range-IsRange : (a b : Option ℤ) → IsRange (as_range a b)
as_range-IsRange (some (pos lo)) (some (pos hi)) = ground arith
as_range-IsRange (some (pos lo)) (some (negsuc hi)) = omega arith
as_range-IsRange (some (pos lo)) none = omega arith
as_range-IsRange (some (negsuc lo)) hi = omega arith
as_range-IsRange none hi = omega arith

as_status-IsRange : (a : Option ℤ) → IsRange (as_status a)
as_status-IsRange (some (pos n)) = ground arith
as_status-IsRange (some (negsuc n)) = omega arith
as_status-IsRange none = omega arith

-- any text gives a range that is not empty
pub parse_status_range-IsRange : (raw : Str) → IsRange (parse_status_range raw)
unfolding parse_status_range
parse_status_range-IsRange raw = elim (Bool-cases (is_nil (trim_space raw))) [
  | inl e ↦ rw e (omega arith)
  | inr e ↦ elim (Bool-cases (has_behind_first b'-' (trim_space raw))) [
    | inl d ↦
        rw (e, d)
          (as_range-IsRange (atoi (trim_space (cut_at b'-' (trim_space raw)).0))
            (atoi (trim_space (cut_at b'-' (trim_space raw)).1)))
    | inr d ↦ rw (e, d) (as_status-IsRange (atoi (trim_space raw)))
  ]
]
