-- ===== src/Prelude/Text.antt =====
-- Go strings as lists of bytes, and what the program uses of the `strings`, `strconv` and `fmt`
-- packages. Letters and white space are those of ASCII: a byte of 0x80 or more is neither.
use Prim.Native.Nat.{ℕ, zero, suc, ◌+◌, ◌/◌, ◌%◌}
use Prim.Native.Char.{code}
use Prim.Native.String.{String}
use mathlib.Core.Path.{◌≡◌, refl, sym, ap, ◌∙◌}
use mathlib.Core.Logic.{◌↔◌, inl, inr}
use mathlib.Core.Bool.{Bool, true, false, ◌&&◌, ◌||◌}
use mathlib.Core.List.{List, [], ◌∷◌, ◌++◌, reverse, append_assoc}
use native.Mathlib.Omega.{arith}
use agent_ops.Prelude.Tests.{ltb, leb, ◌==◌, ==_iff, Bool-cases, if◌then◌else◌}
use agent_ops.Prelude.Lists.{is_nil, All}

abbrev pub Str : Type 0
Str = List ℕ

-- the bytes of an ASCII literal
abbrev pub lit : String → Str
lit String.[] = []
lit (String.◌∷◌ c s) = code c ∷ lit s

unfoldable pub str_eq : Str → Str → Bool
str_eq [] [] = true
str_eq [] (y ∷ ys) = false
str_eq (x ∷ xs) [] = false
str_eq (x ∷ xs) (y ∷ ys) = (x == y) && str_eq xs ys

pub str_eq_iff : (a b : Str) → (str_eq a b ≡ true) ↔ (a ≡ b)
unfolding str_eq
str_eq_iff [] [] = ground arith
str_eq_iff [] (y ∷ ys) = ground arith
str_eq_iff (x ∷ xs) [] = ground arith
str_eq_iff (x ∷ xs) (y ∷ ys) = ground (arith, str_eq_iff xs ys)

pub str_eq_refl : (a : Str) → str_eq a a ≡ true
str_eq_refl a = (str_eq_iff a a).1 refl

-- `a <= b` on strings: bytewise, a prefix first
unfoldable pub str_le : Str → Str → Bool
str_le [] ys = true
str_le (x ∷ xs) [] = false
str_le (x ∷ xs) (y ∷ ys) = ltb x y || ((x == y) && str_le xs ys)

pub str_le_total : (a b : Str) → str_le a b ≡ false → str_le b a ≡ true
unfolding str_le
str_le_total [] b h = cc
str_le_total (x ∷ xs) [] h = refl
str_le_total (x ∷ xs) (y ∷ ys) h = ground (arith, str_le_total xs ys)

pub str_le_trans : (a b c : Str) → str_le a b ≡ true → str_le b c ≡ true → str_le a c ≡ true
unfolding str_le
str_le_trans [] b c h q = refl
str_le_trans (x ∷ xs) [] c h q = cc
str_le_trans (x ∷ xs) (y ∷ ys) [] h q = cc
str_le_trans (x ∷ xs) (y ∷ ys) (z ∷ zs) h q = ground (arith, str_le_trans xs ys zs)

abbrev pub is_space : ℕ → Bool
is_space c = (c == 32) || (leb 9 c && leb c 13)

-- `strings.TrimLeft`, for the bytes that `p` accepts
abbrev pub trim_left : (ℕ → Bool) → Str → Str
trim_left p [] = []
trim_left p (c ∷ s) = let rest = trim_left p s in if p c then rest else c ∷ s

unfoldable pub trim_space : Str → Str
trim_space s = reverse (trim_left is_space (reverse (trim_left is_space s)))

-- `strings.TrimSpace(s) == ""`
abbrev pub is_blank : Str → Bool
is_blank s = is_nil (trim_space s)

abbrev pub lower : ℕ → ℕ
lower c = if leb b'A' c && leb c b'Z' then c + 32 else c

abbrev pub to_lower : Str → Str
to_lower [] = []
to_lower (c ∷ s) = lower c ∷ to_lower s

unfoldable pub has_prefix : Str → Str → Bool
has_prefix s [] = true
has_prefix [] (p ∷ ps) = false
has_prefix (c ∷ s) (p ∷ ps) = (c == p) && has_prefix s ps

pub has_prefix-append : (p s : Str) → has_prefix (p ++ s) p ≡ true
unfolding has_prefix
has_prefix-append [] s = has_prefix-nil s
  where
    has_prefix-nil : (s : Str) → has_prefix s [] ≡ true
    has_prefix-nil [] = refl
    has_prefix-nil (c ∷ s) = refl
has_prefix-append (c ∷ p) s = ground (arith, has_prefix-append p s)

unfoldable pub contains : Str → Str → Bool
unfolding has_prefix
contains [] needle = is_nil needle
contains (c ∷ s) needle = has_prefix (c ∷ s) needle || contains s needle

push : ℕ → List Str → List Str
push c [] = (c ∷ []) ∷ []
push c (p ∷ ps) = (c ∷ p) ∷ ps

-- `strings.Split(s, sep)` for a separator of one byte: always at least one part
unfoldable pub split : ℕ → Str → List Str
unfolding push
split sep [] = [] ∷ []
split sep (c ∷ s) = if c == sep then [] ∷ split sep s else push c (split sep s)

-- `strings.Join(parts, sep)`
unfoldable pub join : ℕ → List Str → Str
join sep [] = []
join sep (p ∷ []) = p
join sep (p ∷ q ∷ ps) = p ++ sep ∷ join sep (q ∷ ps)

join-push : (sep c : ℕ) (ps : List Str) → join sep (push c ps) ≡ c ∷ join sep ps
unfolding join push
join-push sep c [] = refl
join-push sep c (p ∷ []) = refl
join-push sep c (p ∷ q ∷ ps) = refl

split-IsCons : (sep : ℕ) (s : Str) → (p : Str) × (ps : List Str) × (split sep s ≡ p ∷ ps)
unfolding split
split-IsCons sep [] = ([], [], refl)
split-IsCons sep (c ∷ s) = elim (Bool-cases (c == sep)) [
  | inl e ↦ ([], split sep s, rw e)
  | inr e ↦ let (p, ps, q) = split-IsCons sep s in (c ∷ p, ps, rw (e, q))
]

join-nil_cons :
    (sep : ℕ) (ps : List Str) → is_nil ps ≡ false → join sep ([] ∷ ps) ≡ sep ∷ join sep ps
unfolding join
join-nil_cons sep [] h = cc
join-nil_cons sep (p ∷ ps) h = refl

-- Joining the parts of a split by the same separator gives the text back.
pub join-split : (sep : ℕ) (s : Str) → join sep (split sep s) ≡ s
unfolding split
join-split sep [] = unfold join in refl
join-split sep (c ∷ s) = elim (Bool-cases (c == sep)) [
  | inl e ↦
      let (p, ps, q) = split-IsCons sep s in
      rw e (
        join-nil_cons sep (split sep s) (rw q)
        ∙ ap (λ t. sep ∷ t) (join-split sep s)
        ∙ ap (λ d. d ∷ s) (sym ((==_iff c sep).0 e)))
  | inr e ↦ rw e (join-push sep c (split sep s) ∙ ap (λ t. c ∷ t) (join-split sep s))
]

-- no part of a split has the separator
abbrev pub has_byte : ℕ → Str → Bool
has_byte sep [] = false
has_byte sep (c ∷ s) = (c == sep) || has_byte sep s

pub split-stop :
    (sep : ℕ) (s t : Str) → has_byte sep s ≡ false → split sep (s ++ sep ∷ t) ≡ s ∷ split sep t
unfolding split
split-stop sep [] t h = let e : (sep == sep) ≡ true = ground arith in rw e
split-stop sep (c ∷ s) t h =
    let (p, q) : ((c == sep) ≡ false) × (has_byte sep s ≡ false) = ground arith in
    rw (p, split-stop sep s t q) (unfold push in refl)

split-whole : (sep : ℕ) (s : Str) → has_byte sep s ≡ false → split sep s ≡ s ∷ []
unfolding split
split-whole sep [] h = refl
split-whole sep (c ∷ s) h =
    let (p, q) : ((c == sep) ≡ false) × (has_byte sep s ≡ false) = ground arith in
    rw (p, split-whole sep s q) (unfold push in refl)

-- the parts of two texts with a separator between them
pub split-append : (sep : ℕ) (s t : Str) → split sep (s ++ sep ∷ t) ≡ split sep s ++ split sep t
unfolding split
split-append sep [] t = let e : (sep == sep) ≡ true = ground arith in rw e refl
split-append sep (c ∷ s) t = elim (Bool-cases (c == sep)) [
  | inl e ↦ rw e (ap (λ l. [] ∷ l) (split-append sep s t))
  | inr e ↦
      let (p, ps, q) = split-IsCons sep s in rw (e, split-append sep s t, q) (unfold push in refl)
]

pub split-join_parts :
    (sep : ℕ) (ps : List Str)
    → is_nil ps ≡ false
    → All (λ p. has_byte sep p ≡ false) ps
    → split sep (join sep ps) ≡ ps
unfolding join
split-join_parts sep [] n h = cc n
split-join_parts sep (p ∷ []) n (h, _) = split-whole sep p h
split-join_parts sep (p ∷ q ∷ ps) n (h, hs) =
    split-stop sep p (join sep (q ∷ ps)) h ∙ ap (λ l. p ∷ l) (split-join_parts sep (q ∷ ps) refl hs)

All-push :
    (sep c : ℕ) (ps : List Str)
    → (c == sep) ≡ false
    → All (λ p. has_byte sep p ≡ false) ps
    → All (λ p. has_byte sep p ≡ false) (push c ps)
unfolding push
All-push sep c [] h _ = (rw h refl, tt)
All-push sep c (p ∷ ps) h (q, qs) = (rw (h, q) refl, qs)

pub split-clean : (sep : ℕ) (s : Str) → All (λ p. has_byte sep p ≡ false) (split sep s)
unfolding split
split-clean sep [] = (refl, tt)
split-clean sep (c ∷ s) = elim (Bool-cases (c == sep)) [
  | inl e ↦ rw e (refl, split-clean sep s)
  | inr e ↦ rw e (All-push sep c (split sep s) e (split-clean sep s))
]

-- Splitting what was joined, with a separator at its end, gives the parts back.
pub split-join :
    (sep : ℕ) (ps : List Str)
    → is_nil ps ≡ false
    → All (λ p. has_byte sep p ≡ false) ps
    → split sep (join sep ps ++ sep ∷ []) ≡ ps ++ [] ∷ []
unfolding join
split-join sep [] n h = cc n
split-join sep (p ∷ []) n (h, _) = split-stop sep p [] h ∙ unfold split in refl
split-join sep (p ∷ q ∷ ps) n (h, hs) =
    ap (split sep) (append_assoc p (sep ∷ join sep (q ∷ ps)) (sep ∷ []))
    ∙ split-stop sep p (join sep (q ∷ ps) ++ sep ∷ []) h
    ∙ ap (λ l. p ∷ l) (split-join sep (q ∷ ps) refl hs)

decimal : ℕ → ℕ → Str → Str
decimal zero n out = out
decimal (suc fuel) n out =
    let rest = decimal fuel (n / 10) ((b'0' + n % 10) ∷ out) in
    if ltb n 10 then (b'0' + n) ∷ out else rest

-- `%d` of a number that is not negative; n + 1 rounds are more than its digits
unfoldable pub itoa : ℕ → Str
unfolding decimal
itoa n = decimal (suc n) n []
