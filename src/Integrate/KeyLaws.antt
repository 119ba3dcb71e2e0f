-- ===== src/Integrate/KeyLaws.antt =====
-- internal/integrate/integrate.go: the key that envLineKey reads off a line.
use mathlib.Core.List.{reverse, reverse-append, reverse-cons, reverse-reverse}
use agent_ops.Prelude.{
  ℕ, Str, lit, Option, none, some, [], ◌∷◌, ◌++◌, ◌≡◌, refl, ap, ◌∙◌, Bool, true, false, not, ◌&&◌,
  ◌||◌, is_nil, is_blank, is_space, trim_space, arith, ◌==◌, leb, append_assoc, Bool-cases, inl,
  inr,
}
use agent_ops.Prelude.Text.{has_prefix, trim_left, has_byte}
use agent_ops.Integrate.EnvFile.{
  is_letter, key_rest, valid_env_key, cut, checked_key, env_line_key, env_line,
}

trim_left-stop :
    (p : ℕ → Bool) (x y : Str) (c : ℕ)
    → p c ≡ false
    → trim_left p (x ++ c ∷ y) ≡ trim_left p x ++ c ∷ y
trim_left-stop p [] y c h = rw h refl
trim_left-stop p (d ∷ x) y c h = elim (Bool-cases (p d)) [
  | inl q ↦ rw q (trim_left-stop p x y c h)
  | inr q ↦ rw q refl
]

-- the last bytes of a text that end in no white space
trim_right : Str → Str
trim_right s = reverse (trim_left is_space (reverse s))

trim_right-stop :
    (x y : Str) (c : ℕ) → is_space c ≡ false → trim_right (x ++ c ∷ y) ≡ x ++ c ∷ trim_right y
unfolding trim_right
trim_right-stop x y c h =
    ap (λ t. reverse (trim_left is_space t)) reversed
    ∙ ap reverse (trim_left-stop is_space (reverse y) (reverse x) c h)
    ∙ reverse-append (trim_left is_space (reverse y)) (c ∷ reverse x)
    ∙ ap (λ t. t ++ reverse (trim_left is_space (reverse y)))
        (reverse-cons c (reverse x) ∙ ap (λ t. t ++ c ∷ []) (reverse-reverse x))
    ∙ append_assoc x (c ∷ []) (reverse (trim_left is_space (reverse y)))
  where
    reversed : reverse (x ++ c ∷ y) ≡ reverse y ++ c ∷ reverse x
    reversed =
        reverse-append x (c ∷ y)
        ∙ ap (λ t. t ++ reverse x) (reverse-cons c y)
        ∙ append_assoc (reverse y) (c ∷ []) (reverse x)

-- a byte of a key
abbrev is_key_byte : ℕ → Bool
is_key_byte c = is_letter c || (leb b'0' c && leb c b'9')

key_byte_lem :
    (c : ℕ)
    → is_key_byte c ≡ true
    → (is_space c ≡ false) × ((c == b'=') ≡ false) × ((c == b'\n') ≡ false) × ((c == b'#') ≡ false)
key_byte_lem c h = ground arith

letter_lem : (c : ℕ) → is_letter c ≡ true → is_key_byte c ≡ true
letter_lem c h = ground arith

trim_right-key : (k : Str) → key_rest k ≡ true → trim_right k ≡ k
trim_right-key [] h = unfold trim_right in refl
trim_right-key (c ∷ k) h =
    let (p, q) : (is_key_byte c ≡ true) × (key_rest k ≡ true) = ground arith in
    trim_right-stop [] k c (key_byte_lem c p).0 ∙ ap (λ t. c ∷ t) (trim_right-key k q)

cut-key : (k v : Str) → key_rest k ≡ true → cut b'=' (k ++ b'=' ∷ v) ≡ some k
unfolding cut
cut-key [] v h = refl
cut-key (c ∷ k) v h =
    let (p, q) : (is_key_byte c ≡ true) × (key_rest k ≡ true) = ground arith in
    rw ((key_byte_lem c p).1, cut-key k v q) refl

-- what validEnvKey says of a text that is not empty
valid_lem :
    (c : ℕ) (k : Str)
    → valid_env_key (c ∷ k) ≡ true
    → (is_key_byte c ≡ true) × (key_rest (c ∷ k) ≡ true)
unfolding valid_env_key
valid_lem c k h =
    let (p, q) : (is_letter c ≡ true) × (key_rest k ≡ true) = ground arith in
    (letter_lem c p, rw (letter_lem c p, q) refl)

trim_space-cons : (c : ℕ) (s : Str) → is_space c ≡ false → trim_space (c ∷ s) ≡ c ∷ trim_right s
unfolding trim_space trim_right
trim_space-cons c s h = rw h (unfold trim_right in trim_right-stop [] s c h)

trim_space-key : (k : Str) → valid_env_key k ≡ true → trim_space k ≡ k
trim_space-key [] h = unfold valid_env_key in cc h
trim_space-key (c ∷ k) h =
    let (p, q) = valid_lem c k h in
    let r : key_rest k ≡ true = ground arith in
    trim_space-cons c k (key_byte_lem c p).0 ∙ ap (λ t. c ∷ t) (trim_right-key k r)

-- a line that is written for a key is read back as that key
pub env_line_key-env_line : (k v : Str) → valid_env_key k ≡ true → env_line_key (env_line k v) ≡ k
unfolding env_line_key has_prefix
env_line_key-env_line [] v h = unfold valid_env_key in cc h
env_line_key-env_line (c ∷ k) v h =
    let (p, q) = valid_lem c k h in
    let (space, equals, newline, hash) = key_byte_lem c p in
    let r : key_rest k ≡ true = ground arith in
    let t : trim_space (env_line (c ∷ k) v) ≡ c ∷ k ++ b'=' ∷ trim_right v =
      trim_space-cons c (k ++ b'=' ∷ v) space ∙ ap (λ t. c ∷ t) (trim_right-stop k v b'=' refl) in
    rw (t, hash, cut-key (c ∷ k) (trim_right v) q, trim_space-key (c ∷ k) h, h) refl

checked_key-valid :
    (o : Option Str) → is_nil (checked_key o) ≡ false → valid_env_key (checked_key o) ≡ true
checked_key-valid none h = cc h
checked_key-valid (some p) h = elim (Bool-cases (is_nil p || not (valid_env_key (trim_space p)))) [
  | inl q ↦ cc (rw q at h)
  | inr q ↦ rw q (ground arith)
]

-- the key of a line is empty, or one that validEnvKey accepts
pub env_line_key-valid :
    (ln : Str) → is_nil (env_line_key ln) ≡ false → valid_env_key (env_line_key ln) ≡ true
unfolding env_line_key
env_line_key-valid ln h =
    elim (Bool-cases (is_nil (trim_space ln) || has_prefix (trim_space ln) (lit "#"))) [
      | inl q ↦ cc (rw q at h)
      | inr q ↦ rw q (checked_key-valid (cut b'=' (trim_space ln)) (rw q at h))
    ]

-- no blank line has a key
pub env_line_key-blank : (ln : Str) → is_blank ln ≡ true → env_line_key ln ≡ []
unfolding env_line_key
env_line_key-blank ln h = rw h refl

-- a key has no line break
key_rest-clean : (k : Str) → key_rest k ≡ true → has_byte b'\n' k ≡ false
key_rest-clean [] h = refl
key_rest-clean (c ∷ k) h =
    let (p, q) : (is_key_byte c ≡ true) × (key_rest k ≡ true) = ground arith in
    let (space, equals, newline, hash) = key_byte_lem c p in rw (newline, key_rest-clean k q) refl

pub valid_env_key-clean : (k : Str) → valid_env_key k ≡ true → has_byte b'\n' k ≡ false
valid_env_key-clean [] h = refl
valid_env_key-clean (c ∷ k) h = key_rest-clean (c ∷ k) (valid_lem c k h).1
