-- ===== src/Integrate/FileLaws.antt =====
-- internal/integrate/integrate.go: what mergeEnvFile does to the text of the file.
use agent_ops.Prelude.{
  ℕ, Str, lit, str_eq, Option, none, some, List, [], ◌∷◌, ◌++◌, ◌≡◌, refl, ◌∙◌, true, false, ◌&&◌,
  ◌||◌, is_nil, is_blank, trim_space, arith, All, All-append, Bool-cases, inl, inr, append-nil,
}
use agent_ops.Prelude.Text.{split, join, has_byte, split-clean, split-join}
use agent_ops.Prelude.Assoc.{Assoc, get}
use agent_ops.Integrate.EnvFile.{
  valid_env_key, env_line_key, env_line, has_key, replaced, edit, first_pass, second_pass, tidy,
  merged_lines, merge_env,
}
use agent_ops.Integrate.KeyLaws.{env_line_key-valid, env_line_key-blank, valid_env_key-clean}
use agent_ops.Integrate.EnvLaws.{
  keyed, expected, IsEnvMap, keyed-merged_lines, keep-append, nil_str_eq,
}

-- no value has a line break
abbrev pub OneLined : Assoc Str → Type 0
OneLined [] = Unit
OneLined ((j, v) ∷ set) = (has_byte b'\n' v ≡ false) × OneLined set

abbrev IsClean : Str → Type 0
IsClean ln = has_byte b'\n' ln ≡ false

abbrev Clean : List Str → Type 0
Clean lns = All IsClean lns

has_byte-append : (c : ℕ) (a b : Str) → has_byte c (a ++ b) ≡ has_byte c a || has_byte c b
has_byte-append c [] b = refl
has_byte-append c (d ∷ a) b = rw (has_byte-append c a b) (ground arith)

env_line-clean :
    (k v : Str)
    → valid_env_key k ≡ true
    → has_byte b'\n' v ≡ false
    → has_byte b'\n' (env_line k v) ≡ false
env_line-clean k v h q = has_byte-append b'\n' k (b'=' ∷ v) ∙ rw (valid_env_key-clean k h, q) refl

get-OneLined :
    (k v : Str) (set : Assoc Str) → OneLined set → get k set ≡ some v → has_byte b'\n' v ≡ false
unfolding get
get-OneLined k v [] h q = cc q
get-OneLined k v ((j, w) ∷ set) (p, h) q = elim (Bool-cases (str_eq j k)) [
  | inl m ↦ let e : w ≡ v = cc (rw m at q) in rw (← e) p
  | inr m ↦ get-OneLined k v set h (rw m at q)
]

module _ (set : Assoc Str) (del : List Str) (h : OneLined set) where
  edit-Clean : (ln : Str) → has_byte b'\n' ln ≡ false → Clean (edit set del ln).0
  unfolding edit
  edit-Clean ln p = elim (Bool-cases (is_nil (env_line_key ln))) [
    | inl n ↦ rw n (p, tt)
    | inr n ↦ elim (Bool-cases (has_key (env_line_key ln) del)) [
      | inl d ↦ rw (n, d) tt
      | inr d ↦ rw (n, d) (found (get (env_line_key ln) set) (env_line_key-valid ln n) refl)
    ]
  ]
    where
      found :
          (o : Option Str)
          → valid_env_key (env_line_key ln) ≡ true
          → get (env_line_key ln) set ≡ o
          → Clean (replaced ln (env_line_key ln) o).0
      found none v q = (p, tt)
      found (some w) v q =
          (env_line-clean (env_line_key ln) w v (get-OneLined (env_line_key ln) w set h q), tt)

  first_pass-Clean : (lns : List Str) → Clean lns → Clean (first_pass set del lns).0
  unfolding first_pass
  first_pass-Clean [] _ = tt
  first_pass-Clean (ln ∷ lns) (p, ps) =
      All-append IsClean (edit set del ln).0 (first_pass set del lns).0 (edit-Clean ln p)
        (first_pass-Clean lns ps)

second_pass-Clean :
    (set : Assoc Str) (seen : List Str) → IsEnvMap set → OneLined set → Clean (second_pass set seen)
unfolding second_pass
second_pass-Clean [] seen e h = tt
second_pass-Clean ((j, v) ∷ set) seen (valid, fresh, e) (p, h) =
    elim (Bool-cases (has_key j seen)) [
      | inl q ↦ rw q (second_pass-Clean set seen e h)
      | inr q ↦ rw q (env_line-clean j v valid p, second_pass-Clean set seen e h)
    ]

tidy-Clean : (lns : List Str) → Clean lns → Clean (tidy lns)
unfolding tidy
tidy-Clean [] _ = tt
tidy-Clean (ln ∷ lns) (p, ps) = elim (Bool-cases (is_nil (tidy lns) && is_blank ln)) [
  | inl q ↦ rw q tt
  | inr q ↦ rw q (p, tidy-Clean lns ps)
]

no_key : env_line_key [] ≡ []
no_key = env_line_key-blank [] (unfold trim_space in refl)

-- the lines of a key in the text that joins lines
keyed-split-join :
    (k : Str) (lns : List Str)
    → is_nil k ≡ false
    → Clean lns
    → keyed k (split b'\n' (join b'\n' lns ++ lit "\n")) ≡ keyed k lns
unfolding split join
keyed-split-join k [] n h = rw (no_key, nil_str_eq k n) refl
keyed-split-join k (ln ∷ lns) n h = rw (split-join b'\n' (ln ∷ lns) refl h) (
    keep-append (λ l. str_eq (env_line_key l) k) (ln ∷ lns) ([] ∷ [])
    ∙ rw (no_key, nil_str_eq k n) (append-nil (keyed k (ln ∷ lns))))

-- Merging variables into an env file, each key a valid name and each value without a line break: in
-- the text that is written, read again line by line, a key to set has its new value in each of its
-- lines and has a line, a key to delete and not to set has none, and any other key has the lines that
-- it had.
pub keyed-merge_env :
    (set : Assoc Str) (del : List Str) (existing k : Str)
    → IsEnvMap set
    → OneLined set
    → is_nil k ≡ false
    → keyed k (split b'\n' (merge_env set del existing))
      ≡ expected set del k (keyed k (split b'\n' existing))
unfolding merge_env
keyed-merge_env set del existing k e h n =
    let lns = split b'\n' existing in
    let f = first_pass set del lns in
    keyed-split-join k (merged_lines set del lns) n (
      unfold merged_lines in
      tidy-Clean (f.0 ++ second_pass set f.1) (
        All-append IsClean f.0 (second_pass set f.1)
          (first_pass-Clean set del h lns (split-clean b'\n' existing))
          (second_pass-Clean set f.1 e h)))
    ∙ keyed-merged_lines set del k lns n e
