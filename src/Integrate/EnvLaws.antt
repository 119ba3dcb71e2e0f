-- ===== src/Integrate/EnvLaws.antt =====
-- internal/integrate/integrate.go: what mergeEnvFile does to the lines of each key.
use agent_ops.Prelude.{
  Str, str_eq, str_eq_iff, str_eq_refl, Option, none, some, List, [], ◌∷◌, ◌++◌, map, ◌≡◌, refl,
  sym, ap, ◌∙◌, Bool, true, false, not, ◌&&◌, ◌||◌, is_nil, is_blank, is_some, arith, keep,
  append-nil, Bool-cases, inl, inr,
}
use agent_ops.Prelude.Assoc.{Assoc, get}
use agent_ops.Integrate.EnvFile.{
  valid_env_key, env_line_key, env_line, has_key, replaced, edit, first_pass, second_pass, tidy,
  merged_lines,
}
use agent_ops.Integrate.KeyLaws.{env_line_key-env_line, env_line_key-valid, env_line_key-blank}

-- the lines of a key, in their order
abbrev pub keyed : Str → List Str → List Str
keyed k lns = keep (λ ln. str_eq (env_line_key ln) k) lns

-- what the lines of a key become: they go if the key is to be deleted, and if it is to be set, each of
-- them is replaced, and if there is none, one is added
abbrev left_over : Bool → List Str → List Str
left_over true lns = []
left_over false lns = lns

abbrev pub written : Str → Option Str → List Str → List Str
written k none lns = lns
written k (some v) [] = env_line k v ∷ []
written k (some v) (ln ∷ lns) = map (λ _. env_line k v) (ln ∷ lns)

abbrev pub expected : Assoc Str → List Str → Str → List Str → List Str
expected set del k lns = written k (get k set) (left_over (has_key k del) lns)

pub keep-append :
    {A : Type 0} (p : A → Bool) (xs ys : List A) → keep p (xs ++ ys) ≡ keep p xs ++ keep p ys
keep-append p [] ys = refl
keep-append p (x ∷ xs) ys = elim (Bool-cases (p x)) [
  | inl q ↦ rw q (ap (λ t. x ∷ t) (keep-append p xs ys))
  | inr q ↦ rw q (keep-append p xs ys)
]

nil_lem : (s : Str) → is_nil s ≡ true → s ≡ []
nil_lem [] h = refl
nil_lem (c ∷ s) h = cc h

pub nil_str_eq : (k : Str) → is_nil k ≡ false → str_eq [] k ≡ false
nil_str_eq [] h = cc h
nil_str_eq (c ∷ k) h = unfold str_eq in refl

keyed-nil : (k : Str) (lns : List Str) → is_nil lns ≡ true → keyed k lns ≡ []
keyed-nil k [] h = refl
keyed-nil k (ln ∷ lns) h = cc h

-- a blank line has no key, so tidying keeps the lines of a key
keyed-tidy : (k : Str) (lns : List Str) → is_nil k ≡ false → keyed k (tidy lns) ≡ keyed k lns
unfolding tidy
keyed-tidy k [] h = refl
keyed-tidy k (ln ∷ lns) h = elim (Bool-cases (is_nil (tidy lns) && is_blank ln)) [
  | inl q ↦
      let (n, b) : (is_nil (tidy lns) ≡ true) × (is_blank ln ≡ true) = ground arith in
      rw (q, env_line_key-blank ln b, nil_str_eq k h)
        (sym (keyed-nil k (tidy lns) n) ∙ keyed-tidy k lns h)
  | inr q ↦ rw (q, keyed-tidy k lns h) refl
]

-- the lines of `k` once they are replaced
abbrev edited : Str → Option Str → List Str → List Str
edited k none lns = lns
edited k (some v) lns = map (λ _. env_line k v) lns

module _ (set : Assoc Str) (del : List Str) (k : Str) (named : is_nil k ≡ false) where
  abbrev survives : List Str → List Str
  survives lns = left_over (has_key k del) lns

  edited-nil : (o : Option Str) → edited k o [] ≡ []
  edited-nil none = refl
  edited-nil (some v) = refl

  edited-cons :
      (o : Option Str) (ln : Str) (lns : List Str)
      → edited k o (survives (ln ∷ lns))
        ≡ edited k o (survives (ln ∷ [])) ++ edited k o (survives lns)
  edited-cons o ln lns = by_flag (has_key k del) o
    where
      by_flag :
          (d : Bool) (o : Option Str)
          → edited k o (left_over d (ln ∷ lns))
            ≡ edited k o (left_over d (ln ∷ [])) ++ edited k o (left_over d lns)
      by_flag true none = refl
      by_flag true (some v) = refl
      by_flag false none = refl
      by_flag false (some v) = refl

  edit_same :
      (ln : Str)
      → env_line_key ln ≡ k
      → (keyed k (edit set del ln).0 ≡ edited k (get k set) (survives (ln ∷ [])))
        × (has_key k (edit set del ln).1 ≡ not (has_key k del) && is_some (get k set))
  unfolding edit
  edit_same ln e = elim (Bool-cases (has_key k del)) [
    | inl d ↦ rw (e, named, d) (sym (edited-nil (get k set)), refl)
    | inr d ↦ rw (e, named, d) (same_found (get k set))
  ]
    where
      same_found :
          (o : Option Str)
          → (keyed k (replaced ln k o).0 ≡ edited k o (ln ∷ []))
            × (has_key k (replaced ln k o).1 ≡ is_some o)
      same_found none = (rw (e, str_eq_refl k) refl, refl)
      same_found (some v) =
          let valid : valid_env_key k ≡ true = rw e at (env_line_key-valid ln (rw e named)) in
          (rw (env_line_key-env_line k v valid, str_eq_refl k) refl, rw (str_eq_refl k) refl)

  edit_other :
      (ln : Str)
      → str_eq (env_line_key ln) k ≡ false
      → (keyed k (edit set del ln).0 ≡ []) × (has_key k (edit set del ln).1 ≡ false)
  unfolding edit
  edit_other ln m = elim (Bool-cases (is_nil (env_line_key ln))) [
    | inl n ↦ rw (n, m) (refl, refl)
    | inr n ↦ elim (Bool-cases (has_key (env_line_key ln) del)) [
      | inl d ↦ rw (n, d) (refl, refl)
      | inr d ↦ rw (n, d) (other_found (get (env_line_key ln) set) (env_line_key-valid ln n))
    ]
  ]
    where
      other_found :
          (o : Option Str)
          → valid_env_key (env_line_key ln) ≡ true
          → (keyed k (replaced ln (env_line_key ln) o).0 ≡ [])
            × (has_key k (replaced ln (env_line_key ln) o).1 ≡ false)
      other_found none v = (rw m refl, refl)
      other_found (some w) v = (rw (env_line_key-env_line (env_line_key ln) w v, m) refl, rw m refl)

  seen-cons :
      (d o : Bool) (ln : Str) (lns : List Str)
      → (not d && o) || (not (is_nil (left_over d lns)) && o)
        ≡ not (is_nil (left_over d (ln ∷ lns))) && o
  seen-cons true o ln lns = ground arith
  seen-cons false o ln lns = ground arith

  any-append : (xs ys : List Str) → has_key k (xs ++ ys) ≡ has_key k xs || has_key k ys
  any-append [] ys = refl
  any-append (x ∷ xs) ys = rw (any-append xs ys) (ground arith)

  -- the lines that the first pass leaves, and whether it has marked the key
  first_pass_lem :
      (lns : List Str)
      → (keyed k (first_pass set del lns).0 ≡ edited k (get k set) (survives (keyed k lns)))
        × (has_key k (first_pass set del lns).1
            ≡ not (is_nil (survives (keyed k lns))) && is_some (get k set))
  unfolding first_pass
  first_pass_lem [] = (sym (rw (survives-nil) (edited-nil (get k set))), rw survives-nil refl)
    where
      survives-nil : survives [] ≡ []
      survives-nil = by_flag (has_key k del)
        where
          by_flag : (d : Bool) → left_over d [] ≡ []
          by_flag true = refl
          by_flag false = refl
  first_pass_lem (ln ∷ lns) =
      let (p, q) = first_pass_lem lns in
      let e = edit set del ln in
      let f = first_pass set del lns in
      let split_lines = keep-append (λ l. str_eq (env_line_key l) k) e.0 f.0 in
      let split_seen = any-append e.1 f.1 in
      elim (Bool-cases (str_eq (env_line_key ln) k)) [
        | inl m ↦
            let (a, b) = edit_same ln ((str_eq_iff (env_line_key ln) k).0 m) in
            rw (split_lines, split_seen, a, b, p, q, m)
              (
                sym (edited-cons (get k set) ln (keyed k lns)),
                seen-cons (has_key k del) (is_some (get k set)) ln (keyed k lns),
              )
        | inr m ↦
            let (a, b) = edit_other ln m in rw (split_lines, split_seen, a, b, p, q, m) (refl, refl)
      ]

-- every key is one that validEnvKey accepts, and stands once, as in a Go map
abbrev pub IsEnvMap : Assoc Str → Type 0
IsEnvMap [] = Unit
IsEnvMap ((j, v) ∷ set) = (valid_env_key j ≡ true) × (get j set ≡ none) × IsEnvMap set

-- the line that the second pass adds
abbrev added_line : Str → Option Str → Bool → List Str
added_line k none seen = []
added_line k (some v) true = []
added_line k (some v) false = env_line k v ∷ []

second_pass_lem :
    (k : Str) (set : Assoc Str) (seen : List Str)
    → IsEnvMap set
    → keyed k (second_pass set seen) ≡ added_line k (get k set) (has_key k seen)
unfolding second_pass get
second_pass_lem k [] seen h = refl
second_pass_lem k ((j, v) ∷ set) seen (valid, fresh, h) =
    let rec = second_pass_lem k set seen h in
    elim (Bool-cases (str_eq j k)) [
      | inl m ↦
          let e = (str_eq_iff j k).0 m in
          let gone : get k set ≡ none = rw e at fresh in
          let alone : keyed k (second_pass set seen) ≡ [] = rw gone at rec in
          elim (Bool-cases (has_key k seen)) [
            | inl q ↦ rw (m, e, q) alone
            | inr q ↦
                rw (m, e, q, env_line_key-env_line k v (rw e at valid), str_eq_refl k, alone) refl
          ]
      | inr m ↦ elim (Bool-cases (has_key j seen)) [
        | inl q ↦ rw (q, m) rec
        | inr q ↦ rw (q, env_line_key-env_line j v valid, m) rec
      ]
    ]

merge_passes :
    (k : Str) (o : Option Str) (lns : List Str)
    → edited k o lns ++ added_line k o (not (is_nil lns) && is_some o) ≡ written k o lns
merge_passes k none lns = append-nil lns
merge_passes k (some v) [] = refl
merge_passes k (some v) (ln ∷ lns) = append-nil (map (λ _. env_line k v) (ln ∷ lns))

-- The lines of a key after the two passes and the tidying.
pub keyed-merged_lines :
    (set : Assoc Str) (del : List Str) (k : Str) (lns : List Str)
    → is_nil k ≡ false
    → IsEnvMap set
    → keyed k (merged_lines set del lns) ≡ expected set del k (keyed k lns)
unfolding merged_lines
keyed-merged_lines set del k lns named h =
    let f = first_pass set del lns in
    let (p, q) = first_pass_lem set del k named lns in
    keyed-tidy k (f.0 ++ second_pass set f.1) named
    ∙ keep-append (λ ln. str_eq (env_line_key ln) k) f.0 (second_pass set f.1)
    ∙ rw (second_pass_lem k set f.1 h, p, q)
        (merge_passes k (get k set) (left_over (has_key k del) (keyed k lns)))
