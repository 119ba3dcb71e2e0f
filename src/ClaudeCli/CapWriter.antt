-- ===== src/ClaudeCli/CapWriter.antt =====
-- internal/driver/claudecli/claudecli.go: capWriter, which holds the output of errors in bounds.
use mathlib.Core.Path.{Path}
use agent_ops.Prelude.{
  ℕ, zero, suc, ◌+◌, ◌-◌, ◌≤◌, ◌≡◌, refl, ap, sym, ◌∙◌, List, [], ◌∷◌, ◌++◌, length, take,
  append_assoc, append-nil, length-append, length-take, Str, ltb, if◌then◌else◌, Bool-cases, inl,
  inr, arith, min,
}

pub record CapWriter : Type 0 where
  pub dst : Str
  pub cap : ℕ
  pub written : ℕ

abbrev pub new_cap_writer : ℕ → CapWriter
new_cap_writer cap = record { dst = []; cap = cap; written = 0 }

-- Write: the writer behind it, and the count that it reports
unfoldable pub write : Str → CapWriter → CapWriter × ℕ
write p w =
    let remaining = w.cap - w.written in
    if ltb 0 remaining
    then if ltb remaining (length p)
      then (record w { dst = w.dst ++ take remaining p; written = w.written + remaining }, length p)
      else (record w { dst = w.dst ++ p; written = w.written + length p }, length p)
    else (w, length p)

unfoldable pub write_all : List Str → CapWriter → CapWriter
write_all [] w = w
write_all (p ∷ ps) w = write_all ps (write p w).0

abbrev pub concat : List Str → Str
concat [] = []
concat (p ∷ ps) = p ++ concat ps

-- the writer holds the first bytes of what it was given
pub record Holds (all : Str) (w : CapWriter) : Type 0 where
  pub prefix : w.dst ≡ take w.cap all
  pub count : w.written ≡ length w.dst

take-append : (n : ℕ) (xs ys : Str) → take n (xs ++ ys) ≡ take n xs ++ take (n - length xs) ys
take-append n [] ys = let e : n - 0 ≡ n = omega arith in rw e (take-nil n)
  where
    take-nil : (m : ℕ) → take m ys ≡ take m [] ++ take m ys
    take-nil zero = refl
    take-nil (suc m) = refl
take-append zero (x ∷ xs) ys = let e : 0 - suc (length xs) ≡ 0 = omega arith in rw e refl
take-append (suc n) (x ∷ xs) ys =
    let e : suc n - suc (length xs) ≡ n - length xs = omega arith in
    rw e (ap (λ l. x ∷ l) (take-append n xs ys))

take_all : (n : ℕ) (xs : Str) → length xs ≤ n → take n xs ≡ xs
take_all zero [] h = refl
take_all (suc n) [] h = refl
take_all zero (x ∷ xs) h = absurd (omega arith)
take_all (suc n) (x ∷ xs) h = ap (λ l. x ∷ l) (take_all n xs (omega arith))

-- the three branches of a write are one
write_lem :
    (p : Str) (w : CapWriter)
    → (write p w).0 ≡ record w {
      dst = w.dst ++ take (w.cap - w.written) p;
      written = w.written + min (w.cap - w.written) (length p);
    }
unfolding write
write_lem p w = elim (Bool-cases (ltb 0 (w.cap - w.written))) [
  | inr z ↦
      let e : w.cap - w.written ≡ 0 = ground arith in rw (z, e, append-nil w.dst, sym no_count) refl
  | inl z ↦ elim (Bool-cases (ltb (w.cap - w.written) (length p))) [
    | inl m ↦
        let e : min (w.cap - w.written) (length p) ≡ w.cap - w.written = ground arith in
        rw (z, m, e) refl
    | inr m ↦
        let e : min (w.cap - w.written) (length p) ≡ length p = ground arith in
        rw (z, m, e)
          (ap (λ t. record w { dst = w.dst ++ t; written = w.written + length p })
            (sym (take_all (w.cap - w.written) p (ground arith))))
  ]
]
  where
    no_count : w.written ≡ w.written + min 0 (length p)
    no_count = omega arith

write-Holds : (p all : Str) (w : CapWriter) → Holds all w → Holds (all ++ p) (write p w).0
write-Holds p all w h =
    let e : w.cap - w.written ≡ w.cap - length all =
      omega (arith, h.count, ap length h.prefix, length-take w.cap all) in
    rw (write_lem p w) (record {
      prefix = rw (h.prefix, e) (sym (take-append w.cap all p));
      count = omega (
        arith,
        h.count,
        length-append w.dst (take (w.cap - w.written) p),
        length-take (w.cap - w.written) p,
      );
    })

write-cap : (p : Str) (w : CapWriter) → (write p w).0.cap ≡ w.cap
write-cap p w = ap (λ t. t.cap) (write_lem p w)

write_all-Holds :
    (ps : List Str) (all : Str) (w : CapWriter)
    → Holds all w
    → Holds (all ++ concat ps) (write_all ps w) × ((write_all ps w).cap ≡ w.cap)
unfolding write_all
write_all-Holds [] all w h = (rw (append-nil all) h, refl)
write_all-Holds (p ∷ ps) all w h =
    let r = write_all-Holds ps (all ++ p) (write p w).0 (write-Holds p all w h) in
    (rw (sym (append_assoc all p (concat ps))) r.0, r.1 ∙ write-cap p w)

take-nil_any : (n : ℕ) → Path Str [] (take n [])
take-nil_any zero = refl
take-nil_any (suc n) = refl

write_count : (p : Str) (w : CapWriter) → (write p w).1 ≡ length p
unfolding write
write_count p w = ground arith

-- However the output is cut into writes, the writer holds its first bytes up to the cap; and each write
-- reports all of its bytes as written.
pub write_all_lem :
    (cap : ℕ) (ps : List Str) (p : Str)
    → ((write_all ps (new_cap_writer cap)).dst ≡ take cap (concat ps))
      × ((write p (write_all ps (new_cap_writer cap))).1 ≡ length p)
write_all_lem cap ps p =
    let r =
      write_all-Holds ps [] (new_cap_writer cap)
        (record { prefix = take-nil_any cap; count = refl }) in
    (
      r.0.prefix ∙ ap (λ n. take n (concat ps)) r.1,
      write_count p (write_all ps (new_cap_writer cap)),
    )
