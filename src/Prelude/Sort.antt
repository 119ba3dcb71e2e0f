-- ===== src/Prelude/Sort.antt =====
-- A stable sort by a Boolean order: `ORDER BY`, `sort.Slice` and `sort.Strings`.
use mathlib.Core.Path.{◌≡◌, refl, ap, ◌∙◌}
use mathlib.Core.Bool.{Bool, true, false, not}
use mathlib.Core.List.{List, [], ◌∷◌, Perm, Permᴰ, Pairwise}
use mathlib.Core.List.Perm
use mathlib.Core.List.Permᴰ
use mathlib.Core.List.{mem-cons_self}
use mathlib.Core.Logic.{inl, inr}
use native.Mathlib.Omega.{arith}
use agent_ops.Prelude.Tests.{if◌then◌else◌, Bool-cases}
use agent_ops.Prelude.Lists.{All}

module _ {ℓ} {A : Type ℓ} (le : A → A → Bool) where
  -- before the first element that is not smaller
  pub insert : A → List A → List A
  insert a [] = a ∷ []
  insert a (x ∷ xs) = if le a x then a ∷ x ∷ xs else x ∷ insert a xs

  unfoldable pub sort : List A → List A
  unfolding insert
  sort [] = []
  sort (x ∷ xs) = insert x (sort xs)

  abbrev pub IsSorted : List A → Type ℓ
  IsSorted [] = Unit
  IsSorted (x ∷ xs) = All (λ y. le x y ≡ true) xs × IsSorted xs

module _ {ℓ} {A : Type ℓ} (le : A → A → Bool) where
  insert-perm : (a : A) (xs : List A) → Perm (insert le a xs) (a ∷ xs)
  unfolding insert
  insert-perm a [] = Perm.refl _
  insert-perm a (x ∷ xs) = elim (Bool-cases (le a x)) [
    | inl p ↦ rw p (Perm.refl _)
    | inr p ↦ rw p (Perm.trans (Perm.cons x (insert-perm a xs)) (Perm.swap a x xs))
  ]

  pub sort-perm : (xs : List A) → Perm (sort le xs) xs
  unfolding sort
  sort-perm [] = Perm.refl _
  sort-perm (x ∷ xs) = Perm.trans (insert-perm x (sort le xs)) (Perm.cons x (sort-perm xs))

-- a preorder in which any two elements compare
pub record IsOrder {ℓ} {A : Type ℓ} (le : A → A → Bool) : Type ℓ where
  pub total : (a b : A) → le a b ≡ false → le b a ≡ true
  pub trans : (a b c : A) → le a b ≡ true → le b c ≡ true → le a c ≡ true

module _ {ℓ} {A : Type ℓ} (le : A → A → Bool) (o : IsOrder le) where
  All-le :
      (a x : A) (xs : List A)
      → le a x ≡ true
      → All (λ y. le x y ≡ true) xs
      → All (λ y. le a y ≡ true) xs
  All-le a x [] h _ = tt
  All-le a x (y ∷ ys) h (p, ps) = (o.trans a x y h p, All-le a x ys h ps)

  All-insert :
      (a x : A) (xs : List A)
      → le x a ≡ true
      → All (λ y. le x y ≡ true) xs
      → All (λ y. le x y ≡ true) (insert le a xs)
  unfolding insert
  All-insert a x [] h _ = (h, tt)
  All-insert a x (y ∷ ys) h (p, ps) = elim (Bool-cases (le a y)) [
    | inl e ↦ rw e (h, (p, ps))
    | inr e ↦ rw e (p, All-insert a x ys h ps)
  ]

  insert-IsSorted : (a : A) (xs : List A) → IsSorted le xs → IsSorted le (insert le a xs)
  unfolding insert
  insert-IsSorted a [] _ = (tt, tt)
  insert-IsSorted a (x ∷ xs) (h, hs) = elim (Bool-cases (le a x)) [
    | inl e ↦ rw e ((e, All-le a x xs e h), (h, hs))
    | inr e ↦ rw e (All-insert a x xs (o.total a x e) h, insert-IsSorted a xs hs)
  ]

  pub sort-IsSorted : (xs : List A) → IsSorted le (sort le xs)
  unfolding sort
  sort-IsSorted [] = tt
  sort-IsSorted (x ∷ xs) = insert-IsSorted x (sort le xs) (sort-IsSorted xs)

-- two elements of which exactly one comes first change places without effect
module _ {A : Type 0} (le : A → A → Bool) (o : IsOrder le) (a b : A)
    (n : le b a ≡ not (le a b)) where
  insert_comm : (l : List A) → insert le a (insert le b l) ≡ insert le b (insert le a l)
  unfolding insert
  insert_comm [] = ground arith
  insert_comm (x ∷ l) =
      let ih = insert_comm l in
      let t = o.trans a b x in let u = o.trans b a x in ground (arith, ih, t, u)

-- if of any two elements exactly one comes first, the sorted list does not depend on the order
module _ {A : Type 0} (le : A → A → Bool) (o : IsOrder le) (R : A → A → Type 0)
    (rp : (a b : A) → IsProp (R a b)) (rs : (a b : A) → R a b → R b a)
    (rn : (a b : A) → R a b → le b a ≡ not (le a b)) where
  pub sort-Perm : {xs ys : List A} → Permᴰ xs ys → Pairwise R xs → sort le xs ≡ sort le ys
  unfolding sort
  sort-Perm Permᴰ.nil p = refl
  sort-Perm (Permᴰ.cons {a = a} {l₂ = l₂} e d) (Pairwise.cons h p) =
      ap (λ l. insert le a l) (sort-Perm d p) ∙ ap (λ x. insert le x (sort le l₂)) e
  sort-Perm (Permᴰ.swap {a = a} {b = b} {a' = a'} {b' = b'} {l = l} e f)
        (Pairwise.cons h (Pairwise.cons g p)) =
      insert_comm le o a b (rn a b (h b mem-cons_self)) (sort le l)
      ∙ ap (λ x. insert le x (insert le a (sort le l))) f
      ∙ ap (λ x. insert le a' (insert le x (sort le l))) e
  sort-Perm (Permᴰ.trans d c) p = sort-Perm d p ∙ sort-Perm c (Permᴰ.pairwise {R = R} rp rs d p)
