-- ===== src/Base/Sort.antt =====
-- `sort_by` and `sort_by_key` of the standard library: a stable sort, here by insertion. A stable
-- sort of a list by a total preorder is unique.
use mathlib.Core.List.{Perm, Permᴰ}
use mathlib.Core.List.Perm
use mathlib.Core.Path.{◌≡◌, refl, ap, ◌∙◌}
use Prim.Native.Nat.{ℕ, zero, suc}
use native.Mathlib.Nat.{ℕ_set}
use mathlib.Core.Bool.{Bool, true, false, not}
use mathlib.Core.List.{List, [], ◌∷◌, ◌++◌}
use mathlib.Core.Logic.{∥∥₁_elim, inl, inr}
use native.Mathlib.Omega.{arith}
use rust_p2p_filesystem.Base.Tests.{if◌then◌else◌, Bool-cases}
use rust_p2p_filesystem.Base.Lists.{All, All-map, All-take, take, keep, keep_all, All-keep, length}

module _ {ℓ} {A : Type ℓ} where
  length-derivation : {xs ys : List A} → Permᴰ xs ys → length xs ≡ length ys
  length-derivation Permᴰ.nil = refl
  length-derivation (Permᴰ.cons e p) = ap suc (length-derivation p)
  length-derivation (Permᴰ.swap {l = l} e f) = refl
  length-derivation (Permᴰ.trans p q) = length-derivation p ∙ length-derivation q

  -- A permutation keeps the length.
  pub length-perm : {xs ys : List A} → Perm xs ys → length xs ≡ length ys
  length-perm p = ∥∥₁_elim p (ℕ_set _ _) length-derivation

module _ {ℓ} {A : Type ℓ} (le : A → A → Bool) where
  unfoldable pub insert : A → List A → List A
  insert x [] = x ∷ []
  insert x (y ∷ ys) = if le x y then x ∷ y ∷ ys else y ∷ insert x ys

  unfoldable pub sort : List A → List A
  sort [] = []
  sort (x ∷ xs) = insert x (sort xs)

  abbrev pub IsSorted : List A → Type 0
  IsSorted [] = Unit {0}
  IsSorted (x ∷ xs) = All (λ y. le x y ≡ true) xs × IsSorted xs

  pub IsSorted-take : (n : ℕ) (xs : List A) → IsSorted xs → IsSorted (take n xs)
  unfolding take
  IsSorted-take zero xs s = tt
  IsSorted-take (suc n) [] s = tt
  IsSorted-take (suc n) (x ∷ xs) s = (All-take _ n xs s.0, IsSorted-take n xs s.1)

  pub insert-perm : (x : A) (xs : List A) → Perm (insert x xs) (x ∷ xs)
  unfolding insert
  insert-perm x [] = Perm.refl _
  insert-perm x (y ∷ ys) = elim (Bool-cases (le x y)) [
    | inl h ↦ rw h (Perm.refl _)
    | inr h ↦ rw h (Perm.trans (Perm.cons y (insert-perm x ys)) (Perm.swap x y ys))
  ]

  pub sort-perm : (xs : List A) → Perm (sort xs) xs
  unfolding sort
  sort-perm [] = Perm.refl _
  sort-perm (x ∷ xs) = Perm.trans (insert-perm x (sort xs)) (Perm.cons x (sort-perm xs))

  pub length-insert : (x : A) (xs : List A) → length (insert x xs) ≡ length (x ∷ xs)
  unfolding insert
  length-insert x [] = refl
  length-insert x (y ∷ ys) = ground (arith, length-insert x ys)

  pub length-sort : (xs : List A) → length (sort xs) ≡ length xs
  unfolding sort
  length-sort [] = refl
  length-sort (x ∷ xs) = ground (arith, length-insert x (sort xs), length-sort xs)

  pub All-insert {κ} : (P : A → Type κ) (x : A) (xs : List A) → P x → All P xs → All P (insert x xs)
  unfolding insert
  All-insert P x [] h k = (h, tt)
  All-insert P x (y ∷ ys) h k = ground (arith, All-insert P x ys h k.1)

  pub All-sort {κ} : (P : A → Type κ) (xs : List A) → All P xs → All P (sort xs)
  unfolding sort
  All-sort P [] h = tt
  All-sort P (x ∷ xs) h = All-insert P x (sort xs) h.0 (All-sort P xs h.1)

-- A total preorder, as a comparison function has to be.
pub record IsOrder {ℓ} {A : Type ℓ} (le : A → A → Bool) : Type ℓ where
  pub total : (x y : A) → le x y ≡ false → le y x ≡ true
  pub trans : (x y z : A) → le x y ≡ true → le y z ≡ true → le x z ≡ true

module _ {ℓ} {A : Type ℓ} (le : A → A → Bool) (o : IsOrder le) where
  insert-IsSorted : (x : A) (xs : List A) → IsSorted le xs → IsSorted le (insert le x xs)
  unfolding insert
  insert-IsSorted x [] s = (tt, tt)
  insert-IsSorted x (y ∷ ys) s = elim (Bool-cases (le x y)) [
    | inl h ↦ rw h ((h, All-map (λ z. o.trans x y z h) ys s.0), s)
    | inr h ↦
        rw h (All-insert le (λ z. le y z ≡ true) x ys (o.total x y h) s.0, insert-IsSorted x ys s.1)
  ]

  pub sort-IsSorted : (xs : List A) → IsSorted le (sort le xs)
  unfolding sort
  sort-IsSorted [] = tt
  sort-IsSorted (x ∷ xs) = insert-IsSorted x (sort le xs) (sort-IsSorted xs)

  -- A smallest element goes to the front.
  insert_front : (x : A) (xs : List A) → All (λ y. le x y ≡ true) xs → insert le x xs ≡ x ∷ xs
  unfolding insert
  insert_front x [] h = refl
  insert_front x (y ∷ ys) h = rw h.0

  -- Selecting by a test commutes with the sort, since the sort is stable.
  keep-insert :
      (p : A → Bool) (x : A) (xs : List A)
      → IsSorted le xs
      → keep p (insert le x xs) ≡ (if p x then insert le x (keep p xs) else keep p xs)
  unfolding insert keep
  keep-insert p x [] s = ground arith
  keep-insert p x (y ∷ ys) s = elim (Bool-cases (le x y)) [
    | inl h ↦
        let front =
          insert_front x (keep p ys) (All-keep _ p ys (All-map (λ z. o.trans x y z h) ys s.0)) in
        ground (arith, front)
    | inr h ↦ ground (arith, keep-insert p x ys s.1)
  ]

  pub keep-sort : (p : A → Bool) (xs : List A) → keep p (sort le xs) ≡ sort le (keep p xs)
  unfolding sort keep
  keep-sort p [] = refl
  keep-sort p (x ∷ xs) =
      ground (arith, keep-insert p x (sort le xs) (sort-IsSorted xs), keep-sort p xs)

  -- If every element that passes comes strictly before every one that does not, a sorted list is
  -- the ones that pass and then the others.
  pub sorted_split {κ} :
      (P : A → Type κ) (p : A → Bool) (xs : List A)
      → ((x y : A) → P x → P y → p x ≡ false → p y ≡ true → le x y ≡ false)
      → All P xs
      → IsSorted le xs
      → xs ≡ keep p xs ++ keep (λ x. not (p x)) xs
  unfolding keep
  sorted_split P p [] b v s = refl
  sorted_split P p (x ∷ xs) b v s = elim (Bool-cases (p x)) [
    | inl h ↦ rw h (ap (◌∷◌ x) (sorted_split P p xs b v.1 s.1))
    | inr h ↦ rw (h, fails xs v.1 s.0 h, keep_all (λ z. not (p z)) xs (fails' xs v.1 s.0 h)) refl
  ]
    where
      fails : (ys : List A) → All P ys → All (λ y. le x y ≡ true) ys → p x ≡ false → keep p ys ≡ []
      fails [] w t h = refl
      fails (y ∷ ys) w t h = ground (arith, b x y v.0 w.0 h, fails ys w.1 t.1 h)

      fails' :
          (ys : List A)
          → All P ys
          → All (λ y. le x y ≡ true) ys
          → p x ≡ false
          → All (λ y. not (p y) ≡ true) ys
      fails' [] w t h = tt
      fails' (y ∷ ys) w t h = ground (arith, b x y v.0 w.0 h, fails' ys w.1 t.1 h)
