-- ===== src/Base/Assoc.antt =====
-- `HashMap` of the standard library, as an association list. The order of its entries stands for
-- the unspecified order of iteration.
use mathlib.Core.Path.{◌≡◌, refl}
use mathlib.Core.Bool.{Bool, true, false}
use mathlib.Core.List.{List, [], ◌∷◌, map}
use mathlib.Core.Option.{Option, none, some}
use Prim.Native.Nat.{◌+◌, ◌≤◌}
use native.Mathlib.Omega.{arith}
use mathlib.Core.Logic.{inl, inr}
use rust_p2p_filesystem.Base.Tests.{Bool-cases, Eq, ◌==◌, if◌then◌else◌}
use rust_p2p_filesystem.Base.Lists.{length}

abbrev pub Map {ℓ κ} : Type ℓ → Type κ → Type (ℓ ⊔ κ)
Map K V = List (K × V)

module _ {ℓ κ} {K : Type ℓ} {V : Type κ} ⦃e : Eq K⦄ where
  unfoldable pub get : K → Map K V → Option V
  get k [] = none
  get k ((j, v) ∷ m) = if j == k then some v else get k m

  unfoldable pub insert : K → V → Map K V → Map K V
  insert k v [] = (k, v) ∷ []
  insert k v ((i, old) ∷ rest) = if i == k then (k, v) ∷ rest else (i, old) ∷ insert k v rest

  unfoldable pub remove : K → Map K V → Map K V
  remove k [] = []
  remove k ((j, w) ∷ m) = if j == k then remove k m else (j, w) ∷ remove k m

  unfoldable pub contains_key : K → Map K V → Bool
  contains_key k [] = false
  contains_key k ((j, v) ∷ m) = if j == k then true else contains_key k m

  pub get-insert :
      (k j : K) (v : V) (m : Map K V) → get j (insert k v m) ≡ (if k == j then some v else get j m)
  unfolding get insert
  get-insert k j v [] = refl
  get-insert k j v ((i, w) ∷ m) =
      ground (arith, e.beq_iff k j, e.beq_iff i k, e.beq_iff i j, get-insert k j v m)

  pub get-remove : (k j : K) (m : Map K V) → get j (remove k m) ≡ (if k == j then none else get j m)
  unfolding get remove
  get-remove k j [] = ground arith
  get-remove k j ((i, w) ∷ m) =
      ground (arith, e.beq_iff k j, e.beq_iff i k, e.beq_iff i j, get-remove k j m)

  pub contains_key-get :
      (k : K) (m : Map K V) → contains_key k m ≡ true → (v : V) × (get k m ≡ some v)
  unfolding get contains_key
  contains_key-get k [] h = cc
  contains_key-get k ((j, v) ∷ m) h = elim (Bool-cases (j == k)) [
    | inl same ↦ (v, rw same refl)
    | inr other ↦
        let rest : (u : V) × (get k m ≡ some u) = contains_key-get k m (rw other at h) in
        (rest.0, rw other rest.1)
  ]

  pub get-contains_key : (k : K) (m : Map K V) → contains_key k m ≡ false → get k m ≡ none
  unfolding get contains_key
  get-contains_key k [] h = refl
  get-contains_key k ((j, v) ∷ m) h = ground (arith, get-contains_key k m)

  pub contains_key-insert :
      (k j : K) (v : V) (m : Map K V)
      → contains_key j (insert k v m) ≡ (if k == j then true else contains_key j m)
  unfolding contains_key insert
  contains_key-insert k j v [] = refl
  contains_key-insert k j v ((i, w) ∷ m) =
      ground (arith, e.beq_iff k j, e.beq_iff i k, e.beq_iff i j, contains_key-insert k j v m)

  pub contains_key-remove :
      (k j : K) (m : Map K V)
      → contains_key j (remove k m) ≡ (if k == j then false else contains_key j m)
  unfolding contains_key remove
  contains_key-remove k j [] = ground arith
  contains_key-remove k j ((i, w) ∷ m) =
      ground (arith, e.beq_iff k j, e.beq_iff i k, e.beq_iff i j, contains_key-remove k j m)

  pub length-insert-le : (k : K) (v : V) (m : Map K V) → length (insert k v m) ≤ length m + 1
  unfolding insert
  length-insert-le k v [] = omega arith
  length-insert-le k v ((j, w) ∷ m) = ground (arith, length-insert-le k v m)

  -- `keys()`
  unfoldable pub keys : Map K V → List K
  keys m = map (λ (p : K × V). p.0) m
