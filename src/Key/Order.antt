-- ===== src/Key/Order.antt =====
-- The order of distances in src/core/key.rs, that of byte arrays.
use Prim.Native.Nat.{Ordering}
use rust_p2p_filesystem.Base.{ℕ, ◌≡◌, refl, List, [], ◌∷◌, arith, Bool, true, false}
use rust_p2p_filesystem.Base.Sort.{IsOrder}
use rust_p2p_filesystem.Key.{cmp_bytes, is_le, is_lt}

abbrev pub bytes_le : List ℕ → List ℕ → Bool
bytes_le xs ys = is_le (cmp_bytes xs ys)

abbrev pub bytes_lt : List ℕ → List ℕ → Bool
bytes_lt xs ys = is_lt (cmp_bytes xs ys)

pub cmp_bytes-eq : (xs ys : List ℕ) → cmp_bytes xs ys ≡ Ordering.eq → xs ≡ ys
unfolding cmp_bytes
cmp_bytes-eq [] [] h = refl
cmp_bytes-eq [] (y ∷ ys) h = cc
cmp_bytes-eq (x ∷ xs) [] h = cc
cmp_bytes-eq (x ∷ xs) (y ∷ ys) h = ground (arith, cmp_bytes-eq xs ys)

pub cmp_bytes_refl : (xs : List ℕ) → cmp_bytes xs xs ≡ Ordering.eq
unfolding cmp_bytes
cmp_bytes_refl [] = refl
cmp_bytes_refl (x ∷ xs) = ground (arith, cmp_bytes_refl xs)

-- The other way round the answer is the opposite one.
pub cmp_bytes_swap : (xs ys : List ℕ) → bytes_le xs ys ≡ false → bytes_lt ys xs ≡ true
unfolding cmp_bytes
cmp_bytes_swap [] [] h = cc
cmp_bytes_swap [] (y ∷ ys) h = cc
cmp_bytes_swap (x ∷ xs) [] h = refl
cmp_bytes_swap (x ∷ xs) (y ∷ ys) h = ground (arith, cmp_bytes_swap xs ys)

pub bytes_lt_not_le : (xs ys : List ℕ) → bytes_lt xs ys ≡ true → bytes_le ys xs ≡ false
unfolding cmp_bytes
bytes_lt_not_le [] [] h = cc
bytes_lt_not_le [] (y ∷ ys) h = refl
bytes_lt_not_le (x ∷ xs) [] h = cc
bytes_lt_not_le (x ∷ xs) (y ∷ ys) h = ground (arith, bytes_lt_not_le xs ys)

bytes_lt→le : (xs ys : List ℕ) → bytes_lt xs ys ≡ true → bytes_le xs ys ≡ true
bytes_lt→le xs ys h = ground arith

bytes_le_trans :
    (xs ys zs : List ℕ) → bytes_le xs ys ≡ true → bytes_le ys zs ≡ true → bytes_le xs zs ≡ true
unfolding cmp_bytes
bytes_le_trans [] [] zs h k = k
bytes_le_trans [] (y ∷ ys) [] h k = refl
bytes_le_trans [] (y ∷ ys) (z ∷ zs) h k = refl
bytes_le_trans (x ∷ xs) [] zs h k = cc
bytes_le_trans (x ∷ xs) (y ∷ ys) [] h k = cc
bytes_le_trans (x ∷ xs) (y ∷ ys) (z ∷ zs) h k = ground (arith, bytes_le_trans xs ys zs)

pub bytes_le-IsOrder : IsOrder bytes_le
bytes_le-IsOrder = record {
  total = λ xs ys h. bytes_lt→le ys xs (cmp_bytes_swap xs ys h);
  trans = bytes_le_trans;
}

-- Any function into byte arrays gives an order on its arguments, as `sort_by_key` uses it.
pub by_key-IsOrder {ℓ} :
    {A : Type ℓ} (f : A → List ℕ) → IsOrder {A = A} (λ x y. bytes_le (f x) (f y))
by_key-IsOrder f = record {
  total = λ x y. bytes_le-IsOrder.total (f x) (f y);
  trans = λ x y z. bytes_le-IsOrder.trans (f x) (f y) (f z);
}
