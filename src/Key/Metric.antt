-- ===== src/Key/Metric.antt =====
-- The XOR distance of src/core/key.rs: the order of its arguments, distance zero, and keys at the
-- same distance.
use rust_p2p_filesystem.Base.{
  ℕ, suc, ◌≡◌, refl, sym, ap, ap₂, ◌∙◌, ◌↔◌, List, [], ◌∷◌, arith, length, replicate, subst,
}
use rust_p2p_filesystem.Constants.{K}
use rust_p2p_filesystem.Key.{Key, IsKey, IsBytes, distance, xor_bytes}
use rust_p2p_filesystem.Key.Xor.{
  bit_xor_comm, bit_xor_self, bit_xor_cancel, bit_xor_middle, bit_xor-lt,
}

pub xor_bytes_comm : (xs ys : List ℕ) → xor_bytes xs ys ≡ xor_bytes ys xs
unfolding xor_bytes
xor_bytes_comm [] [] = refl
xor_bytes_comm [] (y ∷ ys) = refl
xor_bytes_comm (x ∷ xs) [] = refl
xor_bytes_comm (x ∷ xs) (y ∷ ys) = ap₂ ◌∷◌ (bit_xor_comm x y) (xor_bytes_comm xs ys)

pub length-xor_bytes :
    (xs ys : List ℕ) → length xs ≡ length ys → length (xor_bytes xs ys) ≡ length xs
unfolding xor_bytes
length-xor_bytes [] ys h = refl
length-xor_bytes (x ∷ xs) [] h = absurd (omega arith)
length-xor_bytes (x ∷ xs) (y ∷ ys) h = ap suc (length-xor_bytes xs ys (omega arith))

pub xor_bytes-IsBytes : (xs ys : List ℕ) → IsBytes xs → IsBytes ys → IsBytes (xor_bytes xs ys)
unfolding xor_bytes
xor_bytes-IsBytes [] ys h k = tt
xor_bytes-IsBytes (x ∷ xs) [] h k = tt
xor_bytes-IsBytes (x ∷ xs) (y ∷ ys) h k =
    (bit_xor-lt 8 x y h.0 k.0, xor_bytes-IsBytes xs ys h.1 k.1)

-- (x ^ a) ^ (x ^ b) is a ^ b.
pub xor_bytes_middle :
    (xs ps bs : List ℕ)
    → length ps ≡ length xs
    → length bs ≡ length xs
    → xor_bytes (xor_bytes xs ps) (xor_bytes xs bs) ≡ xor_bytes ps bs
unfolding xor_bytes
xor_bytes_middle [] [] bs p q = refl
xor_bytes_middle [] (a ∷ ps) bs p q = absurd (omega arith)
xor_bytes_middle (x ∷ xs) [] bs p q = refl
xor_bytes_middle (x ∷ xs) (a ∷ ps) [] p q = refl
xor_bytes_middle (x ∷ xs) (a ∷ ps) (b ∷ bs) p q =
    ap₂ ◌∷◌ (bit_xor_middle x a b) (xor_bytes_middle xs ps bs (omega arith) (omega arith))

xor_bytes_cancel : (xs ps : List ℕ) → length ps ≡ length xs → xor_bytes xs (xor_bytes xs ps) ≡ ps
unfolding xor_bytes
xor_bytes_cancel [] [] p = refl
xor_bytes_cancel [] (a ∷ ps) p = absurd (omega arith)
xor_bytes_cancel (x ∷ xs) [] p = absurd (omega arith)
xor_bytes_cancel (x ∷ xs) (a ∷ ps) p =
    ap₂ ◌∷◌ (bit_xor_cancel x a) (xor_bytes_cancel xs ps (omega arith))

xor_bytes_self : (xs : List ℕ) → xor_bytes xs xs ≡ replicate (length xs) 0
unfolding xor_bytes replicate
xor_bytes_self [] = refl
xor_bytes_self (x ∷ xs) = ap₂ ◌∷◌ (bit_xor_self x) (xor_bytes_self xs)

pub distance_comm : (a b : Key) → distance a b ≡ distance b a
unfolding distance
distance_comm a b = xor_bytes_comm a.value b.value

pub distance_self : (a : Key) → IsKey a → distance a a ≡ replicate K 0
unfolding distance
distance_self a v = xor_bytes_self a.value ∙ ap (λ n. replicate n 0) v.len

-- The distance is itself a key, and adding it to one end gives the other.
pub distance_cancel :
    (a b : Key) → IsKey a → IsKey b → distance a (record { value = distance a b }) ≡ b.value
unfolding distance
distance_cancel a b v w = xor_bytes_cancel a.value b.value (omega (arith, v.len, w.len))

-- No two keys of K bytes lie at the same distance from a key of K bytes.
pub distance-injective :
    (a b c : Key) → IsKey a → IsKey b → IsKey c → distance a b ≡ distance a c → b ≡ c
distance-injective a b c v w u h =
    ap (λ v. record { value = v })
      (sym (distance_cancel a b v w)
        ∙ ap (λ d. distance a (record { value = d })) h
        ∙ distance_cancel a c v u)

-- The distance from a key of K bytes is zero in every byte for the key itself and for no other key
-- of K bytes.
pub distance-zero_iff : (a b : Key) → IsKey a → IsKey b → (distance a b ≡ replicate K 0) ↔ (a ≡ b)
distance-zero_iff a b v w = (
  λ h. distance-injective a a b v v w (distance_self a v ∙ sym h),
  λ p. subst (λ c. distance a c ≡ replicate K 0) p (distance_self a v),
)

pub distance-IsKey : (a b : Key) → IsKey a → IsKey b → IsKey (record { value = distance a b })
unfolding distance
distance-IsKey a b v w = record {
  len = length-xor_bytes a.value b.value (omega (arith, v.len, w.len)) ∙ v.len;
  bytes = xor_bytes-IsBytes a.value b.value v.bytes w.bytes;
}
