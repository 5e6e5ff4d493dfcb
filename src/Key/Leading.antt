-- ===== src/Key/Leading.antt =====
-- Leading zeros of XOR distances (src/core/key.rs): three keys and the bits at which two of them
-- part.
use Prim.Native.Nat.{bit_xor}
use rust_p2p_filesystem.Base.{
  ℕ, zero, suc, ◌+◌, ◌*◌, ◌<◌, ◌≤◌, ◌≡◌, refl, sym, ap, ap₂, ◌∙◌, ◌↔◌, List, [], ◌∷◌, arith, length,
  true, inl, inr, ◌⊎◌, replicate, ◌≢◌, ℕ_discrete,
}
use rust_p2p_filesystem.Constants.{K}
use rust_p2p_filesystem.Key.{
  Key, IsKey, IsBytes, distance, xor_bytes, count_zeros, leading_zeros_in_distance, cmp_bytes,
}
use rust_p2p_filesystem.Key.Byte.{
  clz8, clz8-le, clz8-lt_eight, clz8-zero, clz8_agree, clz8_differ, clz8-lt,
}
use rust_p2p_filesystem.Key.Order.{bytes_lt}
use rust_p2p_filesystem.Key.Xor.{zero-bit_xor, bit_xor-zero}
use rust_p2p_filesystem.Key.Metric.{
  xor_bytes_comm, xor_bytes_middle, distance_comm, distance-zero_iff, distance-IsKey,
}

-- The counter is added up.
count_zeros_add : (n : ℕ) (bs : List ℕ) → count_zeros n bs ≡ n + count_zeros 0 bs
unfolding count_zeros
count_zeros_add n [] = omega arith
count_zeros_add n (b ∷ bs) = ground (arith, count_zeros_add (n + 8) bs, count_zeros_add 8 bs)

-- The number of leading zeros, without the counter.
abbrev pub zeros : List ℕ → ℕ
zeros bs = count_zeros 0 bs

zeros_zero : (bs : List ℕ) → zeros (0 ∷ bs) ≡ 8 + zeros bs
unfolding count_zeros
zeros_zero bs = count_zeros_add 8 bs

zeros_byte : (b : ℕ) (bs : List ℕ) → b ≢ 0 → zeros (b ∷ bs) ≡ clz8 b
unfolding count_zeros
zeros_byte b bs h = ground arith

zeros-cons :
    (b : ℕ) (bs : List ℕ)
    → ((b ≡ 0) × (zeros (b ∷ bs) ≡ 8 + zeros bs)) ⊎ ((b ≢ 0) × (zeros (b ∷ bs) ≡ clz8 b))
zeros-cons b bs = elim (ℕ_discrete b 0) [
  | yes h ↦ inl (h, rw h (zeros_zero bs))
  | no h ↦ inr (h, zeros_byte b bs h)
]

pub zeros-le : (bs : List ℕ) → zeros bs ≤ 8 * length bs
unfolding count_zeros
zeros-le [] = omega arith
zeros-le (b ∷ bs) = omega (arith, zeros-cons b bs, zeros-le bs, clz8-le b)

-- Bytes of which not one is zero in its place.
zeros_full : (bs : List ℕ) → IsBytes bs → zeros bs ≡ 8 * length bs → bs ≡ replicate (length bs) 0
unfolding replicate
zeros_full [] v h = refl
zeros_full (b ∷ bs) v h = elim (zeros-cons b bs) [
  | inl (z, e) ↦ ap₂ ◌∷◌ z (zeros_full bs v.1 (omega arith))
  | inr (z, e) ↦ absurd (omega (arith, clz8-lt_eight b z))
]

zeros-replicate : (n : ℕ) → zeros (replicate n 0) ≡ 8 * n
unfolding replicate count_zeros
zeros-replicate zero = refl
zeros-replicate (suc n) = omega (arith, zeros_zero (replicate n 0), zeros-replicate n)

-- Two byte arrays with the same leading zeros agree on the bit after them.
zeros_agree :
    (us vs : List ℕ)
    → IsBytes us
    → IsBytes vs
    → length us ≡ length vs
    → zeros us ≡ zeros vs
    → zeros us < 8 * length us
    → zeros us < zeros (xor_bytes us vs)
unfolding xor_bytes
zeros_agree [] vs h k l e lt = absurd (omega arith)
zeros_agree (u ∷ us) [] h k l e lt = absurd (omega arith)
zeros_agree (u ∷ us) (v ∷ vs) h k l e lt = ground (
  arith,
  zeros-cons u us,
  zeros-cons v vs,
  zeros-cons (bit_xor u v) (xor_bytes us vs),
  zero-bit_xor v,
  clz8_agree u v h.0 k.0,
  clz8-lt_eight u,
  clz8-lt_eight v,
  zeros_agree us vs h.1 k.1,
)

-- With different leading zeros the fewer remain.
zeros_differ :
    (us vs : List ℕ)
    → IsBytes us
    → IsBytes vs
    → length us ≡ length vs
    → zeros us < zeros vs
    → zeros (xor_bytes us vs) ≡ zeros us
unfolding xor_bytes
zeros_differ [] [] h k l lt = absurd (omega arith)
zeros_differ [] (v ∷ vs) h k l lt = absurd (omega arith)
zeros_differ (u ∷ us) [] h k l lt = absurd (omega arith)
zeros_differ (u ∷ us) (v ∷ vs) h k l lt = ground (
  arith,
  zeros-cons u us,
  zeros-cons v vs,
  zeros-cons (bit_xor u v) (xor_bytes us vs),
  zero-bit_xor v,
  bit_xor-zero u,
  clz8_differ u v h.0 k.0,
  clz8-lt_eight u,
  clz8-lt_eight v,
  clz8-zero,
  zeros_differ us vs h.1 k.1,
)

-- More leading zeros make a smaller array.
pub zeros-bytes_lt :
    (us vs : List ℕ)
    → IsBytes us
    → IsBytes vs
    → length us ≡ length vs
    → zeros us < zeros vs
    → bytes_lt vs us ≡ true
unfolding cmp_bytes
zeros-bytes_lt [] [] h k l lt = absurd (omega arith)
zeros-bytes_lt [] (v ∷ vs) h k l lt = absurd (omega arith)
zeros-bytes_lt (u ∷ us) [] h k l lt = absurd (omega arith)
zeros-bytes_lt (u ∷ us) (v ∷ vs) h k l lt = ground (
  arith,
  zeros-cons u us,
  zeros-cons v vs,
  clz8-lt u v,
  clz8-lt_eight v,
  zeros-bytes_lt us vs h.1 k.1,
)

module _ (a b : Key) (v : IsKey a) (w : IsKey b) where
  length-distance : length (distance a b) ≡ K
  length-distance = (distance-IsKey a b v w).len

  lz_zeros : leading_zeros_in_distance a b ≡ zeros (distance a b)
  unfolding leading_zeros_in_distance
  lz_zeros = refl

  -- For keys of K bytes, the number of leading zeros of their distance is at most the number of
  -- bits of a key, and reaches it exactly when the keys are the same.
  pub leading_zeros-bounds :
      (leading_zeros_in_distance a b ≤ K * 8) × ((leading_zeros_in_distance a b ≡ K * 8) ↔ (a ≡ b))
  leading_zeros-bounds = (
    omega (arith, lz_zeros, zeros-le (distance a b), length-distance),
    (
      λ h. (distance-zero_iff a b v w).0 (
          zeros_full (distance a b) (distance-IsKey a b v w).bytes
            (omega (arith, lz_zeros, length-distance, h))
          ∙ ap (λ n. replicate n 0) length-distance),
      λ p. omega (arith, lz_zeros, ap zeros ((distance-zero_iff a b v w).1 p), zeros-replicate K),
    ),
  )

  pub leading_zeros_comm : leading_zeros_in_distance a b ≡ leading_zeros_in_distance b a
  unfolding leading_zeros_in_distance
  leading_zeros_comm = ap zeros (distance_comm a b)

module _ (s t x : Key) (vs : IsKey s) (vt : IsKey t) (vx : IsKey x) where
  middle : xor_bytes (distance s t) (distance s x) ≡ distance t x
  unfolding distance
  middle =
      xor_bytes_middle s.value t.value x.value (omega (arith, vs.len, vt.len))
        (omega (arith, vs.len, vx.len))

  same_length : length (distance s t) ≡ length (distance s x)
  same_length = omega (arith, length-distance s t vs vt, length-distance s x vs vx)

  -- Two keys that leave `s` at the same bit share that bit and all before it.
  pub leading_zeros_agree :
      leading_zeros_in_distance s t ≡ leading_zeros_in_distance s x
      → leading_zeros_in_distance s t < K * 8
      → leading_zeros_in_distance s t < leading_zeros_in_distance t x
  leading_zeros_agree e lt = omega (
    arith,
    lz_zeros s t vs vt,
    lz_zeros s x vs vx,
    lz_zeros t x vt vx,
    length-distance s t vs vt,
    ap zeros middle,
    zeros_agree (distance s t) (distance s x) (distance-IsKey s t vs vt).bytes
        (distance-IsKey s x vs vx).bytes same_length
        (omega (arith, lz_zeros s t vs vt, lz_zeros s x vs vx))
        (omega (arith, lz_zeros s t vs vt, length-distance s t vs vt)),
  )

  -- A key that leaves `s` before `t` does differs from `t` at that bit first.
  pub leading_zeros_differ :
      leading_zeros_in_distance s x < leading_zeros_in_distance s t
      → leading_zeros_in_distance t x ≡ leading_zeros_in_distance s x
  leading_zeros_differ lt = omega (
    arith,
    lz_zeros s x vs vx,
    lz_zeros t x vt vx,
    ap zeros middle,
    ap zeros (xor_bytes_comm (distance s t) (distance s x)),
    zeros_differ (distance s x) (distance s t) (distance-IsKey s x vs vx).bytes
        (distance-IsKey s t vs vt).bytes (sym same_length)
        (omega (arith, lz_zeros s t vs vt, lz_zeros s x vs vx)),
  )

  pub leading_zeros_differ' :
      leading_zeros_in_distance s t < leading_zeros_in_distance s x
      → leading_zeros_in_distance t x ≡ leading_zeros_in_distance s t
  leading_zeros_differ' lt = omega (
    arith,
    lz_zeros s t vs vt,
    lz_zeros t x vt vx,
    ap zeros middle,
    zeros_differ (distance s t) (distance s x) (distance-IsKey s t vs vt).bytes
        (distance-IsKey s x vs vx).bytes same_length
        (omega (arith, lz_zeros s t vs vt, lz_zeros s x vs vx)),
  )

  -- For keys of K bytes, more leading zeros in the distance to a key mean a smaller distance to it.
  pub leading_zeros-closer :
      leading_zeros_in_distance s t < leading_zeros_in_distance s x
      → bytes_lt (distance s x) (distance s t) ≡ true
  leading_zeros-closer lt =
      zeros-bytes_lt (distance s t) (distance s x) (distance-IsKey s t vs vt).bytes
        (distance-IsKey s x vs vx).bytes same_length
        (omega (arith, lz_zeros s t vs vt, lz_zeros s x vs vx))
