-- ===== src/Key/Byte.antt =====
-- `u8::leading_zeros` of the standard library, and how it goes with the exclusive or of two bytes.
use Prim.Native.Nat.{bit_xor}
use rust_p2p_filesystem.Base.{
  ℕ, zero, suc, ◌<◌, ◌≡◌, refl, Bool, true, ◌&&◌, arith, ltb, nat_beq, if◌then◌else◌, min, ◌≤◌, ◌≢◌,
}

unfoldable pub clz8 : ℕ → ℕ
clz8 x =
    if ltb x 16
    then (if ltb x 4
        then (if ltb x 2 then (if ltb x 1 then 8 else 7) else 6)
        else (if ltb x 8 then 5 else 4))
    else (if ltb x 64 then (if ltb x 32 then 3 else 2) else (if ltb x 128 then 1 else 0))

every_byte : (ℕ → Bool) → ℕ → Bool
every_byte test zero = true
every_byte test (suc bound) = every_byte test bound && test bound

every_byte_lem :
    (test : ℕ → Bool) (bound b : ℕ) → b < bound → every_byte test bound ≡ true → test b ≡ true
unfolding every_byte
every_byte_lem test zero b below passed = absurd (omega arith)
every_byte_lem test (suc bound) b below passed = ground (arith, every_byte_lem test bound b)

pair_test : ℕ → ℕ → Bool
pair_test u v =
    let c = clz8 (bit_xor u v) in
    if nat_beq (clz8 u) (clz8 v)
    then (if nat_beq u 0 then true else ltb (clz8 u) c)
    else nat_beq c (min (clz8 u) (clz8 v))

table : every_byte (λ u. every_byte (pair_test u) 256) 256 ≡ true
unfolding every_byte pair_test clz8
table = refl

pair_sound : (u v : ℕ) → u < 256 → v < 256 → pair_test u v ≡ true
pair_sound u v h k =
    every_byte_lem (pair_test u) 256 v k
      (every_byte_lem (λ x. every_byte (pair_test x) 256) 256 u h table)

pub clz8-le : (u : ℕ) → clz8 u ≤ 8
unfolding clz8
clz8-le u = ground arith

pub clz8-zero : clz8 0 ≡ 8
unfolding clz8
clz8-zero = refl

pub clz8-lt_eight : (u : ℕ) → u ≢ 0 → clz8 u < 8
unfolding clz8
clz8-lt_eight u h = ground arith

-- Bytes with the same leading zeros agree on the bit after them.
pub clz8_agree :
    (u v : ℕ) → u < 256 → v < 256 → u ≢ 0 → clz8 u ≡ clz8 v → clz8 u < clz8 (bit_xor u v)
unfolding pair_test
clz8_agree u v h k z e = ground (arith, pair_sound u v h k)

-- With different leading zeros the fewer remain.
pub clz8_differ : (u v : ℕ) → u < 256 → v < 256 → clz8 u < clz8 v → clz8 (bit_xor u v) ≡ clz8 u
unfolding pair_test
clz8_differ u v h k e = ground (arith, pair_sound u v h k)

-- More leading zeros make a smaller number.
pub clz8-lt : (u v : ℕ) → clz8 u < clz8 v → v < u
unfolding clz8
clz8-lt u v h = ground arith
