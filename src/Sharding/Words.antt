-- ===== src/Sharding/Words.antt =====
-- `u32::to_le_bytes` and `u32::from_le_bytes`.
use rust_p2p_filesystem.Base.{
  ℕ, ◌+◌, ◌*◌, ◌/◌, ◌%◌, ◌^◌, ◌<◌, ◌≡◌, List, [], ◌∷◌, Option, none, some, arith, length,
}

unfoldable pub to_le_bytes : ℕ → List ℕ
to_le_bytes n = n % 256 ∷ (n / 256) % 256 ∷ (n / 65536) % 256 ∷ (n / 16777216) % 256 ∷ []

-- None unless there are four bytes (`try_into`).
unfoldable pub from_le_bytes : List ℕ → Option ℕ
from_le_bytes (a ∷ b ∷ c ∷ d ∷ []) = some (a + b * 256 + c * 65536 + d * 16777216)
from_le_bytes _ = none

pub from_le_bytes-to_le_bytes : (n : ℕ) → n < 2 ^ 32 → from_le_bytes (to_le_bytes n) ≡ some n
unfolding to_le_bytes from_le_bytes
from_le_bytes-to_le_bytes n h = ground arith

pub length-to_le_bytes : (n : ℕ) → length (to_le_bytes n) ≡ 4
unfolding to_le_bytes
length-to_le_bytes n = omega arith
