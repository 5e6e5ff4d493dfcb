-- ===== src/Tests/Keys.antt =====
-- The theorems about keys at concrete keys.
use rust_p2p_filesystem.Base.{
  ℕ, ◌+◌, ◌*◌, ◌-◌, ◌<◌, ◌≡◌, refl, true, List, [], ◌∷◌, Option, none, some, if◌then◌else◌, ltb,
  arith,
}
use mathlib.Core.Option
use rust_p2p_filesystem.Base.Outcome.{ok}
use rust_p2p_filesystem.Key.{
  Key, IsKey, distance, leading_zeros_in_distance, to_hex_string, from_hex_str, hex_digit,
}
use rust_p2p_filesystem.Key
use rust_p2p_filesystem.Key.Byte
use rust_p2p_filesystem.Key.Order.{bytes_lt}
use rust_p2p_filesystem.Key.Leading.{leading_zeros-closer}
use rust_p2p_filesystem.Key.Hex.{DecodesHex, from_hex_str-to_hex_string}
use rust_p2p_filesystem.Tests.Data.{key_of, key_of-IsKey}

fewer_zeros :
    leading_zeros_in_distance (key_of 0) (key_of 128)
    < leading_zeros_in_distance (key_of 0) (key_of 1)
unfolding leading_zeros_in_distance Key.count_zeros distance Key.xor_bytes Byte.clz8
fewer_zeros = omega arith

leading_zeros-closer_example :
    bytes_lt (distance (key_of 0) (key_of 1)) (distance (key_of 0) (key_of 128)) ≡ true
leading_zeros-closer_example =
    leading_zeros-closer (key_of 0) (key_of 128) (key_of 1) (key_of-IsKey 0 (omega arith))
      (key_of-IsKey 128 (omega arith)) (key_of-IsKey 1 (omega arith)) fewer_zeros

-- A decoder of lower-case digits.
abbrev undigit : ℕ → ℕ
undigit c = if ltb c 58 then c - 48 else c - 87

unfoldable pub decode : List ℕ → Option (List ℕ)
decode [] = some []
decode (c ∷ []) = none
decode (c ∷ d ∷ rest) = Option.map (λ bs. (undigit c * 16 + undigit d) ∷ bs) (decode rest)

undigit-hex_digit : (h : ℕ) → h < 16 → undigit (hex_digit h) ≡ h
unfolding hex_digit
undigit-hex_digit h lt = ground arith

pub decode-DecodesHex : DecodesHex decode
unfolding decode
decode-DecodesHex = record {
  on_empty = refl;
  on_pair = λ hi lo rest p q. rw (undigit-hex_digit hi p, undigit-hex_digit lo q) refl;
}

from_hex_str-to_hex_string_example :
    from_hex_str decode (to_hex_string (key_of 171)) ≡ ok (key_of 171)
from_hex_str-to_hex_string_example =
    from_hex_str-to_hex_string decode decode-DecodesHex (key_of 171)
      (key_of-IsKey 171 (omega arith))
