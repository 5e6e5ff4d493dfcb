-- ===== src/Key/Hex.antt =====
-- The hexadecimal form of keys (`to_hex_string`, `from_hex_str` of src/core/key.rs). Keys are shown
-- to users, sent in messages and used as file names in it.
use rust_p2p_filesystem.Base.{
  ℕ, ◌+◌, ◌*◌, ◌/◌, ◌%◌, ◌<◌, ◌≡◌, refl, ap, List, [], ◌∷◌, arith, length, Option, some,
}
use mathlib.Core.Option
use rust_p2p_filesystem.Base.Outcome.{ok}
use rust_p2p_filesystem.Constants.{K}
use rust_p2p_filesystem.Key.{
  Key, IsKey, IsBytes, ok, hex_digit, hex_bytes, to_hex_string, from_hex_str,
}

-- What is documented of `hex::decode`: two digits make a byte, and lower case is accepted.
pub record DecodesHex (decode : List ℕ → Option (List ℕ)) : Type 0 where
  pub on_empty : decode [] ≡ some []
  pub on_pair :
      (hi lo : ℕ) (rest : List ℕ)
      → hi < 16
      → lo < 16
      → decode (hex_digit hi ∷ hex_digit lo ∷ rest)
        ≡ Option.map (λ bs. (hi * 16 + lo) ∷ bs) (decode rest)

length-hex_bytes : (bs : List ℕ) → length (hex_bytes bs) ≡ length bs * 2
unfolding hex_bytes
length-hex_bytes [] = refl
length-hex_bytes (b ∷ bs) = omega (arith, length-hex_bytes bs)

hex_digit-injective : (c d : ℕ) → c < 16 → d < 16 → hex_digit c ≡ hex_digit d → c ≡ d
unfolding hex_digit
hex_digit-injective c d p q h = ground arith

hex_bytes-injective :
    (xs ys : List ℕ) → IsBytes xs → IsBytes ys → hex_bytes xs ≡ hex_bytes ys → xs ≡ ys
unfolding hex_bytes
hex_bytes-injective [] [] v w h = refl
hex_bytes-injective [] (y ∷ ys) v w h = cc
hex_bytes-injective (x ∷ xs) [] v w h = cc
hex_bytes-injective (x ∷ xs) (y ∷ ys) v w h = ground (
  arith,
  hex_digit-injective (x / 16) (y / 16) (omega (arith, v.0)) (omega (arith, w.0)),
  hex_digit-injective (x % 16) (y % 16) (omega arith) (omega arith),
  hex_bytes-injective xs ys v.1 w.1,
)

-- Different keys of K bytes have different strings, so that no two chunks share a file.
pub to_hex_string-injective :
    (a b : Key) → IsKey a → IsKey b → to_hex_string a ≡ to_hex_string b → a ≡ b
unfolding to_hex_string
to_hex_string-injective a b v w h =
    ap (λ t. record { value = t }) (hex_bytes-injective a.value b.value v.bytes w.bytes h)

pub decode-hex_bytes :
    (decode : List ℕ → Option (List ℕ))
    → DecodesHex decode
    → (bs : List ℕ) → IsBytes bs
    → decode (hex_bytes bs) ≡ some bs
unfolding hex_bytes
decode-hex_bytes decode d [] v = d.on_empty
decode-hex_bytes decode d (b ∷ bs) v =
    rw
      (
        d.on_pair (b / 16) (b % 16) (hex_bytes bs) (omega (arith, v.0)) (omega arith),
        decode-hex_bytes decode d bs v.1,
      )
      (ap some (ap (λ t. t ∷ bs) (omega arith)))

-- With a decoder that reads two digits as a byte, reading back the string of a key of K bytes gives
-- the key.
pub from_hex_str-to_hex_string :
    (decode : List ℕ → Option (List ℕ))
    → DecodesHex decode
    → (k : Key) → IsKey k
    → from_hex_str decode (to_hex_string k) ≡ ok k
unfolding to_hex_string from_hex_str
from_hex_str-to_hex_string decode d k v =
    ground (arith, decode-hex_bytes decode d k.value v.bytes, length-hex_bytes k.value, v.len)

-- Whatever the decoder does, an accepted string has two characters for each byte, and the key that
-- is read has `K` bytes.
pub from_hex_str-ok :
    (decode : List ℕ → Option (List ℕ)) (text : List ℕ) (k : Key)
    → from_hex_str decode text ≡ ok k
    → (length text ≡ K * 2) × (length k.value ≡ K) × (decode text ≡ some k.value)
unfolding from_hex_str
from_hex_str-ok decode text k h = ground arith
