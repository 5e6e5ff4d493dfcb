-- ===== src/Key.antt =====
-- src/core/key.rs: the identifiers of nodes and chunks. `Key` is a record of its bytes, `IsKey`
-- says that there are `K` of them. The hexadecimal decoder (crate hex), the hash (crate sha1) and
-- the random generator are parameters.
pub mod Xor
pub mod Byte
pub mod Metric
pub mod Order
pub mod Leading
pub mod Hex
pub mod Bits
use Prim.Native.Nat.{compare, Ordering, bit_xor}
use Byte.{clz8}
use rust_p2p_filesystem.Base.{
  ℕ, ◌+◌, ◌-◌, ◌*◌, ◌/◌, ◌%◌, ◌<◌, ◌≡◌, refl, Bool, true, false, not, Option, none, some, List, [],
  ◌∷◌, ◌++◌, arith, ltb, nat_beq, if◌then◌else◌, length, take, All, Eq, nat_eq, list_beq,
  list_beq_iff, ap, ◌↔◌,
}
use rust_p2p_filesystem.Base.Outcome.{Result, ok, err}
use rust_p2p_filesystem.Constants.{K}

pub data KeyError : Type 0 where
  invalid_hex_length : ℕ → KeyError
  decode_hex_error : KeyError
  wrong_hex_string_length : ℕ → ℕ → KeyError

pub record Key : Type 0 where
  pub value : List ℕ

abbrev pub IsBytes : List ℕ → Type 0
IsBytes = All (λ b. b < 256)

-- What the type `[u8; K]` of the source gives.
pub record IsKey (k : Key) : Type 0 where
  pub len : length k.value ≡ K
  pub bytes : IsBytes k.value

unfoldable pub key_beq : Key → Key → Bool
key_beq a b = list_beq a.value b.value

pub key_beq_iff : (a b : Key) → (key_beq a b ≡ true) ↔ (a ≡ b)
unfolding key_beq
key_beq_iff a b = (
  λ h. ap (λ v. record { value = v }) ((list_beq_iff a.value b.value).0 h),
  λ p. (list_beq_iff a.value b.value).1 (ap (λ k. k.value) p),
)

instance abbrev pub key_eq : Eq Key
key_eq = record { beq = key_beq; beq_iff = key_beq_iff }

unfoldable pub from_bytes : List ℕ → Key
from_bytes bytes = record { value = bytes }

-- `decode` is `hex::decode`; none is its error.
unfoldable pub from_hex_str : (List ℕ → Option (List ℕ)) → List ℕ → Result KeyError Key
from_hex_str decode hex_str =
    if not (nat_beq (length hex_str) (K * 2))
    then err (wrong_hex_string_length (K * 2) (length hex_str))
    else elim (decode hex_str) [
      | some decoded ↦
          if not (nat_beq (length decoded) K)
          then err (invalid_hex_length (length decoded))
          else ok (record { value = decoded })
      | none ↦ err decode_hex_error
    ]

-- The digest is cut to the length of a key.
unfoldable pub from_input : (List ℕ → List ℕ) → List ℕ → Key
from_input sha1 input = record { value = take K (sha1 input) }

-- `{:x}` of a digit, as a character.
unfoldable pub hex_digit : ℕ → ℕ
hex_digit d = if ltb d 10 then b'0' + d else b'a' + (d - 10)

-- `write!(f, "{:02x}", byte)` for each byte.
unfoldable pub hex_bytes : List ℕ → List ℕ
hex_bytes [] = []
hex_bytes (b ∷ bs) = hex_digit (b / 16) ∷ hex_digit (b % 16) ∷ hex_bytes bs

unfoldable pub to_hex_string : Key → List ℕ
unfolding hex_bytes
to_hex_string k = hex_bytes k.value

-- Byte by byte; the source's loop runs over the positions of both arrays.
unfoldable pub xor_bytes : List ℕ → List ℕ → List ℕ
xor_bytes [] ys = []
xor_bytes (x ∷ xs) [] = []
xor_bytes (x ∷ xs) (y ∷ ys) = bit_xor x y ∷ xor_bytes xs ys

unfoldable pub distance : Key → Key → List ℕ
distance a b = xor_bytes a.value b.value

-- The loop over the bytes of the distance; a byte that is not zero ends it.
unfoldable pub count_zeros : ℕ → List ℕ → ℕ
count_zeros count [] = count
count_zeros count (b ∷ bs) = if nat_beq b 0 then count_zeros (count + 8) bs else count + clz8 b

unfoldable pub leading_zeros_in_distance : Key → Key → ℕ
leading_zeros_in_distance a b = count_zeros 0 (distance a b)

-- `Ord` of byte arrays: the first difference decides.
unfoldable pub cmp_bytes : List ℕ → List ℕ → Ordering
cmp_bytes [] [] = Ordering.eq
cmp_bytes [] (y ∷ ys) = Ordering.lt
cmp_bytes (x ∷ xs) [] = Ordering.gt
cmp_bytes (x ∷ xs) (y ∷ ys) = elim (compare x y) [
  | Ordering.lt ↦ Ordering.lt
  | Ordering.eq ↦ cmp_bytes xs ys
  | Ordering.gt ↦ Ordering.gt
]

unfoldable pub cmp : Key → Key → Ordering
cmp a b = cmp_bytes a.value b.value

abbrev pub is_le : Ordering → Bool
is_le Ordering.lt = true
is_le Ordering.eq = true
is_le Ordering.gt = false

abbrev pub is_lt : Ordering → Bool
is_lt Ordering.lt = true
is_lt Ordering.eq = false
is_lt Ordering.gt = false
