-- ===== src/Key/Bits.antt =====
-- `make_exactly_n_same_leading_bits_as` of src/core/key.rs, with which the routing table draws keys
-- for one of its buckets. Bytes are below 256, so `!mask` is `255 - mask`.
use Prim.Native.Nat.{bit_and, bit_or}
use rust_p2p_filesystem.Base.{
  ℕ, zero, suc, ◌+◌, ◌-◌, ◌^◌, List, ltb, leb, if◌then◌else◌, get_elem?, set,
}
use mathlib.Core.Option
use rust_p2p_filesystem.Constants.{K}
use rust_p2p_filesystem.Key.{Key}

-- A byte of a key; the positions that are used lie in the array.
abbrev byte_at : List ℕ → ℕ → ℕ
byte_at v i = Option.get_or (get_elem? v i) 0

-- The mask of the `n` highest bits: `1u8 << (7 - bit_i)` for each `bit_i` below `n`.
unfoldable pub high_mask : ℕ → ℕ
high_mask zero = 0
high_mask (suc n) = bit_or (high_mask n) (2 ^ (7 - n))

-- `mask & your_byte | my_byte & !mask`
unfoldable pub blend : ℕ → ℕ → ℕ → ℕ
blend mask yours mine = bit_or (bit_and mask yours) (bit_and mine (255 - mask))

pub record Cursor : Type 0 where
  pub value : List ℕ
  pub n_bits : ℕ
  pub byte_i : ℕ

-- One round of the first loop.
unfoldable pub copy_step : Key → Cursor → Cursor
unfolding high_mask blend
copy_step key c =
    if leb 8 c.n_bits
    then record {
      value = set c.value c.byte_i (byte_at key.value c.byte_i);
      n_bits = c.n_bits - 8;
      byte_i = c.byte_i + 1;
    }
    else record c {
      value =
          set c.value c.byte_i
            (blend (high_mask c.n_bits) (byte_at key.value c.byte_i) (byte_at c.value c.byte_i));
    }

unfoldable pub copy_loop : ℕ → Key → Cursor → Cursor
unfolding copy_step
copy_loop zero key c = c
copy_loop (suc rounds) key c = copy_loop rounds key (copy_step key c)

-- The bit after the copied ones is set to the inverse of the other key's.
unfoldable pub flip_next : Key → Cursor → Key
flip_next key c =
    if ltb c.byte_i K
    then (let mask = 2 ^ (7 - c.n_bits) in
        record {
          value = set c.value c.byte_i (
              bit_or (bit_and mask (255 - byte_at key.value c.byte_i))
                (bit_and (byte_at c.value c.byte_i) (255 - mask)));
        })
    else record { value = c.value }

unfoldable pub make_exactly_n_same_leading_bits_as : Key → Key → ℕ → Key
unfolding copy_loop flip_next
make_exactly_n_same_leading_bits_as self key n_bits =
    flip_next key (copy_loop K key (record { value = self.value; n_bits = n_bits; byte_i = 0 }))
