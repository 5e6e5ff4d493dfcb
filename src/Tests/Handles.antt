-- ===== src/Tests/Handles.antt =====
-- File handles that are read back.
use rust_p2p_filesystem.Base.{
  ℕ, ◌≡◌, refl, sym, ap, ◌∙◌, Bool, true, ◌&&◌, List, [], ◌∷◌, Option, none, some, arith, list_beq,
  list_beq_iff, is_empty, if◌then◌else◌, nat_eq, Bool-cases, inl, inr, subst, All, ◌<◌,
}
use rust_p2p_filesystem.Base.Outcome.{ok}
use rust_p2p_filesystem.Key
use rust_p2p_filesystem.Sharding.Metadata.{FileMetadata, Bincode, to_string, from_str}
use rust_p2p_filesystem.Sharding.Metadata.Handle.{IsBincode, from_str-to_string}
use rust_p2p_filesystem.Tests.Keys.{decode, decode-DecodesHex}

abbrev sample : FileMetadata
sample = record { name = 7 ∷ []; encryption_key = []; chunks_metadata = [] }

-- A serialisation that knows the sample only.
abbrev is_sample : FileMetadata → Bool
is_sample m = list_beq m.name (7 ∷ []) && (is_empty m.encryption_key && is_empty m.chunks_metadata)

abbrev bincode : Bincode
bincode = record {
  serialize = λ m. if is_sample m then some (7 ∷ []) else none;
  deserialize = λ bytes. some sample;
}

no_element {ℓ} : {A : Type ℓ} (xs : List A) → is_empty xs ≡ true → xs ≡ []
no_element [] h = refl
no_element (x ∷ xs) h = absurd (cc)

sample_lem : (m : FileMetadata) → is_sample m ≡ true → sample ≡ m
sample_lem m h =
    let named : m.name ≡ 7 ∷ [] = (list_beq_iff m.name (7 ∷ [])).0 (ground arith) in
    let no_key = no_element m.encryption_key (ground arith) in
    let no_chunks = no_element m.chunks_metadata (ground arith) in
    ap (λ n. record sample { name = n }) (sym named)
    ∙ ap (λ k. record sample { name = m.name; encryption_key = k }) (sym no_key)
    ∙ ap (λ c. record m { chunks_metadata = c }) (sym no_chunks)

serialized_of : Option (List ℕ) → List ℕ
serialized_of (some bytes) = bytes
serialized_of none = []

bincode-IsBincode : IsBincode bincode
unfolding serialized_of
bincode-IsBincode = record {
  makes_bytes = λ m bytes h. elim (Bool-cases (is_sample m)) [
    | inl fits ↦ subst (All (λ b. b < 256)) (ap serialized_of (rw fits at h)) (omega arith, tt)
    | inr other ↦ absurd (cc (rw other at h))
  ];
  reads_back = λ m bytes h. elim (Bool-cases (is_sample m)) [
    | inl fits ↦ ap some (sample_lem m fits)
    | inr other ↦ absurd (cc (rw other at h))
  ];
}

handle-sample : to_string bincode sample ≡ some (48 ∷ 55 ∷ [])
unfolding to_string list_beq Key.hex_digit
handle-sample = refl

from_str-to_string_example : from_str bincode decode (48 ∷ 55 ∷ []) ≡ ok sample
from_str-to_string_example =
    from_str-to_string bincode decode bincode-IsBincode decode-DecodesHex sample (48 ∷ 55 ∷ [])
      handle-sample
