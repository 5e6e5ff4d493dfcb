-- ===== src/Sharding/Metadata/Handle.antt =====
-- Writing and reading the file handles of src/sharding/common.rs.
use rust_p2p_filesystem.Base.{ℕ, ◌≡◌, refl, List, Option, none, some, subst, ap}
use rust_p2p_filesystem.Base.Outcome.{ok}
use rust_p2p_filesystem.Key.{IsBytes, hex_bytes}
use rust_p2p_filesystem.Key.Hex.{DecodesHex, decode-hex_bytes}
use rust_p2p_filesystem.Sharding.Metadata.{FileMetadata, Bincode, to_string, from_str, deserialized}

-- What is documented of the serialisation: it makes bytes, and they are read back.
pub record IsBincode (b : Bincode) : Type 0 where
  pub makes_bytes :
      (metadata : FileMetadata) (bytes : List ℕ) → b.serialize metadata ≡ some bytes → IsBytes bytes
  pub reads_back :
      (metadata : FileMetadata) (bytes : List ℕ)
      → b.serialize metadata ≡ some bytes
      → b.deserialize bytes ≡ some metadata

-- With a serialisation that makes bytes and reads them back, and a decoder that reads two digits as
-- a byte, the handle that is shown for a file is read back to its metadata.
pub from_str-to_string :
    (b : Bincode) (hex_decode : List ℕ → Option (List ℕ))
    → IsBincode b
    → DecodesHex hex_decode
    → (metadata : FileMetadata) (handle : List ℕ) → to_string b metadata ≡ some handle
    → from_str b hex_decode handle ≡ ok metadata
unfolding to_string from_str
from_str-to_string b hex_decode v d metadata handle h = go (b.serialize metadata) refl
  where
    text : Option (List ℕ) → List ℕ
    text none = handle
    text (some t) = t

    go :
        (o : Option (List ℕ))
        → b.serialize metadata ≡ o
        → from_str b hex_decode handle ≡ ok metadata
    go none e = absurd (cc (rw (e, to_string) at h))
    go (some bytes) e =
        let same : hex_bytes bytes ≡ handle = ap text (rw (e, to_string) at h) in
        subst (λ s. from_str b hex_decode s ≡ ok metadata) same
          (rw
            (
              from_str,
              decode-hex_bytes hex_decode d bytes (v.makes_bytes metadata bytes e),
              v.reads_back metadata bytes e,
              deserialized,
            )
            refl)
