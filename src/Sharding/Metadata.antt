-- ===== src/Sharding/Metadata.antt =====
-- src/sharding/common.rs. A file handle is the hexadecimal form of the serialised metadata; the
-- serialisation (crate bincode) and the decoder (crate hex) are parameters.
pub mod Handle
use rust_p2p_filesystem.Base.{ℕ, List, Option, none, some}
use rust_p2p_filesystem.Base.Outcome.{Result, ok, err}
use rust_p2p_filesystem.Key.{Key, hex_bytes}
use rust_p2p_filesystem.Sharding.Encryption.{EncryptionError}

pub data ShardingError : Type 0 where
  io file_too_big metadata_not_filled encryption_failed decryption_failed : ShardingError
  unwanted_chunk chunk_hash_mismatch empty_chunk : ShardingError
  encryption_error : EncryptionError → ShardingError

-- `chunk_data` is the field `data`.
pub record Chunk : Type 0 where
  pub chunk_data : List ℕ
  pub hash : Key

pub record ChunkMetadata : Type 0 where
  pub hash : Key
  pub nonce : List ℕ

pub record FileMetadata : Type 0 where
  pub name : List ℕ
  pub encryption_key : List ℕ
  pub chunks_metadata : List ChunkMetadata

pub record Bincode : Type 0 where
  pub serialize : FileMetadata → Option (List ℕ)
  pub deserialize : List ℕ → Option FileMetadata

pub data HandleError : Type 0 where
  not_hex not_metadata : HandleError

-- `fmt` of FileMetadata; none stands for the text of the serialisation error.
unfoldable pub to_string : Bincode → FileMetadata → Option (List ℕ)
unfolding hex_bytes
to_string b metadata = elim (b.serialize metadata) [
  | none ↦ none
  | some bytes ↦ some (hex_bytes bytes)
]

unfoldable pub deserialized : Option FileMetadata → Result HandleError FileMetadata
deserialized none = err not_metadata
deserialized (some metadata) = ok metadata

unfoldable pub from_str :
    Bincode → (List ℕ → Option (List ℕ)) → List ℕ → Result HandleError FileMetadata
unfolding deserialized
from_str b hex_decode s = elim (hex_decode s) [
  | none ↦ err not_hex
  | some bytes ↦ deserialized (b.deserialize bytes)
]
