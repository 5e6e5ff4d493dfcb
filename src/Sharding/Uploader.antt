-- ===== src/Sharding/Uploader.antt =====
-- src/sharding/uploader.rs. The file system, the reader of an open file (crate tokio), the cipher
-- and the hash are parameters; the random bytes of a call are an argument. The size of a chunk is
-- one as well: the program's is `chunk_data_size_kb * 1024`.
pub mod Padding
pub mod Laws
use rust_p2p_filesystem.Base.{
  ℕ, zero, suc, ◌+◌, ◌-◌, ◌*◌, ◌%◌, ◌^◌, Bool, true, false, List, [], ◌∷◌, ◌++◌, Option, none, some,
  if◌then◌else◌, is_empty, length, ltb,
}
use rust_p2p_filesystem.Base.Outcome.{Result, ok, err, Task, done, panicked, blocked, ◌>>=◌}
use rust_p2p_filesystem.Constants.{max_file_size_mb}
use rust_p2p_filesystem.Key.{Key, from_input}
use rust_p2p_filesystem.Sharding.Encryption.{
  Cipher, EncryptionError, random_bytes, generate_key, encrypt_payload,
}
use rust_p2p_filesystem.Sharding.Words.{to_le_bytes}
use rust_p2p_filesystem.Sharding.Metadata.{
  ShardingError, io, file_too_big, metadata_not_filled, encryption_error, Chunk, ChunkMetadata,
  FileMetadata,
}

-- An open file: up to so many of the next bytes, and what `fill_buf` holds. None is an I/O error.
pub record Reader (R : Type 0) : Type 0 where
  pub read : ℕ → R → Option (List ℕ) × R
  pub fill_buf : R → Option (List ℕ)

-- The paths of a file system. Opening and creating may fail, and the length of a file may be
-- unknown; a path that ends in `..` has no file name.
pub record Paths (R : Type 0) : Type 0 where
  pub exists : List ℕ → Bool
  pub open_file : List ℕ → Option R
  pub create : List ℕ → Option R
  pub file_len : R → Option ℕ
  pub file_name : List ℕ → Option (List ℕ)

pub record FileUploader (R : Type 0) : Type 0 where
  pub file_reader : R
  pub file_metadata : FileMetadata
  pub encryption_key : List ℕ

-- What the generators give to a call.
pub record Draw : Type 0 where
  pub random : ℕ → ℕ
  pub nonce : ℕ → ℕ

-- The size, as a `u32`, behind the data.
unfoldable pub with_size : ℕ → List ℕ → List ℕ
unfolding to_le_bytes
with_size bytes_read padded = padded ++ to_le_bytes (bytes_read % 2 ^ 32)

-- The bytes that were read, with random ones up to the size of a chunk.
unfoldable pub padded : ℕ → (ℕ → ℕ) → List ℕ → List ℕ
unfolding random_bytes
padded padded_size random bytes =
    if ltb (length bytes) padded_size
    then bytes ++ random_bytes random (padded_size - length bytes)
    else bytes

-- What a call for the next chunk gives: the chunk, if there is one, and the uploader after it.
abbrev pub Next : Type 0 → Type 0
Next R = Result ShardingError (Option Chunk) × FileUploader R

module _ {R : Type 0} where
  unfoldable pub named : R → List ℕ → Option (List ℕ) → Task (Result ShardingError (FileUploader R))
  named file encryption_key none = panicked
  named file encryption_key (some name) = done (
      ok (record {
        file_reader = file;
        file_metadata = record {
          name = name;
          encryption_key = encryption_key;
          chunks_metadata = [];
        };
        encryption_key = encryption_key;
      }))

  module _ (paths : Paths R) where
    unfoldable pub new_with_max_file_size :
        (ℕ → ℕ) → List ℕ → ℕ → Task (Result ShardingError (FileUploader R))
    unfolding named generate_key
    new_with_max_file_size random full_file_path max_mb =
        elim (if paths.exists full_file_path
          then paths.open_file full_file_path
          else paths.create full_file_path) [
            | none ↦ done (err io)
            | some file ↦ elim (paths.file_len file) [
              | none ↦ done (err io)
              | some file_size ↦
                  if ltb (max_mb * 1024 * 1024) file_size
                  then done (err file_too_big)
                  else named file (generate_key random) (paths.file_name full_file_path)
            ]
          ]

    unfoldable pub new : (ℕ → ℕ) → List ℕ → Task (Result ShardingError (FileUploader R))
    unfolding new_with_max_file_size
    new random full_file_path = new_with_max_file_size random full_file_path max_file_size_mb

  unfoldable pub get_metadata : Reader R → FileUploader R → Result ShardingError FileMetadata
  get_metadata reader u = elim (reader.fill_buf u.file_reader) [
    | none ↦ err io
    | some bytes ↦ if is_empty bytes then ok u.file_metadata else err metadata_not_filled
  ]

  -- The chunk that is returned, and the entry of the metadata.
  unfoldable pub sealed_chunk :
      Key → FileUploader R → Result EncryptionError (List ℕ × List ℕ) → Next R
  sealed_chunk chunk_hash u (err e) = (err (encryption_error e), u)
  sealed_chunk chunk_hash u (ok (nonce, encrypted_chunk)) = (
    ok (some (record { chunk_data = encrypted_chunk; hash = chunk_hash })),
    record u {
      file_metadata = record (u.file_metadata) {
        chunks_metadata =
            u.file_metadata.chunks_metadata ++ record { hash = chunk_hash; nonce = nonce } ∷ [];
      };
    },
  )

  module _ (cipher : Cipher) (sha1 : List ℕ → List ℕ) (padded_size : ℕ) where
    -- Where bytes were read.
    unfoldable pub seal_bytes : Draw → List ℕ → FileUploader R → Task (Next R)
    unfolding padded with_size from_input encrypt_payload sealed_chunk
    seal_bytes draw bytes u =
        let filled = padded padded_size draw.random bytes in
        do
          sealed ←
              encrypt_payload cipher draw.nonce (with_size (length bytes) filled) u.encryption_key
          done (sealed_chunk (from_input sha1 filled) u sealed)

    -- After the read of the next bytes.
    unfoldable pub read_chunk : Draw → FileUploader R → Option (List ℕ) × R → Task (Next R)
    unfolding seal_bytes
    read_chunk draw u (none, file) = done (err io, record u { file_reader = file })
    read_chunk draw u (some [], file) = done (ok none, record u { file_reader = file })
    read_chunk draw u (some (b ∷ bytes), file) =
        seal_bytes draw (b ∷ bytes) (record u { file_reader = file })

    unfoldable pub get_next_chunk_encrypt : Reader R → Draw → FileUploader R → Task (Next R)
    unfolding read_chunk
    get_next_chunk_encrypt reader draw u = read_chunk draw u (reader.read padded_size u.file_reader)
