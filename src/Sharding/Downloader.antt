-- ===== src/Sharding/Downloader.antt =====
-- src/sharding/downloader.rs. The directories and the writer of an open file (crate tokio) and the
-- cipher are parameters, and so is the size of a chunk, as for the uploader.
pub mod Laws
use rust_p2p_filesystem.Base.{
  ℕ, suc, ◌+◌, Bool, not, List, [], ◌∷◌, ◌++◌, Option, none, some, if◌then◌else◌, is_empty, length,
  ltb, leb, nat_beq, ◌==◌, take, drop, get_elem?,
}
use rust_p2p_filesystem.Base.Outcome.{Result, ok, err, Task, done, panicked, blocked, ◌>>=◌}
use rust_p2p_filesystem.Key.{Key, key_eq}
use rust_p2p_filesystem.Sharding.Encryption.{Cipher, EncryptionError, decrypt_payload}
use rust_p2p_filesystem.Sharding.Words.{from_le_bytes}
use rust_p2p_filesystem.Sharding.Metadata.{
  ShardingError, io, unwanted_chunk, chunk_hash_mismatch, empty_chunk, encryption_error, Chunk,
  ChunkMetadata, FileMetadata,
}

-- A buffered file that is written. None is an I/O error.
pub record Writer (W : Type 0) : Type 0 where
  pub write_all : List ℕ → W → Option W
  pub flush : W → Option W

-- `create_dir_all`, with false as its error, and `File::create`; `join` of two paths.
pub record Directories (W : Type 0) : Type 0 where
  pub create_dir_all : List ℕ → Bool
  pub create : List ℕ → Option W
  pub join : List ℕ → List ℕ → List ℕ

pub record FileDownloader (W : Type 0) : Type 0 where
  pub file_writer : W
  pub file_metadata : FileMetadata
  pub chunk_index : ℕ
  pub output_file_path : List ℕ

module _ {W : Type 0} where
  unfoldable pub get_output_file_path : FileDownloader W → List ℕ
  get_output_file_path d = d.output_file_path

  unfoldable pub new :
      Directories W → FileMetadata → List ℕ → Result ShardingError (FileDownloader W)
  new dirs file_metadata output_dir =
      let file_path = dirs.join output_dir file_metadata.name in
      if dirs.create_dir_all output_dir
      then elim (dirs.create file_path) [
        | none ↦ err io
        | some file ↦ ok (record {
          file_writer = file;
          file_metadata = file_metadata;
          chunk_index = 0;
          output_file_path = file_path;
        })
      ]
      else err io

  module _ (writer : Writer W) where
    abbrev pub Stored : Type 0
    Stored = Result ShardingError Unit × FileDownloader W

    -- After the write: the last chunk is followed by a flush.
    unfoldable pub finish_write : FileDownloader W → Stored
    finish_write d =
        if leb (length d.file_metadata.chunks_metadata) d.chunk_index
        then elim (writer.flush d.file_writer) [
          | none ↦ (err io, d)
          | some file ↦ (ok tt, record d { file_writer = file })
        ]
        else (ok tt, d)

    unfoldable pub write_chunk : List ℕ → FileDownloader W → Stored
    unfolding finish_write
    write_chunk bytes d = elim (writer.write_all bytes d.file_writer) [
      | none ↦ (err io, d)
      | some file ↦ finish_write (record d { file_writer = file; chunk_index = d.chunk_index + 1 })
    ]

    module _ (padded_size : ℕ) where
      -- The data before the padding, once the size behind it is read. The slice panics where the
      -- text is too short.
      unfoldable pub store_unpadded :
          Chunk → ChunkMetadata → FileDownloader W → List ℕ → Option ℕ → Task Stored
      unfolding take write_chunk
      store_unpadded chunk chunk_metadata d decrypted none = panicked
      store_unpadded chunk chunk_metadata d decrypted (some unpadded_size) =
          if not (chunk.hash == chunk_metadata.hash)
          then done (err chunk_hash_mismatch, d)
          else (let kept = take padded_size decrypted in
              done (
                write_chunk
                  (if not (nat_beq (length kept) unpadded_size)
                    then take unpadded_size kept
                    else kept)
                  d))

      unfoldable pub store_decrypted :
          Chunk → ChunkMetadata → FileDownloader W → Result EncryptionError (List ℕ) → Task Stored
      unfolding store_unpadded from_le_bytes take drop
      store_decrypted chunk chunk_metadata d (err e) = done (err (encryption_error e), d)
      store_decrypted chunk chunk_metadata d (ok decrypted) =
          store_unpadded chunk chunk_metadata d decrypted
            (from_le_bytes (take 4 (drop padded_size decrypted)))

      unfoldable pub store_next_chunk_decrypt : Cipher → Chunk → FileDownloader W → Task Stored
      unfolding decrypt_payload store_decrypted
      store_next_chunk_decrypt cipher chunk d =
          if is_empty chunk.chunk_data
          then done (err empty_chunk, d)
          else elim (get_elem? d.file_metadata.chunks_metadata d.chunk_index) [
            | none ↦ done (err unwanted_chunk, d)
            | some chunk_metadata ↦ do
              decrypted ←
                  decrypt_payload cipher chunk.chunk_data d.file_metadata.encryption_key
                    chunk_metadata.nonce
              store_decrypted chunk chunk_metadata d decrypted
          ]
