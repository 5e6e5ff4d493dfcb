-- ===== src/Sharding/Downloader/Laws.antt =====
-- What src/sharding/downloader.rs does to the file that it writes.
use rust_p2p_filesystem.Base.{
  ℕ, ◌+◌, ◌≤◌, ◌≡◌, ◌≢◌, refl, sym, ap, ◌∙◌, ◌⊎◌, inl, inr, List, ◌++◌, some, arith, length, leb,
  Bool-cases, Option-cases,
}
use rust_p2p_filesystem.Base.Outcome.{Result, ok, err}
use rust_p2p_filesystem.Sharding.Metadata.{ShardingError, io, FileMetadata, Chunk}
use rust_p2p_filesystem.Base.Outcome.{done}
use rust_p2p_filesystem.Sharding.Encryption.{Cipher, decrypt_payload}
use rust_p2p_filesystem.Sharding.Downloader.{
  Writer, Directories, new, FileDownloader, store_next_chunk_decrypt, store_decrypted,
  store_unpadded, finish_write, write_chunk,
}

-- What a buffered file promises of the bytes that were written and of those on the disk.
pub record IsWriter {W : Type 0} (writer : Writer W) (written on_disk : W → List ℕ) : Type 0 where
  pub writes :
      (bytes : List ℕ) (w w' : W)
      → writer.write_all bytes w ≡ some w'
      → written w' ≡ written w ++ bytes
  pub flushes :
      (w w' : W) → writer.flush w ≡ some w' → (written w' ≡ written w) × (on_disk w' ≡ written w)

module _ {W : Type 0} (writer : Writer W) (written on_disk : W → List ℕ)
    (lawful : IsWriter writer written on_disk) where
  -- A call of `write_chunk` that is not refused by the disk: the bytes are appended, and on the disk
  -- if the chunk was the last one.
  abbrev pub IsWritten : FileDownloader W → List ℕ → W → Type 0
  IsWritten d bytes w =
      (write_chunk writer bytes d
        ≡ (ok tt, record d { file_writer = w; chunk_index = d.chunk_index + 1 }))
      × (written w ≡ written d.file_writer ++ bytes)
      × (length d.file_metadata.chunks_metadata ≤ d.chunk_index + 1 → on_disk w ≡ written w)

  pub write_chunk-IsWritten :
      (d : FileDownloader W) (bytes : List ℕ)
      → ((d' : FileDownloader W) × (write_chunk writer bytes d ≡ (err io, d')))
        ⊎ ((w : W) × IsWritten d bytes w)
  unfolding write_chunk finish_write
  write_chunk-IsWritten d bytes = elim (Option-cases (writer.write_all bytes d.file_writer)) [
    | inl failed ↦ inl (d, rw (failed, write_chunk) refl)
    | inr (w, e) ↦
        elim (Bool-cases (leb (length d.file_metadata.chunks_metadata) (d.chunk_index + 1))) [
          | inr more ↦ inr (
            w,
            (rw (e, write_chunk, more) refl, lawful.writes _ _ _ e, λ h. absurd (ground arith)),
          )
          | inl last ↦ elim (Option-cases (writer.flush w)) [
            | inl failed ↦ inl (
              record d { file_writer = w; chunk_index = d.chunk_index + 1 },
              rw (e, write_chunk, last, failed, finish_write) refl,
            )
            | inr (w', f) ↦
                let (same, kept) = lawful.flushes _ _ f in
                inr (
                  w',
                  (
                    rw (e, write_chunk, last, f, finish_write) refl,
                    same ∙ lawful.writes _ _ _ e,
                    λ h. kept ∙ sym same,
                  ),
                )
          ]
        ]
  ]

module _ {W : Type 0} (dirs : Directories W) where
  -- A downloader starts with an empty file, at the first chunk.
  pub new_lem :
      (metadata : FileMetadata) (output_dir : List ℕ) (d : FileDownloader W)
      → new dirs metadata output_dir ≡ ok d
      → (dirs.create (dirs.join output_dir metadata.name) ≡ some d.file_writer)
        × (d.file_metadata ≡ metadata)
        × (d.chunk_index ≡ 0)
  unfolding new
  new_lem metadata output_dir d h = elim (Bool-cases (dirs.create_dir_all output_dir)) [
    | inr failed ↦ absurd (cc (rw failed at h))
    | inl good ↦ elim (Option-cases (dirs.create (dirs.join output_dir metadata.name))) [
      | inl failed ↦ absurd (cc (rw (good, failed) at h))
      | inr (file, e) ↦
          let made = ap made_of (rw (good, e) at h) in
          (
            e ∙ ap (λ v. some v.file_writer) made,
            sym (ap (λ v. v.file_metadata) made),
            sym (ap (λ v. v.chunk_index) made),
          )
    ]
  ]
    where
      made_of : Result ShardingError (FileDownloader W) → FileDownloader W
      made_of (ok v) = v
      made_of _ = d

module _ {W : Type 0} (writer : Writer W) (size : ℕ) (c : Cipher) where
  -- A chunk that `store_next_chunk_decrypt` refuses, with any error but that of the disk, leaves
  -- the downloader as it was: nothing is written, and the same chunk is expected next.
  pub store_next_chunk_decrypt_failed :
      (chunk : Chunk) (d d' : FileDownloader W) (e : ShardingError)
      → e ≢ io
      → store_next_chunk_decrypt writer size c chunk d ≡ done (err e, d')
      → d' ≡ d
  unfolding store_next_chunk_decrypt store_decrypted store_unpadded write_chunk finish_write
      decrypt_payload
  store_next_chunk_decrypt_failed chunk d d' e other h = ground arith
