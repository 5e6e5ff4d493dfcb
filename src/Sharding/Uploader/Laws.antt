-- ===== src/Sharding/Uploader/Laws.antt =====
-- A chunk of src/sharding/uploader.rs, stored by src/sharding/downloader.rs.
use rust_p2p_filesystem.Base.{
  ℕ, ◌<◌, ◌≤◌, ltb, ◌*◌, ◌≡◌, arith, refl, sym, ap, ◌∙◌, if◌then◌else◌, nat_beq, inl, inr, List, [],
  ◌∷◌, ◌++◌, Option, none, some, length, is_empty, nat_beq_iff, Bool-cases, Option-cases,
}
use rust_p2p_filesystem.Base.Outcome.{Result, ok, Task, done}
use rust_p2p_filesystem.Key.{key_eq}
use rust_p2p_filesystem.Sharding.Encryption.{
  Cipher, key_size_b, nonce_size_b, random_bytes, encrypt_payload,
}
use rust_p2p_filesystem.Sharding.Metadata.{ShardingError, Chunk, FileMetadata}
use rust_p2p_filesystem.Sharding.Uploader.{
  Reader, Paths, FileUploader, new_with_max_file_size, named, get_metadata, Next, Draw, with_size,
  padded, sealed_chunk, seal_bytes, read_chunk, get_next_chunk_encrypt,
}

-- What a reader promises of the bytes that are still to come.
pub record IsReader {R : Type 0} (reader : Reader R) (rest : R → List ℕ) : Type 0 where
  pub reads :
      (n : ℕ) (r r' : R) (bytes : List ℕ)
      → 0 < n
      → reader.read n r ≡ (some bytes, r')
      → (rest r ≡ bytes ++ rest r') × (length bytes ≤ n)
  pub ends : (n : ℕ) (r r' : R) → 0 < n → reader.read n r ≡ (some [], r') → rest r ≡ []

-- What a call that gives a chunk has done: the bytes it read, and the cipher's text of them.
pub record Cut {R : Type 0} (reader : Reader R) (c : Cipher) (size : ℕ) (draw : Draw)
    (u : FileUploader R) (chunk : Chunk) (u' : FileUploader R) : Type 0 where
  pub bytes : List ℕ
  pub some_read : 0 < length bytes
  pub was_read : reader.read size u.file_reader ≡ (some bytes, u'.file_reader)
  pub was_sealed :
      c.encrypt u.encryption_key
        (random_bytes draw.nonce nonce_size_b)
        (with_size (length bytes) (padded size draw.random bytes))
      ≡ some chunk.chunk_data
  pub key_len : length u.encryption_key ≡ key_size_b
  pub same_key : u'.encryption_key ≡ u.encryption_key
  pub pushed : u'.file_metadata ≡ record (u.file_metadata) {
    chunks_metadata =
        u.file_metadata.chunks_metadata
        ++ record { hash = chunk.hash; nonce = random_bytes draw.nonce nonce_size_b } ∷ [];
  }

module _ {R : Type 0} (reader : Reader R) (c : Cipher) (sha1 : List ℕ → List ℕ) (size : ℕ) where
  -- The uploader and the chunk of a call that gave them.
  abbrev uploader_of : FileUploader R → Task (Next R) → FileUploader R
  uploader_of u (done (r, u')) = u'
  uploader_of u _ = u

  abbrev chunk_of : Chunk → Task (Next R) → Chunk
  chunk_of k (done (ok (some chunk), u)) = chunk
  chunk_of k _ = k

  seal_bytes-Cut :
      (draw : Draw) (u u' : FileUploader R) (bytes : List ℕ) (file : R) (chunk : Chunk)
      → 0 < length bytes
      → reader.read size u.file_reader ≡ (some bytes, file)
      → seal_bytes c sha1 size draw bytes (record u { file_reader = file })
        ≡ done (ok (some chunk), u')
      → Cut reader c size draw u chunk u'
  unfolding seal_bytes encrypt_payload sealed_chunk
  seal_bytes-Cut draw u u' bytes file chunk positive e h =
      elim (Bool-cases (nat_beq (length u.encryption_key) key_size_b)) [
        | inr bad ↦ absurd (cc (rw bad at h))
        | inl good ↦
            elim (Option-cases (
              c.encrypt u.encryption_key (random_bytes draw.nonce nonce_size_b)
                (with_size (length bytes) (padded size draw.random bytes)))) [
                  | inl failed ↦ absurd (cc (rw (good, failed) at h))
                  | inr (sealed, f) ↦
                      let made = rw (good, f) at h in
                      let after = ap (uploader_of u) made in
                      let given = ap (chunk_of chunk) made in
                      record {
                        bytes = bytes;
                        some_read = positive;
                        was_read = e ∙ ap (λ v. (some bytes, v.file_reader)) after;
                        was_sealed = f ∙ ap (λ k. some k.chunk_data) given;
                        key_len = (nat_beq_iff _ _).0 good;
                        same_key = sym (ap (λ v. v.encryption_key) after);
                        pushed =
                            sym (ap (λ v. v.file_metadata) after)
                            ∙ ap
                                (λ (k : Chunk). record (u.file_metadata) {
                                  chunks_metadata =
                                      u.file_metadata.chunks_metadata
                                      ++ record {
                                        hash = k.hash;
                                        nonce = random_bytes draw.nonce nonce_size_b;
                                      }
                                        ∷ [];
                                })
                                given;
                      }
                ]
      ]

  pub get_next_chunk_encrypt-Cut :
      (draw : Draw) (u u' : FileUploader R) (chunk : Chunk)
      → get_next_chunk_encrypt c sha1 size reader draw u ≡ done (ok (some chunk), u')
      → Cut reader c size draw u chunk u'
  unfolding get_next_chunk_encrypt read_chunk
  get_next_chunk_encrypt-Cut draw u u' chunk h = go (reader.read size u.file_reader) refl
    where
      go :
          (r : Option (List ℕ) × R)
          → reader.read size u.file_reader ≡ r
          → Cut reader c size draw u chunk u'
      go (none, file) e = absurd (cc (rw e at h))
      go (some [], file) e = absurd (cc (rw e at h))
      go (some (b ∷ bs), file) e =
          seal_bytes-Cut draw u u' (b ∷ bs) file chunk (omega arith) e (rw e at h)

  -- Bytes that were read give a chunk or an error.
  seal_bytes_some :
      {P : Type 0} (draw : Draw) (u u' : FileUploader R) (bytes : List ℕ)
      → seal_bytes c sha1 size draw bytes u ≡ done (ok none, u')
      → P
  unfolding seal_bytes encrypt_payload sealed_chunk
  seal_bytes_some draw u u' bytes h =
      elim (Bool-cases (nat_beq (length u.encryption_key) key_size_b)) [
        | inr bad ↦ absurd (cc (rw bad at h))
        | inl good ↦
            elim (Option-cases (
              c.encrypt u.encryption_key (random_bytes draw.nonce nonce_size_b)
                (with_size (length bytes) (padded size draw.random bytes)))) [
                  | inl failed ↦ absurd (cc (rw (good, failed) at h))
                  | inr (sealed, f) ↦ absurd (cc (rw (good, f) at h))
                ]
      ]

  -- Without a chunk nothing is left to read, and the metadata is as it was.
  pub get_next_chunk_encrypt-none :
      (draw : Draw) (u u' : FileUploader R)
      → get_next_chunk_encrypt c sha1 size reader draw u ≡ done (ok none, u')
      → (reader.read size u.file_reader ≡ (some [], u'.file_reader))
        × (u'.file_metadata ≡ u.file_metadata)
  unfolding get_next_chunk_encrypt read_chunk
  get_next_chunk_encrypt-none draw u u' h = go (reader.read size u.file_reader) refl
    where
      go :
          (r : Option (List ℕ) × R)
          → reader.read size u.file_reader ≡ r
          → (reader.read size u.file_reader ≡ (some [], u'.file_reader))
            × (u'.file_metadata ≡ u.file_metadata)
      go (none, file) e = absurd (cc (rw e at h))
      go (some (b ∷ bs), file) e =
          seal_bytes_some draw (record u { file_reader = file }) u' (b ∷ bs) (rw e at h)
      go (some [], file) e =
          let after = ap (uploader_of u) (rw e at h) in
          (e ∙ ap (λ v. (some [], v.file_reader)) after, sym (ap (λ v. v.file_metadata) after))

module _ {R : Type 0} (paths : Paths R) (random : ℕ → ℕ) (path : List ℕ) (max_mb : ℕ) where
  -- An uploader starts with no chunk, and with its key in the metadata.
  pub new_with_max_file_size_lem :
      (u : FileUploader R)
      → new_with_max_file_size paths random path max_mb ≡ done (ok u)
      → (u.file_metadata.chunks_metadata ≡ []) × (u.file_metadata.encryption_key ≡ u.encryption_key)
  unfolding new_with_max_file_size named
  new_with_max_file_size_lem u h =
      elim (Option-cases (if paths.exists path then paths.open_file path else paths.create path)) [
        | inl failed ↦ absurd (cc (rw (failed, new_with_max_file_size) at h))
        | inr (file, e) ↦ elim (Option-cases (paths.file_len file)) [
          | inl failed ↦ absurd (cc (rw (e, new_with_max_file_size, failed) at h))
          | inr (n, f) ↦ elim (Bool-cases (ltb (max_mb * 1024 * 1024) n)) [
            | inl big ↦ absurd (cc (rw (e, new_with_max_file_size, f, big) at h))
            | inr fits ↦ elim (Option-cases (paths.file_name path)) [
              | inl failed ↦ absurd (cc (rw (e, new_with_max_file_size, f, fits, failed) at h))
              | inr (name, g) ↦
                  let made = ap made_of (rw (e, new_with_max_file_size, f, fits, g) at h) in
                  (
                    sym (ap (λ v. v.file_metadata.chunks_metadata) made),
                    sym (ap (λ v. v.file_metadata.encryption_key) made)
                        ∙ ap (λ v. v.encryption_key) made,
                  )
            ]
          ]
        ]
      ]
    where
      made_of : Task (Result ShardingError (FileUploader R)) → FileUploader R
      made_of (done (ok v)) = v
      made_of _ = u

-- The metadata that is handed out is that of the chunks.
pub get_metadata_lem :
    {R : Type 0} (reader : Reader R) (u : FileUploader R) (metadata : FileMetadata)
    → get_metadata reader u ≡ ok metadata
    → metadata ≡ u.file_metadata
unfolding get_metadata
get_metadata_lem reader u metadata h = elim (Option-cases (reader.fill_buf u.file_reader)) [
  | inl failed ↦ absurd (cc (rw (failed, get_metadata) at h))
  | inr (bytes, e) ↦ elim (Bool-cases (is_empty bytes)) [
    | inl end ↦ sym (ap given (rw (e, get_metadata, end) at h))
    | inr more ↦ absurd (cc (rw (e, get_metadata, more) at h))
  ]
]
  where
    given : Result ShardingError FileMetadata → FileMetadata
    given (ok m) = m
    given _ = metadata
