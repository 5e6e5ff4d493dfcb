-- ===== src/Sharding/Reassembly.antt =====
-- The chunks of src/sharding/uploader.rs, put together by src/sharding/downloader.rs.
use rust_p2p_filesystem.Base.{
  ℕ, ◌+◌, ◌<◌, ◌^◌, ◌≡◌, refl, sym, ap, ◌∙◌, true, false, ◌⊎◌, inl, inr, List, [], ◌∷◌, ◌++◌, none,
  some, arith, length, is_empty, get_elem?, get_elem?-append, length-append,
}
use mathlib.Core.List.{map, map-append, append_assoc, append-nil}
use rust_p2p_filesystem.Base.Outcome.{ok, err, Task, done, ◌>>=◌}
use rust_p2p_filesystem.Sharding.Encryption.{
  Cipher, IsCipher, nonce_size_b, random_bytes, length-random_bytes, decrypt_payload,
  decrypt_payload_lem,
}
use rust_p2p_filesystem.Sharding.Metadata.{io, Chunk, ChunkMetadata, FileMetadata}
use rust_p2p_filesystem.Sharding.Uploader.{
  Reader, Paths, FileUploader, Draw, new_with_max_file_size, get_metadata, with_size, padded,
  get_next_chunk_encrypt,
}
use rust_p2p_filesystem.Sharding.Uploader.Padding.{store_decrypted-with_size}
use rust_p2p_filesystem.Sharding.Uploader.Laws.{
  IsReader, Cut, get_next_chunk_encrypt-Cut, get_next_chunk_encrypt-none, get_metadata_lem,
  new_with_max_file_size_lem,
}
use rust_p2p_filesystem.Sharding.Downloader.Laws.{IsWriter, new_lem, write_chunk-IsWritten}
use rust_p2p_filesystem.Sharding.Downloader
use rust_p2p_filesystem.Sharding.Downloader.{
  Writer, Stored, Directories, FileDownloader, write_chunk, store_decrypted,
  store_next_chunk_decrypt,
}

-- The loop of `upload_file` over `get_next_chunk_encrypt`, with the chunks in order.
pub data Cuts {R : Type 0} (c : Cipher) (sha1 : List ℕ → List ℕ) (size : ℕ) (reader : Reader R)
    : FileUploader R → List Chunk → FileUploader R → Type 0 where
  cut_end :
      {u u' : FileUploader R} (draw : Draw)
      → get_next_chunk_encrypt c sha1 size reader draw u ≡ done (ok none, u')
      → Cuts c sha1 size reader u [] u'
  cut_more :
      {u u' u'' : FileUploader R} {chunk : Chunk} {chunks : List Chunk} (draw : Draw)
      → get_next_chunk_encrypt c sha1 size reader draw u ≡ done (ok (some chunk), u')
      → Cuts c sha1 size reader u' chunks u''
      → Cuts c sha1 size reader u (chunk ∷ chunks) u''

not_empty : (bytes : List ℕ) (n : ℕ) → length bytes ≡ n + 16 → is_empty bytes ≡ false
not_empty [] n h = absurd (omega arith)
not_empty (b ∷ bs) n h = refl

module _ {W : Type 0} (writer : Writer W) (c : Cipher) (size : ℕ) where
  -- The loop of `download_file` over `store_next_chunk_decrypt`, until the first error.
  unfoldable pub store_chunks : List Chunk → FileDownloader W → Task (Stored writer)
  unfolding store_next_chunk_decrypt
  store_chunks [] d = done (ok tt, d)
  store_chunks (chunk ∷ chunks) d = do
    (r, d') ← store_next_chunk_decrypt writer size c chunk d
    elim r [ err e ↦ done (err e, d') | ok _ ↦ store_chunks chunks d' ]

module _ {R : Type 0} (reader : Reader R) (c : Cipher) (sha1 : List ℕ → List ℕ) (size : ℕ) where
  -- The entry of a chunk comes before those of the chunks after it.
  push_first :
      {draw : Draw} {u u' : FileUploader R} {chunk : Chunk}
      (cut : Cut reader c size draw u chunk u') (f : FileMetadata) (pushed : List ChunkMetadata)
      → f
        ≡ record (u'.file_metadata) { chunks_metadata = u'.file_metadata.chunks_metadata ++ pushed }
      → f ≡ record (u.file_metadata) {
        chunks_metadata =
            u.file_metadata.chunks_metadata
            ++ record { hash = chunk.hash; nonce = random_bytes draw.nonce nonce_size_b } ∷ pushed;
      }
  push_first {draw = draw} {u = u} {chunk = chunk} cut f pushed same =
      same
      ∙ ap (λ (f : FileMetadata). record f { chunks_metadata = f.chunks_metadata ++ pushed })
          cut.pushed
      ∙ ap (λ l. record (u.file_metadata) { chunks_metadata = l })
          (append_assoc u.file_metadata.chunks_metadata
            (record { hash = chunk.hash; nonce = random_bytes draw.nonce nonce_size_b } ∷ [])
            pushed)

  -- The loop only adds entries to the metadata, and none where it gives no chunk.
  Cuts-push :
      {u u'' : FileUploader R} {chunks : List Chunk}
      → Cuts c sha1 size reader u chunks u''
      → (pushed : List ChunkMetadata) × (u''.file_metadata ≡ record (u.file_metadata) {
        chunks_metadata = u.file_metadata.chunks_metadata ++ pushed;
      })
  Cuts-push {u = u} (cut_end {u' = u'} draw h) =
      let (_, same) = get_next_chunk_encrypt-none reader c sha1 size draw u u' h in
      ([], same ∙ ap (λ l. record (u.file_metadata) { chunks_metadata = l }) (sym (append-nil _)))
  Cuts-push {u = u} {u'' = u''} (cut_more {u' = u'} {chunk = chunk} draw h cuts) =
      let cut = get_next_chunk_encrypt-Cut reader c sha1 size draw u u' chunk h in
      let (pushed, same) = Cuts-push cuts in (_, push_first cut u''.file_metadata pushed same)

  -- The metadata lists the hashes of the chunks, in order.
  pub Cuts-hashes :
      {u u'' : FileUploader R} {chunks : List Chunk}
      → Cuts c sha1 size reader u chunks u''
      → map (λ (m : ChunkMetadata). m.hash) u''.file_metadata.chunks_metadata
        ≡ map (λ (m : ChunkMetadata). m.hash) u.file_metadata.chunks_metadata
          ++ map (λ (k : Chunk). k.hash) chunks
  Cuts-hashes {u = u} (cut_end {u' = u'} draw h) =
      ap (λ (f : FileMetadata). map (λ (m : ChunkMetadata). m.hash) f.chunks_metadata)
        (get_next_chunk_encrypt-none reader c sha1 size draw u u' h).1
      ∙ sym (append-nil _)
  Cuts-hashes {u = u} {u'' = u''}
        (cut_more {u' = u'} {chunk = chunk} {chunks = chunks} draw h cuts) =
      let cut = get_next_chunk_encrypt-Cut reader c sha1 size draw u u' chunk h in
      let hashes = λ (f : FileMetadata). map (λ (m : ChunkMetadata). m.hash) f.chunks_metadata in
      Cuts-hashes cuts
      ∙ ap (λ l. l ++ map (λ (k : Chunk). k.hash) chunks)
          (ap hashes cut.pushed ∙ map-append _ u.file_metadata.chunks_metadata _)
      ∙ append_assoc (hashes u.file_metadata) (chunk.hash ∷ []) _

  Cuts-empty :
      {u u'' : FileUploader R} {chunks : List Chunk}
      → Cuts c sha1 size reader u chunks u''
      → is_empty chunks ≡ true
      → u''.file_metadata ≡ u.file_metadata
  Cuts-empty {u = u} (cut_end {u' = u'} draw h) e =
      (get_next_chunk_encrypt-none reader c sha1 size draw u u' h).1
  Cuts-empty (cut_more draw h cuts) e = absurd (cc)

module _ {R W : Type 0} (reader : Reader R) (rest : R → List ℕ) (reads : IsReader reader rest)
    (writer : Writer W) (c : Cipher) (lawful : IsCipher c) (sha1 : List ℕ → List ℕ) (size : ℕ)
    (positive : 0 < size) (small : size < 2 ^ 32) where
  -- A chunk is stored as the bytes that were read for it.
  store_next_chunk_decrypt-Cut :
      (draw : Draw) (u u' : FileUploader R) (chunk : Chunk) (d : FileDownloader W)
      → (cut : Cut reader c size draw u chunk u')
      → d.file_metadata.encryption_key ≡ u.encryption_key
      → get_elem? d.file_metadata.chunks_metadata d.chunk_index
        ≡ some (record { hash = chunk.hash; nonce = random_bytes draw.nonce nonce_size_b })
      → store_next_chunk_decrypt writer size c chunk d ≡ done (write_chunk writer cut.bytes d)
  unfolding store_next_chunk_decrypt
  store_next_chunk_decrypt-Cut draw u u' chunk d cut key m =
      let nonce = random_bytes draw.nonce nonce_size_b in
      let m' : ChunkMetadata = record { hash = chunk.hash; nonce = nonce } in
      let len = (reads.reads size u.file_reader u'.file_reader cut.bytes positive cut.was_read).1 in
      let opens = lawful.decrypts _ nonce _ _ cut.was_sealed in
      let len_nonce = length-random_bytes draw.nonce nonce_size_b in
      let plain : decrypt_payload c chunk.chunk_data d.file_metadata.encryption_key nonce
          ≡ done (ok (with_size (length cut.bytes) (padded size draw.random cut.bytes))) =
        rw
          (
            key,
            decrypt_payload_lem c chunk.chunk_data u.encryption_key nonce cut.key_len len_nonce,
            opens,
          )
          refl in
      rw (not_empty chunk.chunk_data _ (lawful.tagged _ nonce _ _ cut.was_sealed), m, plain)
        (store_decrypted-with_size writer size small chunk m' d draw.random cut.bytes refl len)

  module _ (written on_disk : W → List ℕ) (writes : IsWriter writer written on_disk) where
    -- Either the disk fails, or all is on the disk.
    abbrev IsStored : List Chunk → FileDownloader W → List ℕ → Type 0
    IsStored chunks d bytes =
        ((d' : FileDownloader W) × (store_chunks writer c size chunks d ≡ done (err io, d')))
        ⊎ ((d' : FileDownloader W) × (store_chunks writer c size chunks d ≡ done (ok tt, d'))
            × (on_disk d'.file_writer ≡ written d.file_writer ++ bytes))

    store_chunks-Cuts :
        {u u'' : FileUploader R} {chunks : List Chunk} (d : FileDownloader W)
        → Cuts c sha1 size reader u chunks u''
        → d.file_metadata ≡ u''.file_metadata
        → u.file_metadata.encryption_key ≡ u.encryption_key
        → d.chunk_index ≡ length u.file_metadata.chunks_metadata
        → (is_empty chunks ≡ true → on_disk d.file_writer ≡ written d.file_writer)
        → IsStored chunks d (rest u.file_reader)
    unfolding store_chunks
    store_chunks-Cuts {u = u} d (cut_end {u' = u'} draw h) meta key index kept =
        let (read, _) = get_next_chunk_encrypt-none reader c sha1 size draw u u' h in
        let no_rest = reads.ends size u.file_reader u'.file_reader positive read in
        inr (d, refl, kept refl ∙ rw no_rest (sym (append-nil _)))
    store_chunks-Cuts {u = u} {u'' = u''} d
          (cut_more {u' = u'} {chunk = chunk} {chunks = chunks} draw h cuts) meta key index kept =
        let cut = get_next_chunk_encrypt-Cut reader c sha1 size draw u u' chunk h in
        let (pushed, all_pushed) = Cuts-push reader c sha1 size cuts in
        let whole = meta ∙ push_first reader c sha1 size cut u''.file_metadata pushed all_pushed in
        let entries = ap (λ f. f.chunks_metadata) whole in
        let entry : get_elem? d.file_metadata.chunks_metadata d.chunk_index
            ≡ some (record { hash = chunk.hash; nonce = random_bytes draw.nonce nonce_size_b }) =
          rw (entries, index) (get_elem?-append u.file_metadata.chunks_metadata pushed _) in
        let stored =
          store_next_chunk_decrypt-Cut draw u u' chunk d cut
            (ap (λ f. f.encryption_key) whole ∙ key) entry in
        let after_bytes =
          (reads.reads size u.file_reader u'.file_reader cut.bytes positive cut.was_read).0 in
        let counted : length u'.file_metadata.chunks_metadata ≡ d.chunk_index + 1 =
          ap (λ f. length f.chunks_metadata) cut.pushed
          ∙ length-append u.file_metadata.chunks_metadata _
          ∙ ap (λ n. n + 1) (sym index) in
        elim (write_chunk-IsWritten writer written on_disk writes d cut.bytes) [
          | inl (d', failed) ↦ inl (d', rw (stored, failed) refl)
          | inr (w, (e, same, flushed)) ↦
              let d₁ : FileDownloader W = record d {
                file_writer = w;
                chunk_index = d.chunk_index + 1;
              } in
              let goes_on : store_chunks writer c size (chunk ∷ chunks) d
                  ≡ store_chunks writer c size chunks d₁ =
                rw (stored, e) refl in
              let last = λ (no_more : is_empty chunks ≡ true). flushed (
                omega (
                  arith,
                  ap (λ f. length f.chunks_metadata)
                      (meta ∙ Cuts-empty reader c sha1 size cuts no_more),
                  counted,
                )) in
              elim (store_chunks-Cuts d₁ cuts meta
                (ap (λ f. f.encryption_key) cut.pushed ∙ key ∙ sym cut.same_key) (sym counted)
                last) [
                  | inl (d', failed) ↦ inl (d', goes_on ∙ failed)
                  | inr (d', finished, content) ↦ inr (
                    d',
                    goes_on ∙ finished,
                    content
                        ∙ ap (λ l. l ++ rest u'.file_reader) same
                        ∙ append_assoc (written d.file_writer) cut.bytes _
                        ∙ ap (λ l. written d.file_writer ++ l) (sym after_bytes),
                  )
                ]
        ]

    -- Storing the chunks of an uploader, in order, in a downloader that was made for its metadata,
    -- with a new, empty file, ends either with an I/O error of the writer or with exactly the bytes
    -- of the file on the disk, and with no panic and no other error: the padding is removed, and
    -- every chunk is decrypted and passes the checks. The cipher, the reader and the writer keep
    -- what is documented of them; a chunk has at least one byte and less than 2^32.
    pub download-upload :
        (paths : Paths R) (random : ℕ → ℕ) (path : List ℕ) (max_mb : ℕ) (u u'' : FileUploader R)
        (chunks : List Chunk) (metadata : FileMetadata) (dirs : Directories W) (dir : List ℕ)
        (d : FileDownloader W)
        → ((name : List ℕ) (w : W)
            → dirs.create name ≡ some w
            → (written w ≡ []) × (on_disk w ≡ []))
        → new_with_max_file_size paths random path max_mb ≡ done (ok u)
        → Cuts c sha1 size reader u chunks u''
        → get_metadata reader u'' ≡ ok metadata
        → Downloader.new dirs metadata dir ≡ ok d
        → ((d' : FileDownloader W) × (store_chunks writer c size chunks d ≡ done (err io, d')))
          ⊎ ((d' : FileDownloader W) × (store_chunks writer c size chunks d ≡ done (ok tt, d'))
              × (on_disk d'.file_writer ≡ rest u.file_reader))
    download-upload paths random path max_mb u u'' chunks metadata dirs dir d creates made cuts
          shown started =
        let (no_chunks, key) = new_with_max_file_size_lem paths random path max_mb u made in
        let (created, meta, index) = new_lem dirs metadata dir d started in
        let (no_bytes, no_disk) = creates _ _ created in
        elim (store_chunks-Cuts d cuts (meta ∙ get_metadata_lem reader u'' metadata shown) key
          (index ∙ sym (ap length no_chunks)) (λ h. no_disk ∙ sym no_bytes)) [
            | inl failed ↦ inl failed
            | inr (d', finished, content) ↦
                inr (d', finished, content ∙ ap (λ l. l ++ rest u.file_reader) no_bytes)
          ]
