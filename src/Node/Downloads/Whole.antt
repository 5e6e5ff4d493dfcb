-- ===== src/Node/Downloads/Whole.antt =====
-- `download_file` of src/core/node.rs for chunks that `upload_file` cut.
use rust_p2p_filesystem.Base.{
  ℕ, ◌<◌, ◌^◌, ◌≡◌, refl, ap, ◌∙◌, ◌⊎◌, inl, inr, arith, List, [], ◌∷◌, ◌++◌, Option, some, map,
  length,
}
use rust_p2p_filesystem.Base.Outcome.{Result, ok, err, Task, done, panicked, blocked, ◌>>=◌}
use rust_p2p_filesystem.Key.{Key}
use rust_p2p_filesystem.Networking.NodeInfo.{NodeInfo}
use rust_p2p_filesystem.Storage.FileSystem.{FileSystem}
use rust_p2p_filesystem.Node.Lookups.{find_batches}
use rust_p2p_filesystem.Node.Batches.{find_batches_keys}
use rust_p2p_filesystem.Sharding.Encryption.{Cipher, IsCipher}
use rust_p2p_filesystem.Sharding.Metadata.{io, Chunk, ChunkMetadata, FileMetadata}
use rust_p2p_filesystem.Sharding.Uploader.{
  Reader, Paths, FileUploader, new_with_max_file_size, get_metadata,
}
use rust_p2p_filesystem.Sharding.Uploader.Laws.{
  IsReader, new_with_max_file_size_lem, get_metadata_lem,
}
use rust_p2p_filesystem.Sharding.Downloader
use rust_p2p_filesystem.Sharding.Downloader.{
  Writer, Directories, FileDownloader, store_next_chunk_decrypt, Stored,
}
use rust_p2p_filesystem.Sharding.Downloader.Laws.{IsWriter}
use rust_p2p_filesystem.Sharding.Reassembly.{Cuts, Cuts-hashes, store_chunks, download-upload}
use rust_p2p_filesystem.Node.Downloads.{
  Fetched, DownloadError, sharding_failed, chunk_keys, download_chunk_from_storer, stored,
  store_data, download_pairs, download_to, download_resolved, download_file,
}

-- The storers that were found are asked for the chunks, in order, and each gives the data of its
-- chunk at the moment when it is asked for it.
abbrev pub Serve :
    (fs : FileSystem) {N : Type 0}
    → (Key → NodeInfo → N → Option (List ℕ) × N)
    → NodeInfo
    → fs.Disk
    → List Chunk
    → List (Key × NodeInfo)
    → N
    → Type 0
Serve fs {N = N} request this_node disk (chunk ∷ chunks) ((k, storer) ∷ pairs) w =
    let answer = download_chunk_from_storer fs request this_node disk chunk.hash storer w in
    (answer.0 ≡ ok chunk.chunk_data) × Serve fs request this_node disk chunks pairs answer.1
Serve fs request this_node disk [] pairs w = Unit {0}
Serve fs request this_node disk (chunk ∷ chunks) [] w = Unit {0}

module _ (fs : FileSystem) {N : Type 0} (request : Key → NodeInfo → N → Option (List ℕ) × N)
    (this_node : NodeInfo) (disk : fs.Disk) {F : Type 0} (writer : Writer F) (cipher : Cipher)
    (size : ℕ) where
  -- A call that fetches chunks ends as the storing of chunks that are at hand.
  abbrev IsFetched :
      Fetched fs request this_node disk writer cipher size → Task (Stored writer) → Type 0
  IsFetched fetched (done (ok _, d)) = (w : N) × (fetched ≡ done (ok d, w))
  IsFetched fetched (done (err e, d)) = (w : N) × (fetched ≡ done (err (sharding_failed e), w))
  IsFetched fetched panicked = Unit {0}
  IsFetched fetched blocked = Unit {0}

  abbrev fetch :
      List (Key × NodeInfo)
      → FileDownloader F
      → N
      → Fetched fs request this_node disk writer cipher size
  fetch = download_pairs fs request this_node disk writer cipher size

  fetch_next :
      (chunk : Chunk) (storer : NodeInfo) (pairs : List (Key × NodeInfo)) (d : FileDownloader F)
      (w : N) (data' : Result DownloadError (List ℕ) × N)
      → data'.0 ≡ ok chunk.chunk_data
      → store_data fs request this_node disk writer cipher size (fetch pairs) chunk.hash d data'
        ≡ (do
          r ← store_next_chunk_decrypt writer size cipher chunk d
          stored fs request this_node disk writer cipher size (fetch pairs) data'.1 r)
  unfolding store_data
  fetch_next chunk storer pairs d w (ok bytes, w') h =
      ap
        (λ b. (do
          r ←
              store_next_chunk_decrypt writer size cipher
                (record { chunk_data = b; hash = chunk.hash }) d
          stored fs request this_node disk writer cipher size (fetch pairs) w' r))
        (ap bytes_of h)
    where
      bytes_of : Result DownloadError (List ℕ) → List ℕ
      bytes_of (ok bytes) = bytes
      bytes_of _ = []
  fetch_next chunk storer pairs d w (err e, w') h = absurd (cc)

  stored-IsFetched :
      (chunks : List Chunk) (pairs : List (Key × NodeInfo)) (w : N)
      → ((d : FileDownloader F)
          → IsFetched (fetch pairs d w) (store_chunks writer cipher size chunks d))
      → (r : Task (Stored writer))
      → IsFetched
          (do q ← r; stored fs request this_node disk writer cipher size (fetch pairs) w q)
          (do
            (x, d') ← r
            elim x [ err e ↦ done (err e, d') | ok _ ↦ store_chunks writer cipher size chunks d' ])
  unfolding stored
  stored-IsFetched chunks pairs w ih panicked = tt
  stored-IsFetched chunks pairs w ih blocked = tt
  stored-IsFetched chunks pairs w ih (done (err e, d)) = (w, refl)
  stored-IsFetched chunks pairs w ih (done (ok x, d)) = ih d

  download_pairs-IsFetched :
      (chunks : List Chunk) (pairs : List (Key × NodeInfo)) (d : FileDownloader F) (w : N)
      → Serve fs request this_node disk chunks pairs w
      → map (λ (p : Key × NodeInfo). p.0) pairs ≡ map (λ (k : Chunk). k.hash) chunks
      → IsFetched (fetch pairs d w) (store_chunks writer cipher size chunks d)
  unfolding download_pairs store_chunks
  download_pairs-IsFetched [] [] d w s h = (w, refl)
  download_pairs-IsFetched [] (p ∷ pairs) d w s h = absurd (cc)
  download_pairs-IsFetched (chunk ∷ chunks) [] d w s h = absurd (cc)
  download_pairs-IsFetched (chunk ∷ chunks) ((k, storer) ∷ pairs) d w s h =
      let same : k ≡ chunk.hash = ap (λ l. elim l [ [] ↦ k | x ∷ xs ↦ x ]) h in
      let others : map (λ (p : Key × NodeInfo). p.0) pairs ≡ map (λ (k : Chunk). k.hash) chunks =
        ap {B = List Key} (λ l. elim l [ [] ↦ [] | x ∷ xs ↦ xs ]) h in
      let received = download_chunk_from_storer fs request this_node disk chunk.hash storer w in
      let w₁ = received.1 in
      rw (same, fetch_next chunk storer pairs d w received s.0)
        (stored-IsFetched chunks pairs w₁
          (λ d'. download_pairs-IsFetched chunks pairs d' w₁ s.1 others)
          (store_next_chunk_decrypt writer size cipher chunk d))

  -- As a call of the whole: either the disk fails, or the file that was written has the bytes.
  IsFetched-outcome :
      (fetched : Fetched fs request this_node disk writer cipher size) (chunks : List Chunk)
      (d : FileDownloader F) {P : FileDownloader F → Type 0}
      → IsFetched fetched (store_chunks writer cipher size chunks d)
      → ((d' : FileDownloader F) × (store_chunks writer cipher size chunks d ≡ done (err io, d')))
        ⊎ ((d' : FileDownloader F) × (store_chunks writer cipher size chunks d ≡ done (ok tt, d'))
            × P d')
      → ((w : N) × (fetched ≡ done (err (sharding_failed io), w)))
        ⊎ ((d' : FileDownloader F) × (w : N) × (fetched ≡ done (ok d', w)) × P d')
  IsFetched-outcome fetched chunks d f (inl (d', e)) = inl (rw e at f)
  IsFetched-outcome fetched chunks d f (inr (d', e, p)) =
      let (w, q) = rw e at f in inr (d', w, q, p)

module _ {R F N : Type 0} (reader : Reader R) (rest : R → List ℕ) (reads : IsReader reader rest)
    (writer : Writer F) (written on_disk : F → List ℕ) (writes : IsWriter writer written on_disk)
    (cipher : Cipher) (lawful : IsCipher cipher) (sha1 : List ℕ → List ℕ) (size : ℕ)
    (positive : 0 < size) (small : size < 2 ^ 32) (dirs : Directories F)
    (creates : (name : List ℕ) (f : F)
      → dirs.create name ≡ some f
      → (written f ≡ []) × (on_disk f ≡ []))
    (fs : FileSystem) (request : Key → NodeInfo → N → Option (List ℕ) × N) (this_node : NodeInfo)
    (disk : fs.Disk) (find_storer : Key → N → Option NodeInfo × N) where
  -- What was cut into chunks comes back. Suppose that the uploader was made for a file and its loop
  -- ended with the metadata, that a downloader is made for this metadata with a new, empty file,
  -- that a storer was found for every key of it, and that each of these storers gives the data of
  -- its chunk at the moment when it is asked for it. Then `download_file` either reports an I/O
  -- error of the writer, or succeeds, with exactly the bytes of the file on the disk. The cipher,
  -- the reader and the writer keep what is documented of them; a chunk has at least one byte and
  -- less than 2^32.
  pub download_file-Cuts :
      (paths : Paths R) (random : ℕ → ℕ) (path : List ℕ) (max_mb : ℕ) (u u'' : FileUploader R)
      (chunks : List Chunk) (metadata : FileMetadata) (dir : List ℕ) (d : FileDownloader F)
      (w w₁ : N) (pairs : List (Key × NodeInfo))
      → new_with_max_file_size paths random path max_mb ≡ done (ok u)
      → Cuts cipher sha1 size reader u chunks u''
      → get_metadata reader u'' ≡ ok metadata
      → Downloader.new dirs metadata dir ≡ ok d
      → find_batches find_storer (length (chunk_keys metadata)) (chunk_keys metadata) w
        ≡ (some pairs, w₁)
      → Serve fs request this_node disk chunks pairs w₁
      → ((w' : N) × (download_file fs request this_node disk writer cipher size find_storer dirs
              metadata dir w
            ≡ done (err (sharding_failed io), w')))
        ⊎ ((d' : FileDownloader F) × (w' : N) × (download_file fs request this_node disk writer
                cipher size find_storer dirs metadata dir w
              ≡ done (ok d', w'))
            × (on_disk d'.file_writer ≡ rest u.file_reader))
  unfolding download_file download_resolved download_to chunk_keys
  download_file-Cuts paths random path max_mb u u'' chunks metadata dir d w w₁ pairs made cuts shown
        started found serves =
      let hashes : chunk_keys metadata ≡ map (λ (k : Chunk). k.hash) chunks =
        ap (λ (f : FileMetadata). map (λ (m : ChunkMetadata). m.hash) f.chunks_metadata)
          (get_metadata_lem reader u'' metadata shown)
        ∙ Cuts-hashes reader cipher sha1 size cuts
        ∙ ap (λ l. map (λ (m : ChunkMetadata). m.hash) l ++ map (λ (k : Chunk). k.hash) chunks)
            (new_with_max_file_size_lem paths random path max_mb u made).0 in
      let keys =
        find_batches_keys find_storer (length (chunk_keys metadata)) (chunk_keys metadata) w pairs
          (omega arith) (ap (λ p. p.0) found) in
      rw (found, started)
        (IsFetched-outcome fs request this_node disk writer cipher size _ chunks d
          (download_pairs-IsFetched fs request this_node disk writer cipher size chunks pairs d w₁
            serves (keys ∙ hashes))
          (download-upload reader rest reads writer cipher lawful sha1 size positive small written
            on_disk writes paths random path max_mb u u'' chunks metadata dirs dir d creates made
            cuts shown started))
