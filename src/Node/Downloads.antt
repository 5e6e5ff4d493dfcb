-- ===== src/Node/Downloads.antt =====
-- `download_file` of src/core/node.rs and its helpers. `request` stands for a GET_VALUE request that
-- is sent to a node with no answer awaited, and for the data that a TCP listener of our own receives
-- then: none where there is no port, the request is not sent or no data comes.
pub mod Whole
use rust_p2p_filesystem.Base.{
  ℕ, zero, suc, Bool, List, [], ◌∷◌, Option, none, some, if◌then◌else◌, map, length, ◌==◌,
}
use rust_p2p_filesystem.Base.Outcome.{Result, ok, err, Task, done, panicked, blocked, ◌>>=◌}
use rust_p2p_filesystem.Key.{Key, key_eq}
use rust_p2p_filesystem.Networking.NodeInfo.{NodeInfo}
use rust_p2p_filesystem.Storage.FileSystem.{FileSystem}
use rust_p2p_filesystem.Storage.Shards.{read_chunk}
use rust_p2p_filesystem.Node.Lookups.{find_batches}
use rust_p2p_filesystem.Sharding.Encryption.{Cipher}
use rust_p2p_filesystem.Sharding.Metadata.{ShardingError, Chunk, ChunkMetadata, FileMetadata}
use rust_p2p_filesystem.Sharding.Downloader
use rust_p2p_filesystem.Sharding.Downloader.{
  Writer, Directories, FileDownloader, store_next_chunk_decrypt, get_output_file_path,
}

pub data DownloadError : Type 0 where
  storers_not_found chunk_not_read chunk_not_received : DownloadError
  sharding_failed : ShardingError → DownloadError

unfoldable pub chunk_keys : FileMetadata → List Key
chunk_keys file_metadata = map (λ (chunk : ChunkMetadata). chunk.hash) file_metadata.chunks_metadata

module _ (fs : FileSystem) {W : Type 0} (request : Key → NodeInfo → W → Option (List ℕ) × W)
    (this_node : NodeInfo) (disk : fs.Disk) where
  unfoldable pub received : Option (List ℕ) × W → Result DownloadError (List ℕ) × W
  received (none, w) = (err chunk_not_received, w)
  received (some bytes, w) = (ok bytes, w)

  unfoldable pub download_chunk_from_storer : Key → NodeInfo → W → Result DownloadError (List ℕ) × W
  unfolding read_chunk received
  download_chunk_from_storer chunk_id chunk_storer w =
      if chunk_storer.id == this_node.id
      then elim (read_chunk fs chunk_id disk) [
        | ok bytes ↦ (ok bytes, w)
        | err _ ↦ (err chunk_not_read, w)
      ]
      else received (request chunk_id chunk_storer w)

  module _ {F : Type 0} (writer : Writer F) (cipher : Cipher) (padded_size : ℕ) where
    -- The result of the call: the downloader after it, whose path is returned.
    abbrev pub Fetched : Type 0
    Fetched = Task (Result DownloadError (FileDownloader F) × W)

    unfoldable pub stored :
        (FileDownloader F → W → Fetched)
        → W
        → Result ShardingError (Unit {0}) × FileDownloader F
        → Fetched
    stored next w (err e, d) = done (err (sharding_failed e), w)
    stored next w (ok _, d) = next d w

    -- A round of the loop, with the data of its chunk.
    unfoldable pub store_data :
        (FileDownloader F → W → Fetched)
        → Key
        → FileDownloader F
        → Result DownloadError (List ℕ) × W
        → Fetched
    unfolding store_next_chunk_decrypt stored
    store_data next chunk_id d (err e, w) = done (err e, w)
    store_data next chunk_id d (ok bytes, w) = do
      r ←
          store_next_chunk_decrypt writer padded_size cipher
            (record { chunk_data = bytes; hash = chunk_id }) d
      stored next w r

    unfoldable pub download_pairs : List (Key × NodeInfo) → FileDownloader F → W → Fetched
    unfolding download_chunk_from_storer store_data
    download_pairs [] d w = done (ok d, w)
    download_pairs ((chunk_id, chunk_storer) ∷ pairs) d w =
        store_data (download_pairs pairs) chunk_id d
          (download_chunk_from_storer chunk_id chunk_storer w)

    unfoldable pub download_to :
        List (Key × NodeInfo) → W → Result ShardingError (FileDownloader F) → Fetched
    unfolding download_pairs
    download_to pairs w (err e) = done (err (sharding_failed e), w)
    download_to pairs w (ok d) = download_pairs pairs d w

    unfoldable pub download_resolved :
        Directories F → FileMetadata → List ℕ → Option (List (Key × NodeInfo)) × W → Fetched
    unfolding Downloader.new download_to
    download_resolved dirs file_metadata output_dir (none, w) = done (err storers_not_found, w)
    download_resolved dirs file_metadata output_dir (some pairs, w) =
        download_to pairs w (Downloader.new dirs file_metadata output_dir)

    -- `find_storer` as it is called by `find_storers_parallel`; there are no more batches than keys.
    unfoldable pub download_file :
        (Key → W → Option NodeInfo × W) → Directories F → FileMetadata → List ℕ → W → Fetched
    unfolding find_batches chunk_keys download_resolved
    download_file find_storer dirs file_metadata output_dir w =
        let keys = chunk_keys file_metadata in
        download_resolved dirs file_metadata output_dir
          (find_batches find_storer (length keys) keys w)
