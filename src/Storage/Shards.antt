-- ===== src/Storage/Shards.antt =====
-- src/storage/shard_storage_manager.rs. The file system is a parameter and its state is passed
-- along; the clock is the argument `now`, in seconds. The folder of the storage is left out of the
-- paths, which are the names of the chunks.
pub mod Laws
pub mod Store
pub mod Expiry
pub mod Reach
pub mod Tidy
pub mod Refinement
pub mod History
use rust_p2p_filesystem.Base.{
  ℕ, ◌+◌, ◌-◌, ◌*◌, Bool, true, false, not, List, [], ◌∷◌, Option, none, some, ltb, leb,
  if◌then◌else◌, length, map, keep, ◌==◌,
}
use rust_p2p_filesystem.Base.Outcome.{Result, ok, err}
use rust_p2p_filesystem.Base.Assoc.{Map}
use rust_p2p_filesystem.Base.Assoc
use rust_p2p_filesystem.Constants.{
  max_shards_stored, max_data_stored_mb, encrypted_chunk_size_b, default_chunk_reupload_interval_s,
  default_chunk_expire_time_s,
}
use rust_p2p_filesystem.Key.{Key, key_eq, distance, to_hex_string}
use rust_p2p_filesystem.Key.Order.{bytes_lt}
use rust_p2p_filesystem.Networking.NodeInfo.{NodeInfo}
use rust_p2p_filesystem.Storage.FileSystem.{FileSystem}
use rust_p2p_filesystem.Storage.Transfers.{DataTransfer, DataTransfersTable}
use rust_p2p_filesystem.Storage.Transfers

pub data ShardStorageError : Type 0 where
  max_shards_exceeded invalid_chunk_size storage_memory_exceeded : ShardStorageError
  chunk_already_stored data_transfer_not_found chunk_not_found : ShardStorageError
  chunk_deletion_failed chunk_not_found_in_storage io_error : ShardStorageError

pub record StoredChunkInfo : Type 0 where
  pub time_stored_at : ℕ

pub record ShardStorageManager : Type 0 where
  pub owned_chunks : Map Key StoredChunkInfo
  pub data_transfers_table : DataTransfersTable
  pub total_stored_kb : ℕ
  pub reupload_interval_s : ℕ
  pub expire_time_s : ℕ

unfoldable pub new : ShardStorageManager
unfolding Transfers.new
new = record {
  owned_chunks = [];
  data_transfers_table = Transfers.new;
  total_stored_kb = 0;
  reupload_interval_s = default_chunk_reupload_interval_s;
  expire_time_s = default_chunk_expire_time_s;
}

-- `chunk_hash.to_string()`
abbrev pub path_of : Key → List ℕ
path_of = to_hex_string

-- The check of the memory limit.
unfoldable pub memory_exceeded : ShardStorageManager → ℕ → Bool
memory_exceeded m chunk_size = ltb (max_data_stored_mb * 1024 - m.total_stored_kb) chunk_size

unfoldable pub is_chunk_already_stored : Key → ShardStorageManager → Bool
unfolding Assoc.contains_key
is_chunk_already_stored hash m = Assoc.contains_key hash m.owned_chunks

unfoldable pub add_active_tcp_connection :
    ℕ → NodeInfo → Key → ShardStorageManager → ShardStorageManager × Option DataTransfer
unfolding Transfers.add
add_active_tcp_connection port sender chunk_hash m =
    let (t, old) = Transfers.add port sender chunk_hash m.data_transfers_table in
    (record m { data_transfers_table = t }, old)

unfoldable pub update_chunk_upload_time :
    ℕ → Key → ShardStorageManager → ShardStorageManager × Result ShardStorageError (Unit {0})
unfolding Assoc.contains_key Assoc.insert
update_chunk_upload_time now hash m =
    if Assoc.contains_key hash m.owned_chunks
    then (
      record m {
        owned_chunks = Assoc.insert hash (record { time_stored_at = now }) m.owned_chunks;
      },
      ok tt,
    )
    else (m, err chunk_not_found_in_storage)

-- Chunks stored at least `threshold` seconds ago.
unfoldable pub older_than : ℕ → ℕ → ShardStorageManager → List Key
unfolding keep
older_than now threshold m =
    map (λ (p : Key × StoredChunkInfo). p.0)
      (keep (λ (p : Key × StoredChunkInfo). leb threshold (now - p.1.time_stored_at))
        m.owned_chunks)

unfoldable pub get_chunks_for_reupload : ℕ → ShardStorageManager → List Key
unfolding older_than
get_chunks_for_reupload now m = older_than now m.reupload_interval_s m

unfoldable pub get_owned_chunk_keys : ShardStorageManager → List Key
unfolding Assoc.keys
get_owned_chunk_keys m = Assoc.keys m.owned_chunks

unfoldable pub get_chunks_closer_to_node_than_to_me : Key → Key → ShardStorageManager → List Key
unfolding keep get_owned_chunk_keys
get_chunks_closer_to_node_than_to_me my_id other_node_id m =
    keep (λ chunk_hash. bytes_lt (distance chunk_hash other_node_id) (distance chunk_hash my_id))
      (get_owned_chunk_keys m)

-- `dead.contains(k)`
unfoldable pub mem_key : Key → List Key → Bool
mem_key k [] = false
mem_key k (j ∷ js) = if j == k then true else mem_key k js

-- `owned_chunks.retain(…)`
unfoldable pub retain_alive : List Key → Map Key StoredChunkInfo → Map Key StoredChunkInfo
unfolding keep mem_key
retain_alive dead m = keep (λ (p : Key × StoredChunkInfo). not (mem_key p.0 dead)) m

module _ (fs : FileSystem) where
  open fs use {Disk, exists, create, write_all, read, remove_file}

  abbrev pub Reply : Type 0
  Reply = ShardStorageManager × Disk × Result ShardStorageError (Unit {0})

  -- The file is there and the transfer is over: the data is written.
  unfoldable pub write_chunk : ℕ → List ℕ → Key → ShardStorageManager → Disk × Bool → Reply
  unfolding Assoc.insert
  write_chunk now bytes chunk_hash m (d, true) = (
    record m {
      owned_chunks = Assoc.insert chunk_hash (record { time_stored_at = now }) m.owned_chunks;
    },
    d,
    ok tt,
  )
  write_chunk now bytes chunk_hash m (d, false) = (m, d, err io_error)

  -- `File::create`, then the entry of the port goes.
  unfoldable pub create_chunk : ℕ → List ℕ → ℕ → Key → ShardStorageManager → Disk × Bool → Reply
  unfolding Transfers.remove write_chunk
  create_chunk now bytes port chunk_hash m (d, false) = (m, d, err io_error)
  create_chunk now bytes port chunk_hash m (d, true) =
      write_chunk now bytes chunk_hash
        (record m { data_transfers_table = (Transfers.remove port m.data_transfers_table).0 })
        (write_all (path_of chunk_hash) bytes d)

  unfoldable pub store_known : ℕ → List ℕ → ℕ → DataTransfer → ShardStorageManager → Disk → Reply
  unfolding memory_exceeded create_chunk
  store_known now bytes port data_transfer m d =
      if leb max_shards_stored (length m.owned_chunks)
      then (m, d, err max_shards_exceeded)
      else if ltb encrypted_chunk_size_b (length bytes)
      then (m, d, err invalid_chunk_size)
      else if memory_exceeded m (length bytes)
      then (m, d, err storage_memory_exceeded)
      else if exists (path_of data_transfer.chunk_hash) d
      then (m, d, err chunk_already_stored)
      else create_chunk now bytes port data_transfer.chunk_hash m
          (create (path_of data_transfer.chunk_hash) d)

  unfoldable pub store_chunk_for_known_peer : ℕ → List ℕ → ℕ → ShardStorageManager → Disk → Reply
  unfolding Transfers.get store_known
  store_chunk_for_known_peer now bytes port m d = elim (Transfers.get port m.data_transfers_table) [
    | some data_transfer ↦ store_known now bytes port data_transfer m d
    | none ↦ (m, d, err data_transfer_not_found)
  ]

  unfoldable pub read_chunk : Key → Disk → Result ShardStorageError (List ℕ)
  read_chunk chunk_hash d =
      if not (exists (path_of chunk_hash) d)
      then err chunk_not_found
      else elim (read (path_of chunk_hash) d) [ some bytes ↦ ok bytes | none ↦ err io_error ]

  -- The files go one by one; the first failure ends the loop.
  unfoldable pub delete_files : List Key → Disk → Disk × Bool
  delete_files [] d = (d, true)
  delete_files (hash ∷ hashes) d =
      let (d', removed) = remove_file (path_of hash) d in
      let rest = delete_files hashes d' in if removed then rest else (d', false)

  unfoldable pub forget_dead : List Key → ShardStorageManager → Disk × Bool → Reply
  unfolding retain_alive
  forget_dead dead m (d, false) = (m, d, err chunk_deletion_failed)
  forget_dead dead m (d, true) =
      (record m { owned_chunks = retain_alive dead m.owned_chunks }, d, ok tt)

  unfoldable pub remove_dead_chunks : ℕ → ShardStorageManager → Disk → Reply
  unfolding older_than delete_files forget_dead
  remove_dead_chunks now m d =
      let dead = older_than now m.expire_time_s m in forget_dead dead m (delete_files dead d)
