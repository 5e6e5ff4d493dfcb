-- ===== src/Storage/Shards/Reach.antt =====
-- The states that the storage of src/storage/shard_storage_manager.rs goes through, as a relation.
use rust_p2p_filesystem.Base.{
  ℕ, ◌≡◌, refl, ◌≢◌, Bool, true, false, List, Option, none, some, length, arith, length-keep-le,
}
use rust_p2p_filesystem.Base.Outcome.{err}
use rust_p2p_filesystem.Key.{Key}
use rust_p2p_filesystem.Networking.NodeInfo.{NodeInfo}
use rust_p2p_filesystem.Storage.FileSystem.{FileSystem}
use rust_p2p_filesystem.Storage.Transfers.{DataTransfer}
use rust_p2p_filesystem.Storage.Transfers
use rust_p2p_filesystem.Storage.Shards.{
  storage_memory_exceeded, ShardStorageManager, new, add_active_tcp_connection,
  update_chunk_upload_time, retain_alive, write_chunk, create_chunk, store_known,
  store_chunk_for_known_peer, forget_dead, remove_dead_chunks, older_than, delete_files,
}
use rust_p2p_filesystem.Storage.Shards.Laws.{
  IsStorage, new-IsStorage, add-IsStorage, update-IsStorage, store_known-IsStorage, memory_suffices,
}

-- From the new storage on: any operation, at any time, on any disk.
pub data Reachable (fs : FileSystem) : ShardStorageManager → Type 0 where
  start : Reachable fs new
  agree :
      (port : ℕ) (sender : NodeInfo) (hash : Key) {m : ShardStorageManager}
      → Reachable fs m
      → Reachable fs (add_active_tcp_connection port sender hash m).0
  renew :
      (now : ℕ) (hash : Key) {m : ShardStorageManager}
      → Reachable fs m
      → Reachable fs (update_chunk_upload_time now hash m).0
  store :
      (now : ℕ) (bytes : List ℕ) (port : ℕ) (d : fs.Disk) {m : ShardStorageManager}
      → Reachable fs m
      → Reachable fs (store_chunk_for_known_peer fs now bytes port m d).0
  expire :
      (now : ℕ) (d : fs.Disk) {m : ShardStorageManager}
      → Reachable fs m
      → Reachable fs (remove_dead_chunks fs now m d).0

module _ (fs : FileSystem) where
  store-IsStorage :
      (now : ℕ) (bytes : List ℕ) (port : ℕ) (m : ShardStorageManager) (d : fs.Disk)
      → IsStorage m
      → IsStorage (store_chunk_for_known_peer fs now bytes port m d).0
  unfolding store_chunk_for_known_peer
  store-IsStorage now bytes port m d v = go (Transfers.get port m.data_transfers_table) refl
    where
      go :
          (found : Option DataTransfer)
          → Transfers.get port m.data_transfers_table ≡ found
          → IsStorage (store_chunk_for_known_peer fs now bytes port m d).0
      go none e = rw (e, store_chunk_for_known_peer) v
      go (some agreed_on) e =
          rw (e, store_chunk_for_known_peer)
            (store_known-IsStorage fs now bytes port agreed_on m d v)

  forget-IsStorage :
      (dead : List Key) (m : ShardStorageManager) (deleted : fs.Disk × Bool)
      → IsStorage m
      → IsStorage (forget_dead fs dead m deleted).0
  unfolding forget_dead retain_alive
  forget-IsStorage dead m (d, true) v = record {
    few = omega (arith, v.few, length-keep-le _ m.owned_chunks);
    uncounted = v.uncounted;
  }
  forget-IsStorage dead m (d, false) v = v

  -- Whatever operations a storage went through since it was new, it owns at most
  -- `max_shards_stored` chunks, and its total of stored kilobytes is still 0.
  pub Reachable-IsStorage : {m : ShardStorageManager} → Reachable fs m → IsStorage m
  unfolding remove_dead_chunks
  Reachable-IsStorage start = new-IsStorage
  Reachable-IsStorage (agree port sender hash {m = m} r) =
      add-IsStorage port sender hash m (Reachable-IsStorage r)
  Reachable-IsStorage (renew now hash {m = m} r) =
      update-IsStorage now hash m (Reachable-IsStorage r)
  Reachable-IsStorage (store now bytes port d {m = m} r) =
      store-IsStorage now bytes port m d (Reachable-IsStorage r)
  Reachable-IsStorage (expire now d {m = m} r) =
      forget-IsStorage (older_than now m.expire_time_s m) m
        (delete_files fs (older_than now m.expire_time_s m) d) (Reachable-IsStorage r)

  write-within :
      (now : ℕ) (bytes : List ℕ) (hash : Key) (m : ShardStorageManager) (written : fs.Disk × Bool)
      → (write_chunk fs now bytes hash m written).2 ≢ err storage_memory_exceeded
  unfolding write_chunk
  write-within now bytes hash m (d, true) h = cc
  write-within now bytes hash m (d, false) h = cc

  create-within :
      (now : ℕ) (bytes : List ℕ) (port : ℕ) (hash : Key) (m : ShardStorageManager)
      (made : fs.Disk × Bool)
      → (create_chunk fs now bytes port hash m made).2 ≢ err storage_memory_exceeded
  unfolding create_chunk
  create-within now bytes port hash m (d, true) h =
      write-within now bytes hash
        (record m { data_transfers_table = (Transfers.remove port m.data_transfers_table).0 })
        (fs.write_all _ bytes d) h
  create-within now bytes port hash m (d, false) h = cc

  store_known-within :
      (now : ℕ) (bytes : List ℕ) (port : ℕ) (agreed_on : DataTransfer) (m : ShardStorageManager)
      (d : fs.Disk)
      → IsStorage m
      → (store_known fs now bytes port agreed_on m d).2 ≢ err storage_memory_exceeded
  unfolding store_known
  store_known-within now bytes port agreed_on m d v h = ground (
    arith,
    memory_suffices fs m (length bytes) v,
    create-within now bytes port agreed_on.chunk_hash m,
  )

  -- Whatever operations a storage went through since it was new, `store_chunk_for_known_peer` never
  -- fails with `StorageMemoryExceeded`: the check of the memory limit is never met.
  pub memory_never_exceeded :
      {m : ShardStorageManager}
      → Reachable fs m
      → (now : ℕ) (bytes : List ℕ) (port : ℕ) (d : fs.Disk)
      → (store_chunk_for_known_peer fs now bytes port m d).2 ≢ err storage_memory_exceeded
  unfolding store_chunk_for_known_peer
  memory_never_exceeded {m} r now bytes port d = go (Transfers.get port m.data_transfers_table) refl
    where
      go :
          (found : Option DataTransfer)
          → Transfers.get port m.data_transfers_table ≡ found
          → (store_chunk_for_known_peer fs now bytes port m d).2 ≢ err storage_memory_exceeded
      go none e h = absurd (ground (arith, e))
      go (some agreed_on) e h =
          store_known-within now bytes port agreed_on m d (Reachable-IsStorage r)
            (rw (e, store_chunk_for_known_peer) at h)
