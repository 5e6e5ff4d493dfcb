-- ===== src/Storage/Shards/Laws.antt =====
-- The operations of src/storage/shard_storage_manager.rs and the limits of the storage.
use rust_p2p_filesystem.Base.{
  ℕ, ◌≤◌, ◌<◌, ◌≡◌, refl, Bool, true, false, List, [], ◌∷◌, length, arith, Bool-cases, inl, inr,
  nat_eq,
}
use rust_p2p_filesystem.Base.Assoc.{Map, length-insert-le, contains_key-insert, get-remove}
use rust_p2p_filesystem.Base.Assoc
use rust_p2p_filesystem.Constants.{max_shards_stored, encrypted_chunk_size_b}
use rust_p2p_filesystem.Key.{Key, key_eq}
use rust_p2p_filesystem.Networking.NodeInfo.{NodeInfo}
use rust_p2p_filesystem.Storage.FileSystem.{FileSystem}
use rust_p2p_filesystem.Storage.Transfers.{DataTransfer, DataTransfersTable}
use rust_p2p_filesystem.Storage.Transfers
use rust_p2p_filesystem.Storage.Shards.{
  ShardStorageManager, StoredChunkInfo, new, path_of, memory_exceeded, add_active_tcp_connection,
  update_chunk_upload_time, write_chunk, create_chunk, store_known,
}

-- At most so many chunks; and nothing is ever counted as stored.
pub record IsStorage (m : ShardStorageManager) : Type 0 where
  pub few : length m.owned_chunks ≤ max_shards_stored
  pub uncounted : m.total_stored_kb ≡ 0

pub new-IsStorage : IsStorage new
unfolding new
new-IsStorage = record { few = omega arith; uncounted = refl }

pub add-IsStorage :
    (port : ℕ) (sender : NodeInfo) (hash : Key) (m : ShardStorageManager)
    → IsStorage m
    → IsStorage (add_active_tcp_connection port sender hash m).0
unfolding add_active_tcp_connection
add-IsStorage port sender hash m v = record { few = v.few; uncounted = v.uncounted }

-- A key that is there is not added a second time.
length-insert_known :
    (k : Key) (i : StoredChunkInfo) (m : Map Key StoredChunkInfo)
    → Assoc.contains_key k m ≡ true
    → length (Assoc.insert k i m) ≡ length m
unfolding Assoc.contains_key Assoc.insert
length-insert_known k i [] h = absurd (cc)
length-insert_known k i ((j, w) ∷ m) h = ground (arith, length-insert_known k i m)

pub update-IsStorage :
    (now : ℕ) (hash : Key) (m : ShardStorageManager)
    → IsStorage m
    → IsStorage (update_chunk_upload_time now hash m).0
unfolding update_chunk_upload_time
update-IsStorage now hash m v = elim (Bool-cases (Assoc.contains_key hash m.owned_chunks)) [
  | inl h ↦ rw h (record {
    few =
        omega (
          arith,
          v.few,
          length-insert_known hash (record { time_stored_at = now }) m.owned_chunks h,
        );
    uncounted = v.uncounted;
  })
  | inr h ↦ rw h v
]

module _ (fs : FileSystem) where
  write-IsStorage :
      (now : ℕ) (bytes : List ℕ) (hash : Key) (m : ShardStorageManager) (written : fs.Disk × Bool)
      → IsStorage m
      → length m.owned_chunks < max_shards_stored
      → IsStorage (write_chunk fs now bytes hash m written).0
  unfolding write_chunk
  write-IsStorage now bytes hash m (d, true) v room = record {
    few = omega (arith, length-insert-le hash (record { time_stored_at = now }) m.owned_chunks);
    uncounted = v.uncounted;
  }
  write-IsStorage now bytes hash m (d, false) v room = v

  create-IsStorage :
      (now : ℕ) (bytes : List ℕ) (port : ℕ) (hash : Key) (m : ShardStorageManager)
      (made : fs.Disk × Bool)
      → IsStorage m
      → length m.owned_chunks < max_shards_stored
      → IsStorage (create_chunk fs now bytes port hash m made).0
  unfolding create_chunk
  create-IsStorage now bytes port hash m (d, true) v room =
      write-IsStorage now bytes hash
        (record m { data_transfers_table = (Transfers.remove port m.data_transfers_table).0 })
        (fs.write_all (path_of hash) bytes d) (record { few = v.few; uncounted = v.uncounted }) room
  create-IsStorage now bytes port hash m (d, false) v room = v

  pub store_known-IsStorage :
      (now : ℕ) (bytes : List ℕ) (port : ℕ) (tr : DataTransfer) (m : ShardStorageManager)
      (d : fs.Disk)
      → IsStorage m
      → IsStorage (store_known fs now bytes port tr m d).0
  unfolding store_known
  store_known-IsStorage now bytes port tr m d v = ground (
    arith,
    create-IsStorage now bytes port tr.chunk_hash m (fs.create (path_of tr.chunk_hash) d) v,
  )

  -- `memory_exceeded` compares kilobytes with bytes, and its counter stays 0.
  pub memory_suffices :
      (m : ShardStorageManager) (size : ℕ)
      → IsStorage m
      → size ≤ encrypted_chunk_size_b
      → memory_exceeded m size ≡ false
  unfolding memory_exceeded
  memory_suffices m size v h = ground arith
