-- ===== src/Tests/Storing.antt =====
-- The theorems about the storage of chunks on a file system in memory.
use rust_p2p_filesystem.Base.{ℕ, ◌≡◌, ◌≢◌, refl, sym, ◌∙◌, List, [], ◌∷◌, some}
use rust_p2p_filesystem.Base.Assoc
use rust_p2p_filesystem.Base.Outcome.{ok, err}
use rust_p2p_filesystem.Key.{key_eq}
use rust_p2p_filesystem.Storage.Shards.{
  ShardStorageManager, new, add_active_tcp_connection, store_chunk_for_known_peer,
  remove_dead_chunks, storage_memory_exceeded, data_transfer_not_found,
}
use rust_p2p_filesystem.Storage.Shards.Laws.{IsStorage}
use rust_p2p_filesystem.Storage.Shards.Store.{
  Stores, store_chunk_for_known_peer_ok, store_chunk_for_known_peer_failed,
}
use rust_p2p_filesystem.Storage.Shards.Expiry.{Young, remove_dead_chunks-Young}
use rust_p2p_filesystem.Storage.Shards.Refinement.{Allowed, view_of, history, Reachable-Allowed}
use rust_p2p_filesystem.Storage.Shards.History.{Delivered, owned-Delivered}
use rust_p2p_filesystem.Storage.Shards.Reach.{
  Reachable, start, agree, store, Reachable-IsStorage, memory_never_exceeded,
}
use rust_p2p_filesystem.Tests.Data.{contact, key_of, memory}

-- A storage that expects the chunk 77 on port 9000.
unfoldable expecting : ShardStorageManager
unfolding new
expecting = (add_active_tcp_connection 9000 (contact 128) (key_of 77) new).0

unfoldable disk : memory.Disk
unfolding memory
disk = []

abbrev bytes : List ℕ
bytes = 10 ∷ 20 ∷ 30 ∷ []

it_stores : (store_chunk_for_known_peer memory 50 bytes 9000 expecting disk).2 ≡ ok tt
unfolding store_chunk_for_known_peer expecting add_active_tcp_connection memory disk
it_stores = refl

store_chunk_for_known_peer_ok_example :
    Stores memory 50 bytes 9000 expecting disk
      (store_chunk_for_known_peer memory 50 bytes 9000 expecting disk)
store_chunk_for_known_peer_ok_example =
    store_chunk_for_known_peer_ok memory 50 bytes 9000 expecting disk it_stores

other_port :
    (store_chunk_for_known_peer memory 50 bytes 9001 expecting disk).2 ≡ err data_transfer_not_found
unfolding store_chunk_for_known_peer expecting add_active_tcp_connection
other_port = refl

it_fails : (store_chunk_for_known_peer memory 50 bytes 9001 expecting disk).2 ≢ ok tt
it_fails e = absurd (cc (sym other_port ∙ e))

store_chunk_for_known_peer_failed_example :
    (store_chunk_for_known_peer memory 50 bytes 9001 expecting disk).0.owned_chunks
    ≡ expecting.owned_chunks
store_chunk_for_known_peer_failed_example =
    store_chunk_for_known_peer_failed memory 50 bytes 9001 expecting disk it_fails

-- The storage with the chunk stored at time 50.
abbrev holding : ShardStorageManager
holding = (store_chunk_for_known_peer memory 50 bytes 9000 expecting disk).0

removes : (remove_dead_chunks memory 100000 holding disk).2 ≡ ok tt
unfolding remove_dead_chunks store_chunk_for_known_peer expecting add_active_tcp_connection memory
    disk
removes = refl

remove_dead_chunks-Young_example :
    Young 100000 holding.expire_time_s
      (remove_dead_chunks memory 100000 holding disk).0.owned_chunks
remove_dead_chunks-Young_example = remove_dead_chunks-Young memory 100000 holding disk removes

abbrev expecting-Reachable :
    Reachable memory (add_active_tcp_connection 9000 (contact 128) (key_of 77) new).0
expecting-Reachable = agree 9000 (contact 128) (key_of 77) start

Reachable-IsStorage_example :
    IsStorage (add_active_tcp_connection 9000 (contact 128) (key_of 77) new).0
Reachable-IsStorage_example = Reachable-IsStorage memory expecting-Reachable

memory_never_exceeded_example :
    (store_chunk_for_known_peer memory 50 bytes 9000
      (add_active_tcp_connection 9000 (contact 128) (key_of 77) new).0
      disk).2
    ≢ err storage_memory_exceeded
memory_never_exceeded_example = memory_never_exceeded memory expecting-Reachable 50 bytes 9000 disk

-- The data came for the transfer.
abbrev holding-Reachable :
    Reachable memory
      (store_chunk_for_known_peer memory 50 bytes 9000
        (add_active_tcp_connection 9000 (contact 128) (key_of 77) new).0
        disk).0
holding-Reachable = store 50 bytes 9000 disk expecting-Reachable

Reachable-Allowed_example : Allowed (history memory holding-Reachable) (
    view_of
      (store_chunk_for_known_peer memory 50 bytes 9000
        (add_active_tcp_connection 9000 (contact 128) (key_of 77) new).0
        disk).0)
Reachable-Allowed_example = Reachable-Allowed memory holding-Reachable

-- The chunk is owned since it came.
holding_it :
    Assoc.get
      (key_of 77)
      (store_chunk_for_known_peer memory 50 bytes 9000
        (add_active_tcp_connection 9000 (contact 128) (key_of 77) new).0
        disk).0.owned_chunks
    ≡ some (record { time_stored_at = 50 })
unfolding store_chunk_for_known_peer add_active_tcp_connection memory disk new
    rust_p2p_filesystem.Key.key_beq rust_p2p_filesystem.Base.list_beq
holding_it = refl

owned-Delivered_example : Delivered (key_of 77) (history memory holding-Reachable)
owned-Delivered_example =
    owned-Delivered memory holding-Reachable (key_of 77) (record { time_stored_at = 50 }) holding_it
