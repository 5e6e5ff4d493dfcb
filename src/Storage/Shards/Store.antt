-- ===== src/Storage/Shards/Store.antt =====
-- What `store_chunk_for_known_peer` of src/storage/shard_storage_manager.rs leaves behind, when it
-- succeeds and when it fails.
use rust_p2p_filesystem.Base.{
  ℕ, ◌≤◌, ◌<◌, ◌≡◌, refl, ◌≢◌, Bool, true, false, List, Option, none, some, length, arith, nat_eq,
  ◌==◌, if◌then◌else◌, Option-cases, inl, inr,
}
use rust_p2p_filesystem.Base.Outcome.{ok}
use rust_p2p_filesystem.Base.Assoc.{get-insert, get-remove}
use rust_p2p_filesystem.Base.Assoc
use rust_p2p_filesystem.Constants.{max_shards_stored, encrypted_chunk_size_b}
use rust_p2p_filesystem.Key.{Key, key_eq}
use rust_p2p_filesystem.Storage.FileSystem.{FileSystem}
use rust_p2p_filesystem.Storage.Transfers.{DataTransfer}
use rust_p2p_filesystem.Storage.Transfers
use rust_p2p_filesystem.Storage.Shards.{
  ShardStorageManager, path_of, write_chunk, create_chunk, store_known, store_chunk_for_known_peer,
  Reply,
}

module _ (fs : FileSystem) where
  -- A successful call on the storage `m` and the disk `d`: what it found, the calls to the file
  -- system, and the owned chunks and the transfers after it.
  pub record Stores (now : ℕ) (bytes : List ℕ) (port : ℕ) (m : ShardStorageManager) (d : fs.Disk)
      (r : Reply fs) : Type 0 where
    pub transfer : DataTransfer
    pub agreed : Transfers.get port m.data_transfers_table ≡ some transfer
    pub room : length m.owned_chunks < max_shards_stored
    pub fits : length bytes ≤ encrypted_chunk_size_b
    pub no_file : fs.exists (path_of transfer.chunk_hash) d ≡ false
    pub created : (fs.create (path_of transfer.chunk_hash) d).1 ≡ true
    pub written :
        fs.write_all
          (path_of transfer.chunk_hash)
          bytes
          (fs.create (path_of transfer.chunk_hash) d).0
        ≡ (r.1, true)
    pub owned :
        (k : Key)
        → Assoc.get k r.0.owned_chunks ≡ (
            if transfer.chunk_hash == k
            then some (record { time_stored_at = now })
            else Assoc.get k m.owned_chunks)
    pub transfers :
        (p : ℕ)
        → Transfers.get p r.0.data_transfers_table
          ≡ (if port == p then none else Transfers.get p m.data_transfers_table)

  -- A write that succeeded, and what it leaves.
  abbrev IsWritten : ℕ → Key → ShardStorageManager → fs.Disk × Bool → Reply fs → Type 0
  IsWritten now hash m written r =
      (written ≡ (r.1, true))
      × (r.0.owned_chunks ≡ Assoc.insert hash (record { time_stored_at = now }) m.owned_chunks)
      × (r.0.data_transfers_table ≡ m.data_transfers_table)

  write_ok :
      (now : ℕ) (bytes : List ℕ) (hash : Key) (m : ShardStorageManager) (written : fs.Disk × Bool)
      → (write_chunk fs now bytes hash m written).2 ≡ ok tt
      → IsWritten now hash m written (write_chunk fs now bytes hash m written)
  unfolding write_chunk
  write_ok now bytes hash m (d, true) h = (refl, refl, refl)
  write_ok now bytes hash m (d, false) h = absurd (cc)

  create_ok :
      (now : ℕ) (bytes : List ℕ) (port : ℕ) (hash : Key) (m : ShardStorageManager)
      (made : fs.Disk × Bool)
      → (create_chunk fs now bytes port hash m made).2 ≡ ok tt
      → (made.1 ≡ true)
        × IsWritten now hash
            (record m { data_transfers_table = (Transfers.remove port m.data_transfers_table).0 })
            (fs.write_all (path_of hash) bytes made.0)
            (create_chunk fs now bytes port hash m made)
  unfolding create_chunk
  create_ok now bytes port hash m (d, true) h = (
    refl,
    write_ok now bytes hash
        (record m { data_transfers_table = (Transfers.remove port m.data_transfers_table).0 })
        (fs.write_all (path_of hash) bytes d) h,
  )
  create_ok now bytes port hash m (d, false) h = absurd (cc)

  -- The checks that a call has passed which succeeds.
  store_known_ok :
      (now : ℕ) (bytes : List ℕ) (port : ℕ) (agreed_on : DataTransfer) (m : ShardStorageManager)
      (d : fs.Disk)
      → (store_known fs now bytes port agreed_on m d).2 ≡ ok tt
      → (length m.owned_chunks < max_shards_stored)
        × (length bytes ≤ encrypted_chunk_size_b)
        × (fs.exists (path_of agreed_on.chunk_hash) d ≡ false)
        × ((create_chunk fs now bytes port agreed_on.chunk_hash m
              (fs.create (path_of agreed_on.chunk_hash) d)).2
            ≡ ok tt)
        × (store_known fs now bytes port agreed_on m d
            ≡ create_chunk fs now bytes port agreed_on.chunk_hash m
                (fs.create (path_of agreed_on.chunk_hash) d))
  unfolding store_known
  store_known_ok now bytes port agreed_on m d h = ground arith

  store_known-Stores :
      (now : ℕ) (bytes : List ℕ) (port : ℕ) (agreed_on : DataTransfer) (m : ShardStorageManager)
      (d : fs.Disk)
      → Transfers.get port m.data_transfers_table ≡ some agreed_on
      → (store_known fs now bytes port agreed_on m d).2 ≡ ok tt
      → Stores now bytes port m d (store_known fs now bytes port agreed_on m d)
  unfolding Transfers.remove Transfers.get
  store_known-Stores now bytes port agreed_on m d e h =
      let (room, fits, no_file, ended, same) = store_known_ok now bytes port agreed_on m d h in
      let (created, after) =
        create_ok now bytes port agreed_on.chunk_hash m (fs.create (path_of agreed_on.chunk_hash) d)
          ended in
      rw same (record {
        transfer = agreed_on;
        agreed = e;
        room = room;
        fits = fits;
        no_file = no_file;
        created = created;
        written = after.0;
        owned = λ k. rw after.1 (get-insert agreed_on.chunk_hash k _ m.owned_chunks);
        transfers = λ p. rw after.2 (get-remove port p m.data_transfers_table.transfers);
      })

  -- If `store_chunk_for_known_peer` succeeds, a transfer was agreed on for the port, fewer than
  -- `max_shards_stored` chunks were owned, the data is no longer than an encrypted chunk, the chunk
  -- of the transfer had no file, and its file was created and exactly the data written to it with
  -- success, which gives the disk. Afterwards this chunk is owned since now and every other key as
  -- before, and no transfer is left for the port and every other port as before.
  pub store_chunk_for_known_peer_ok :
      (now : ℕ) (bytes : List ℕ) (port : ℕ) (m : ShardStorageManager) (d : fs.Disk)
      → (store_chunk_for_known_peer fs now bytes port m d).2 ≡ ok tt
      → Stores now bytes port m d (store_chunk_for_known_peer fs now bytes port m d)
  unfolding store_chunk_for_known_peer
  store_chunk_for_known_peer_ok now bytes port m d h =
      elim (Option-cases (Transfers.get port m.data_transfers_table)) [
        | inl unknown ↦ absurd (cc (rw (unknown, store_chunk_for_known_peer) at h))
        | inr (t, e) ↦
            rw (e, store_chunk_for_known_peer)
              (store_known-Stores now bytes port t m d e (rw (e, store_chunk_for_known_peer) at h))
      ]

  write_failed :
      (now : ℕ) (bytes : List ℕ) (hash : Key) (m : ShardStorageManager) (written : fs.Disk × Bool)
      → (write_chunk fs now bytes hash m written).2 ≢ ok tt
      → (write_chunk fs now bytes hash m written).0.owned_chunks ≡ m.owned_chunks
  unfolding write_chunk
  write_failed now bytes hash m (d, true) h = absurd (h refl)
  write_failed now bytes hash m (d, false) h = refl

  create_failed :
      (now : ℕ) (bytes : List ℕ) (port : ℕ) (hash : Key) (m : ShardStorageManager)
      (made : fs.Disk × Bool)
      → (create_chunk fs now bytes port hash m made).2 ≢ ok tt
      → (create_chunk fs now bytes port hash m made).0.owned_chunks ≡ m.owned_chunks
  unfolding create_chunk
  create_failed now bytes port hash m (d, true) h =
      write_failed now bytes hash
        (record m { data_transfers_table = (Transfers.remove port m.data_transfers_table).0 })
        (fs.write_all (path_of hash) bytes d) h
  create_failed now bytes port hash m (d, false) h = refl

  store_known_failed :
      (now : ℕ) (bytes : List ℕ) (port : ℕ) (agreed_on : DataTransfer) (m : ShardStorageManager)
      (d : fs.Disk)
      → (store_known fs now bytes port agreed_on m d).2 ≢ ok tt
      → (store_known fs now bytes port agreed_on m d).0.owned_chunks ≡ m.owned_chunks
  unfolding store_known
  store_known_failed now bytes port agreed_on m d h = ground (
    arith,
    create_failed now bytes port agreed_on.chunk_hash m
        (fs.create (path_of agreed_on.chunk_hash) d),
  )

  -- If `store_chunk_for_known_peer` fails, for whatever reason, the owned chunks are those from
  -- before.
  pub store_chunk_for_known_peer_failed :
      (now : ℕ) (bytes : List ℕ) (port : ℕ) (m : ShardStorageManager) (d : fs.Disk)
      → (store_chunk_for_known_peer fs now bytes port m d).2 ≢ ok tt
      → (store_chunk_for_known_peer fs now bytes port m d).0.owned_chunks ≡ m.owned_chunks
  unfolding store_chunk_for_known_peer
  store_chunk_for_known_peer_failed now bytes port m d =
      go (Transfers.get port m.data_transfers_table) refl
    where
      go :
          (found : Option DataTransfer)
          → Transfers.get port m.data_transfers_table ≡ found
          → (store_chunk_for_known_peer fs now bytes port m d).2 ≢ ok tt
          → (store_chunk_for_known_peer fs now bytes port m d).0.owned_chunks ≡ m.owned_chunks
      go none e h = rw (e, store_chunk_for_known_peer) refl
      go (some agreed_on) e h =
          rw (e, store_chunk_for_known_peer)
            (store_known_failed now bytes port agreed_on m d
              (rw (e, store_chunk_for_known_peer) at h))
