-- ===== src/Storage/Shards/Refinement.antt =====
-- A specification of src/storage/shard_storage_manager.rs: what its tables hold after a history of
-- calls, with the tables seen as functions.
use rust_p2p_filesystem.Base.{
  ℕ, ◌≤◌, ◌≡◌, refl, ◌⊎◌, inl, inr, Bool, true, false, List, [], ◌∷◌, Option, none, some, arith,
  nat_eq, ◌==◌, if◌then◌else◌, Bool-cases, Option-cases, leb, ltb, length,
}
use rust_p2p_filesystem.Base.Outcome.{Result, ok, err}
use rust_p2p_filesystem.Base.Assoc.{get-insert, get-remove, contains_key-get, get-contains_key}
use rust_p2p_filesystem.Base.Assoc
use rust_p2p_filesystem.Constants.{max_shards_stored, encrypted_chunk_size_b}
use rust_p2p_filesystem.Key.{Key, key_eq}
use rust_p2p_filesystem.Networking.NodeInfo.{NodeInfo}
use rust_p2p_filesystem.Storage.FileSystem.{FileSystem}
use rust_p2p_filesystem.Storage.Transfers.{DataTransfer}
use rust_p2p_filesystem.Storage.Transfers
use rust_p2p_filesystem.Storage.Shards.{
  ShardStorageManager, ShardStorageError, StoredChunkInfo, new, add_active_tcp_connection,
  update_chunk_upload_time, write_chunk, create_chunk, store_known, store_chunk_for_known_peer,
  forget_dead, remove_dead_chunks, older_than, delete_files, path_of, memory_exceeded,
}
use rust_p2p_filesystem.Storage.Shards.{
  io_error, max_shards_exceeded, invalid_chunk_size, storage_memory_exceeded, chunk_already_stored,
  data_transfer_not_found,
}
use rust_p2p_filesystem.Storage.Shards.Reach.{Reachable, start, agree, renew, store, expire}
use rust_p2p_filesystem.Storage.Shards.Tidy.{IsTidy, Reachable-IsTidy, left_of, get-retain_expired}

pub record View : Type 0 where
  pub transfer : ℕ → Option DataTransfer
  pub stored : Key → Option StoredChunkInfo

abbrev pub view_of : ShardStorageManager → View
view_of m = record {
  transfer = λ port. Transfers.get port m.data_transfers_table;
  stored = λ hash. Assoc.get hash m.owned_chunks;
}

-- A call on the storage, as its caller sees it: the clock, the arguments, and whether it succeeded.
pub data Event : Type 0 where
  agrees : ℕ → NodeInfo → Key → Event
  renews : ℕ → Key → Event
  data_came : ℕ → ℕ → List ℕ → Bool → Event
  expires : ℕ → Bool → Event

abbrev pub succeeded : Result ShardStorageError (Unit {0}) → Bool
succeeded (ok _) = true
succeeded (err _) = false

-- The calls that led to a state, the last one first.
unfoldable pub history : (fs : FileSystem) {m : ShardStorageManager} → Reachable fs m → List Event
history fs start = []
history fs (agree port sender hash r) = agrees port sender hash ∷ history fs r
history fs (renew now hash r) = renews now hash ∷ history fs r
history fs (store now bytes port d {m = m} r) =
    data_came now port bytes (succeeded (store_chunk_for_known_peer fs now bytes port m d).2)
    ∷ history fs r
history fs (expire now d {m = m} r) =
    expires now (succeeded (remove_dead_chunks fs now m d).2) ∷ history fs r

abbrev SameTransfers : View → View → Type 0
SameTransfers v v' = (p : ℕ) → v'.transfer p ≡ v.transfer p

abbrev SameChunks : View → View → Type 0
SameChunks v v' = (k : Key) → v'.stored k ≡ v.stored k

-- The transfer of a port is over.
abbrev IsOver : ℕ → View → View → Type 0
IsOver port v v' = (p : ℕ) → v'.transfer p ≡ (if port == p then none else v.transfer p)

-- A chunk is owned from now on.
abbrev Owns : ℕ → Key → View → View → Type 0
Owns now hash v v' =
    (k : Key)
    → v'.stored k ≡ (if hash == k then some (record { time_stored_at = now }) else v.stored k)

-- The specification: the views that a history of calls may lead to.
pub data Allowed : List Event → View → Type 0 where
  at_start :
      {v : View}
      → ((port : ℕ) → v.transfer port ≡ none)
      → ((hash : Key) → v.stored hash ≡ none)
      → Allowed [] v
  agreed :
      {h : List Event} {v v' : View} (port : ℕ) (sender : NodeInfo) (hash : Key)
      → Allowed h v
      → ((p : ℕ)
          → v'.transfer p ≡ (
              if port == p
              then some (record { sender = sender; chunk_hash = hash })
              else v.transfer p))
      → SameChunks v v'
      → Allowed (agrees port sender hash ∷ h) v'
  renewed :
      {h : List Event} {v v' : View} (now : ℕ) (hash : Key) (info : StoredChunkInfo)
      → Allowed h v
      → v.stored hash ≡ some info
      → SameTransfers v v'
      → Owns now hash v v'
      → Allowed (renews now hash ∷ h) v'
  not_renewed :
      {h : List Event} {v v' : View} (now : ℕ) (hash : Key)
      → Allowed h v
      → v.stored hash ≡ none
      → SameTransfers v v'
      → SameChunks v v'
      → Allowed (renews now hash ∷ h) v'
  came :
      {h : List Event} {v v' : View} (now port : ℕ) (bytes : List ℕ) (t : DataTransfer)
      → Allowed h v
      → v.transfer port ≡ some t
      → length bytes ≤ encrypted_chunk_size_b
      → IsOver port v v'
      → Owns now t.chunk_hash v v'
      → Allowed (data_came now port bytes true ∷ h) v'
  refused :
      {h : List Event} {v v' : View} (now port : ℕ) (bytes : List ℕ)
      → Allowed h v
      → SameTransfers v v' ⊎ IsOver port v v'
      → SameChunks v v'
      → Allowed (data_came now port bytes false ∷ h) v'
  expired :
      {h : List Event} {v v' : View} (now : ℕ)
      → Allowed h v
      → SameTransfers v v'
      → ((k : Key) → v'.stored k ≡ left_of now (v.stored k))
      → Allowed (expires now true ∷ h) v'
  not_expired :
      {h : List Event} {v v' : View} (now : ℕ)
      → Allowed h v
      → SameTransfers v v'
      → SameChunks v v'
      → Allowed (expires now false ∷ h) v'

module _ (fs : FileSystem) where
  -- A call that brings data, and what it leaves.
  abbrev AllowedReply :
      List Event
      → ℕ
      → ℕ
      → List ℕ
      → ShardStorageManager × fs.Disk × Result ShardStorageError (Unit {0})
      → Type 0
  AllowedReply h now port bytes r =
      Allowed (data_came now port bytes (succeeded r.2) ∷ h) (view_of r.0)

  module _ {h : List Event} (now : ℕ) (bytes : List ℕ) (port : ℕ) (m : ShardStorageManager)
      (a : Allowed h (view_of m)) where
    left_alone : (e : ShardStorageError) (d : fs.Disk) → AllowedReply h now port bytes (m, d, err e)
    left_alone e d = refused now port bytes a (inl (λ p. refl)) (λ k. refl)

    module _ (t : DataTransfer) (e : Transfers.get port m.data_transfers_table ≡ some t)
        (fits : length bytes ≤ encrypted_chunk_size_b) where
      write-Allowed :
          (written : fs.Disk × Bool)
          → AllowedReply h now port bytes (
              write_chunk fs now bytes t.chunk_hash
                (record m {
                  data_transfers_table = (Transfers.remove port m.data_transfers_table).0;
                })
                written)
      unfolding write_chunk Transfers.remove Transfers.get
      write-Allowed (d, true) =
          came now port bytes t a e fits (λ p. get-remove port p m.data_transfers_table.transfers)
            (λ k. get-insert t.chunk_hash k _ m.owned_chunks)
      write-Allowed (d, false) =
          refused now port bytes a (inr (λ p. get-remove port p m.data_transfers_table.transfers))
            (λ k. refl)

      create-Allowed :
          (made : fs.Disk × Bool)
          → AllowedReply h now port bytes (create_chunk fs now bytes port t.chunk_hash m made)
      unfolding create_chunk
      create-Allowed (d, true) = write-Allowed (fs.write_all (path_of t.chunk_hash) bytes d)
      create-Allowed (d, false) = left_alone io_error d

    store_known-Allowed :
        (t : DataTransfer) (d : fs.Disk)
        → Transfers.get port m.data_transfers_table ≡ some t
        → AllowedReply h now port bytes (store_known fs now bytes port t m d)
    unfolding store_known
    store_known-Allowed t d e = elim (Bool-cases (leb max_shards_stored (length m.owned_chunks))) [
      | inl full ↦ rw (full, store_known) (left_alone max_shards_exceeded d)
      | inr room ↦ elim (Bool-cases (ltb encrypted_chunk_size_b (length bytes))) [
        | inl long ↦ rw (room, store_known, long) (left_alone invalid_chunk_size d)
        | inr short ↦ elim (Bool-cases (memory_exceeded m (length bytes))) [
          | inl much ↦ rw (room, store_known, short, much) (left_alone storage_memory_exceeded d)
          | inr little ↦ elim (Bool-cases (fs.exists (path_of t.chunk_hash) d)) [
            | inl old ↦
                rw (room, store_known, short, little, old) (left_alone chunk_already_stored d)
            | inr fresh ↦
                rw (room, store_known, short, little, fresh)
                  (create-Allowed t e (ground arith) (fs.create (path_of t.chunk_hash) d))
          ]
        ]
      ]
    ]

    store-Allowed :
        (d : fs.Disk)
        → AllowedReply h now port bytes (store_chunk_for_known_peer fs now bytes port m d)
    unfolding store_chunk_for_known_peer
    store-Allowed d = elim (Option-cases (Transfers.get port m.data_transfers_table)) [
      | inl unknown ↦
          rw (unknown, store_chunk_for_known_peer) (left_alone data_transfer_not_found d)
      | inr (t, e) ↦ rw (e, store_chunk_for_known_peer) (store_known-Allowed t d e)
    ]

  update-Allowed :
      {h : List Event} (now : ℕ) (hash : Key) (m : ShardStorageManager)
      → Allowed h (view_of m)
      → Allowed (renews now hash ∷ h) (view_of (update_chunk_upload_time now hash m).0)
  unfolding update_chunk_upload_time
  update-Allowed now hash m a = elim (Bool-cases (Assoc.contains_key hash m.owned_chunks)) [
    | inl there ↦
        let (info, e) = contains_key-get hash m.owned_chunks there in
        rw there (renewed now hash info a e (λ p. refl) (λ k. get-insert hash k _ m.owned_chunks))
    | inr missing ↦ rw missing (
        not_renewed now hash a (get-contains_key hash m.owned_chunks missing) (λ p. refl)
          (λ k. refl))
  ]

  forget-Allowed :
      {h : List Event} (now : ℕ) (m : ShardStorageManager) (deleted : fs.Disk × Bool)
      → IsTidy m
      → Allowed h (view_of m)
      → let r = forget_dead fs (older_than now m.expire_time_s m) m deleted in
        Allowed (expires now (succeeded r.2) ∷ h) (view_of r.0)
  unfolding forget_dead
  forget-Allowed now m (d, false) v a = not_expired now a (λ p. refl) (λ k. refl)
  forget-Allowed now m (d, true) v a = expired now a (λ p. refl) (λ k. get-retain_expired now m k v)

  -- The storage implements its specification. Seen as two functions, from ports to transfers and
  -- from keys to owned chunks, its tables after any history of calls are what the specification
  -- allows for this history. An agreement gives the port its transfer. A renewal changes the time
  -- of an owned chunk and nothing else. Data that is taken, which is no longer than an encrypted
  -- chunk, ends the transfer of its port, of which there was one, and makes its chunk owned. Data
  -- that is not taken changes no chunk and at most ends the transfer of its port. An expiry that
  -- succeeds removes exactly the chunks that are old enough, one that fails none.
  pub Reachable-Allowed :
      {m : ShardStorageManager} (r : Reachable fs m) → Allowed (history fs r) (view_of m)
  unfolding remove_dead_chunks add_active_tcp_connection new history Transfers.new Transfers.add
      Transfers.get Assoc.get
  Reachable-Allowed start = at_start (λ p. refl) (λ k. refl)
  Reachable-Allowed (agree port sender hash {m = m} r) =
      agreed port sender hash (Reachable-Allowed r)
        (λ p. get-insert port p _ m.data_transfers_table.transfers) (λ k. refl)
  Reachable-Allowed (renew now hash {m = m} r) = update-Allowed now hash m (Reachable-Allowed r)
  Reachable-Allowed (store now bytes port d {m = m} r) =
      store-Allowed now bytes port m (Reachable-Allowed r) d
  Reachable-Allowed (expire now d {m = m} r) =
      forget-Allowed now m (delete_files fs (older_than now m.expire_time_s m) d)
        (Reachable-IsTidy fs r) (Reachable-Allowed r)
