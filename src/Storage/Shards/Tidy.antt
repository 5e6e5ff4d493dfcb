-- ===== src/Storage/Shards/Tidy.antt =====
-- The keys of the owned chunks of src/storage/shard_storage_manager.rs, and the time after which
-- chunks expire.
use rust_p2p_filesystem.Base.{
  ℕ, ◌-◌, ◌≡◌, refl, Bool, true, false, List, [], ◌∷◌, Option, none, some, arith, ◌==◌,
  if◌then◌else◌, Bool-cases, Option-cases, inl, inr, leb, keep, map,
}
use rust_p2p_filesystem.Base.Assoc.{Map, contains_key-insert, get-contains_key}
use rust_p2p_filesystem.Base.Assoc
use rust_p2p_filesystem.Constants.{default_chunk_expire_time_s}
use rust_p2p_filesystem.Key.{Key, key_eq, key_beq_iff}
use rust_p2p_filesystem.Storage.FileSystem.{FileSystem}
use rust_p2p_filesystem.Storage.Transfers.{DataTransfer}
use rust_p2p_filesystem.Storage.Transfers
use rust_p2p_filesystem.Storage.Shards.{
  ShardStorageManager, StoredChunkInfo, new, add_active_tcp_connection, update_chunk_upload_time,
  retain_alive, mem_key, write_chunk, create_chunk, store_known, store_chunk_for_known_peer,
  forget_dead, remove_dead_chunks, older_than, delete_files, path_of,
}
use rust_p2p_filesystem.Storage.Shards.Reach.{Reachable, start, agree, renew, store, expire}

-- No key stands twice in the table.
abbrev pub Unique : Map Key StoredChunkInfo → Type 0
Unique [] = Unit {0}
Unique ((k, v) ∷ m) = (Assoc.contains_key k m ≡ false) × Unique m

pub record IsTidy (m : ShardStorageManager) : Type 0 where
  pub unique : Unique m.owned_chunks
  pub lifetime : m.expire_time_s ≡ default_chunk_expire_time_s

insert-Unique :
    (k : Key) (v : StoredChunkInfo) (m : Map Key StoredChunkInfo)
    → Unique m
    → Unique (Assoc.insert k v m)
unfolding Assoc.insert Assoc.contains_key
insert-Unique k v [] u = (refl, tt)
insert-Unique k v ((j, w) ∷ m) u = elim (Bool-cases (j == k)) [
  | inl same ↦ rw same (rw ((key_beq_iff j k).0 same) at u.0, u.1)
  | inr other ↦ rw other (
    ground (arith, contains_key-insert k j v m, key_beq_iff j k, key_beq_iff k j),
    insert-Unique k v m u.1,
  )
]

contains_key-retain :
    (dead : List Key) (k : Key) (m : Map Key StoredChunkInfo)
    → Assoc.contains_key k m ≡ false
    → Assoc.contains_key k (retain_alive dead m) ≡ false
unfolding retain_alive keep Assoc.contains_key
contains_key-retain dead k [] h = refl
contains_key-retain dead k ((j, w) ∷ m) h = ground (arith, contains_key-retain dead k m)

retain-Unique :
    (dead : List Key) (m : Map Key StoredChunkInfo) → Unique m → Unique (retain_alive dead m)
unfolding retain_alive keep
retain-Unique dead [] u = tt
retain-Unique dead ((j, w) ∷ m) u = elim (Bool-cases (mem_key j dead)) [
  | inl h ↦ rw h (retain-Unique dead m u.1)
  | inr h ↦ rw h (contains_key-retain dead j m u.0, retain-Unique dead m u.1)
]

-- Whether what a table has for a key passes a test.
abbrev is_old : (Key × StoredChunkInfo → Bool) → Key → Option StoredChunkInfo → Bool
is_old old k none = false
is_old old k (some info) = old (k, info)

mem_old :
    (old : Key × StoredChunkInfo → Bool) (k : Key) (m : Map Key StoredChunkInfo)
    → Unique m
    → mem_key k (map (λ (p : Key × StoredChunkInfo). p.0) (keep old m))
      ≡ is_old old k (Assoc.get k m)
unfolding mem_key keep Assoc.get
mem_old old k [] u = refl
mem_old old k ((j, w) ∷ m) u = elim (Bool-cases (j == k)) [
  | inl same ↦
      let e : j ≡ k = (key_beq_iff j k).0 same in
      let others : Assoc.get k m ≡ none = get-contains_key k m (rw e at u.0) in
      elim (Bool-cases (old (j, w))) [
        | inl h ↦ rw (h, same, ← e, h) refl
        | inr h ↦ rw (h, same, mem_old old k m u.1, others, ← e, h) refl
      ]
  | inr other ↦ elim (Bool-cases (old (j, w))) [
    | inl h ↦ rw (h, other) (mem_old old k m u.1)
    | inr h ↦ rw (h, other) (mem_old old k m u.1)
  ]
]

-- What is left of a chunk at a time: it goes once it is as old as chunks get.
abbrev pub left_of : ℕ → Option StoredChunkInfo → Option StoredChunkInfo
left_of now none = none
left_of now (some info) =
    if leb default_chunk_expire_time_s (now - info.time_stored_at) then none else some info

get-retain_alive :
    (dead : List Key) (m : Map Key StoredChunkInfo) (k : Key)
    → Assoc.get k (retain_alive dead m) ≡ (if mem_key k dead then none else Assoc.get k m)
unfolding retain_alive keep Assoc.get
get-retain_alive dead [] k = ground arith
get-retain_alive dead ((j, i) ∷ m) k = ground (arith, key_beq_iff j k, get-retain_alive dead m k)

-- `retain` with the expired keys.
pub get-retain_expired :
    (now : ℕ) (m : ShardStorageManager) (k : Key)
    → IsTidy m
    → Assoc.get k (retain_alive (older_than now m.expire_time_s m) m.owned_chunks)
      ≡ left_of now (Assoc.get k m.owned_chunks)
unfolding older_than
get-retain_expired now m k v =
    rw
      (
        get-retain_alive (older_than now m.expire_time_s m) m.owned_chunks k,
        v.lifetime,
        older_than,
        mem_old (λ p. leb default_chunk_expire_time_s (now - p.1.time_stored_at)) k m.owned_chunks
            v.unique,
      )
      (by_case (Assoc.get k m.owned_chunks))
  where
    by_case :
        (o : Option StoredChunkInfo)
        → (if is_old (λ p. leb default_chunk_expire_time_s (now - p.1.time_stored_at)) k o
            then none
            else o)
          ≡ left_of now o
    by_case none = refl
    by_case (some info) = refl

module _ (fs : FileSystem) where
  write-IsTidy :
      (now : ℕ) (bytes : List ℕ) (hash : Key) (m : ShardStorageManager) (written : fs.Disk × Bool)
      → IsTidy m
      → IsTidy (write_chunk fs now bytes hash m written).0
  unfolding write_chunk
  write-IsTidy now bytes hash m (d, true) v = record {
    unique = insert-Unique hash (record { time_stored_at = now }) m.owned_chunks v.unique;
    lifetime = v.lifetime;
  }
  write-IsTidy now bytes hash m (d, false) v = v

  create-IsTidy :
      (now : ℕ) (bytes : List ℕ) (port : ℕ) (hash : Key) (m : ShardStorageManager)
      (made : fs.Disk × Bool)
      → IsTidy m
      → IsTidy (create_chunk fs now bytes port hash m made).0
  unfolding create_chunk
  create-IsTidy now bytes port hash m (d, true) v =
      write-IsTidy now bytes hash
        (record m { data_transfers_table = (Transfers.remove port m.data_transfers_table).0 })
        (fs.write_all (path_of hash) bytes d) (record { unique = v.unique; lifetime = v.lifetime })
  create-IsTidy now bytes port hash m (d, false) v = v

  store_known-IsTidy :
      (now : ℕ) (bytes : List ℕ) (port : ℕ) (t : DataTransfer) (m : ShardStorageManager)
      (d : fs.Disk)
      → IsTidy m
      → IsTidy (store_known fs now bytes port t m d).0
  unfolding store_known
  store_known-IsTidy now bytes port t m d v =
      ground
        (arith, create-IsTidy now bytes port t.chunk_hash m (fs.create (path_of t.chunk_hash) d) v)

  store-IsTidy :
      (now : ℕ) (bytes : List ℕ) (port : ℕ) (m : ShardStorageManager) (d : fs.Disk)
      → IsTidy m
      → IsTidy (store_chunk_for_known_peer fs now bytes port m d).0
  unfolding store_chunk_for_known_peer
  store-IsTidy now bytes port m d v =
      elim (Option-cases (Transfers.get port m.data_transfers_table)) [
        | inl unknown ↦ rw (unknown, store_chunk_for_known_peer) v
        | inr (t, e) ↦
            rw (e, store_chunk_for_known_peer) (store_known-IsTidy now bytes port t m d v)
      ]

  forget-IsTidy :
      (dead : List Key) (m : ShardStorageManager) (deleted : fs.Disk × Bool)
      → IsTidy m
      → IsTidy (forget_dead fs dead m deleted).0
  unfolding forget_dead
  forget-IsTidy dead m (d, true) v = record {
    unique = retain-Unique dead m.owned_chunks v.unique;
    lifetime = v.lifetime;
  }
  forget-IsTidy dead m (d, false) v = v

  -- In every state that the storage gets to.
  pub Reachable-IsTidy : {m : ShardStorageManager} → Reachable fs m → IsTidy m
  unfolding new add_active_tcp_connection update_chunk_upload_time remove_dead_chunks
  Reachable-IsTidy start = record { unique = tt; lifetime = refl }
  Reachable-IsTidy (agree port sender hash r) =
      let v = Reachable-IsTidy r in record { unique = v.unique; lifetime = v.lifetime }
  Reachable-IsTidy (renew now hash {m = m} r) =
      let v = Reachable-IsTidy r in
      elim (Bool-cases (Assoc.contains_key hash m.owned_chunks)) [
        | inl there ↦ rw there (record {
          unique = insert-Unique hash (record { time_stored_at = now }) m.owned_chunks v.unique;
          lifetime = v.lifetime;
        })
        | inr missing ↦ rw missing v
      ]
  Reachable-IsTidy (store now bytes port d {m = m} r) =
      store-IsTidy now bytes port m d (Reachable-IsTidy r)
  Reachable-IsTidy (expire now d {m = m} r) =
      forget-IsTidy (older_than now m.expire_time_s m) m
        (delete_files fs (older_than now m.expire_time_s m) d) (Reachable-IsTidy r)
