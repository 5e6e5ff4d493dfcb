-- ===== src/Storage/Shards/Expiry.antt =====
-- `remove_dead_chunks` of src/storage/shard_storage_manager.rs.
use rust_p2p_filesystem.Base.{
  ℕ, ◌-◌, ◌≡◌, refl, Bool, true, false, List, [], ◌∷◌, leb, keep, map, arith, All, All-map,
  beq_refl,
}
use rust_p2p_filesystem.Base.Outcome.{ok}
use rust_p2p_filesystem.Base.Assoc.{Map}
use rust_p2p_filesystem.Key.{Key, key_eq}
use rust_p2p_filesystem.Storage.FileSystem.{FileSystem}
use rust_p2p_filesystem.Storage.Shards.{
  ShardStorageManager, StoredChunkInfo, mem_key, retain_alive, delete_files, forget_dead,
  remove_dead_chunks, older_than,
}

abbrev Entry : Type 0
Entry = Key × StoredChunkInfo

module _ (old : Entry → Bool) where
  -- Every entry that passes is among the listed keys.
  mem_selected :
      (xs : List Entry)
      → All (λ x. old x ≡ true → mem_key x.0 (map (λ (p : Entry). p.0) (keep old xs)) ≡ true) xs
  unfolding keep mem_key
  mem_selected [] = tt
  mem_selected (x ∷ xs) = (
    λ h. rw (h, keep, beq_refl x.0, mem_key) refl,
    All-map
        {Q = λ y. old y ≡ true → mem_key y.0 (map (λ (p : Entry). p.0) (keep old (x ∷ xs))) ≡ true}
        (λ (y : Entry) k h. ground (arith, k h)) xs (mem_selected xs),
  )

  -- So no entry that passes is kept.
  none_selected :
      (dead : List Key) (xs : List Entry)
      → All (λ x. old x ≡ true → mem_key x.0 dead ≡ true) xs
      → All (λ x. old x ≡ false) (retain_alive dead xs)
  unfolding retain_alive keep
  none_selected dead [] h = tt
  none_selected dead (x ∷ xs) h = ground (arith, none_selected dead xs h.1, h.0)

-- The entries that are younger than the threshold at the time `now`.
abbrev pub Young : ℕ → ℕ → Map Key StoredChunkInfo → Type 0
Young now threshold m = All (λ (p : Entry). leb threshold (now - p.1.time_stored_at) ≡ false) m

module _ (fs : FileSystem) where
  forget-Young :
      (now : ℕ) (m : ShardStorageManager) (deleted : fs.Disk × Bool)
      → (forget_dead fs (older_than now m.expire_time_s m) m deleted).2 ≡ ok tt
      → Young now m.expire_time_s
          (forget_dead fs (older_than now m.expire_time_s m) m deleted).0.owned_chunks
  unfolding forget_dead older_than
  forget-Young now m (d, true) h =
      none_selected (λ p. leb m.expire_time_s (now - p.1.time_stored_at))
        (older_than now m.expire_time_s m) m.owned_chunks
        (mem_selected (λ p. leb m.expire_time_s (now - p.1.time_stored_at)) m.owned_chunks)
  forget-Young now m (d, false) h = absurd (cc)

  -- When `remove_dead_chunks` succeeds, every chunk that is still owned is younger than the time
  -- after which chunks expire.
  pub remove_dead_chunks-Young :
      (now : ℕ) (m : ShardStorageManager) (d : fs.Disk)
      → (remove_dead_chunks fs now m d).2 ≡ ok tt
      → Young now m.expire_time_s (remove_dead_chunks fs now m d).0.owned_chunks
  unfolding remove_dead_chunks
  remove_dead_chunks-Young now m d =
      forget-Young now m (delete_files fs (older_than now m.expire_time_s m) d)
