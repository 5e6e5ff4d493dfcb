-- ===== src/Sharding/Uploader/Padding.antt =====
-- The padding of a chunk of src/sharding/uploader.rs, and how src/sharding/downloader.rs cuts it off.
use rust_p2p_filesystem.Base.{
  ℕ, ◌-◌, ◌<◌, ◌≤◌, ◌^◌, ◌%◌, beq_refl, ◌≡◌, refl, ap, ◌∙◌, subst, not, if◌then◌else◌, nat_beq,
  take-append, drop-append, List, ◌++◌, some, arith, length, take, drop, length-append,
}
use rust_p2p_filesystem.Base.Outcome.{ok, done}
use rust_p2p_filesystem.Key.{key_eq}
use rust_p2p_filesystem.Sharding.Encryption.{random_bytes, length-random_bytes}
use rust_p2p_filesystem.Sharding.Words.{to_le_bytes, from_le_bytes, from_le_bytes-to_le_bytes}
use rust_p2p_filesystem.Sharding.Metadata.{Chunk, ChunkMetadata}
use rust_p2p_filesystem.Sharding.Uploader.{with_size, padded}
use rust_p2p_filesystem.Sharding.Downloader.{
  Writer, FileDownloader, write_chunk, store_unpadded, store_decrypted,
}

-- The padding fills a chunk up.
length-padded :
    (size : ℕ) (random : ℕ → ℕ) (bytes : List ℕ)
    → length bytes ≤ size
    → length (padded size random bytes) ≡ size
unfolding padded
length-padded size random bytes h = ground (
  arith,
  length-append bytes (random_bytes random (size - length bytes)),
  length-random_bytes random (size - length bytes),
)

-- The padding is cut off again.
unpad :
    (size : ℕ) (random : ℕ → ℕ) (bytes : List ℕ)
    → length bytes ≤ size
    → (if not (nat_beq (length (padded size random bytes)) (length bytes))
        then take (length bytes) (padded size random bytes)
        else padded size random bytes)
      ≡ bytes
unfolding padded
unpad size random bytes h = ground (
  arith,
  length-padded size random bytes h,
  take-append bytes (random_bytes random (size - length bytes)),
)

four_bytes : (n : ℕ) → n < 2 ^ 32 → from_le_bytes (take 4 (to_le_bytes (n % 2 ^ 32))) ≡ some n
unfolding take to_le_bytes
four_bytes n h =
    let same : n % 2 ^ 32 ≡ n = omega arith in
    rw (from_le_bytes-to_le_bytes (n % 2 ^ 32) (omega arith), same) refl

module _ {W : Type 0} (writer : Writer W) (size : ℕ) (small : size < 2 ^ 32) where
  -- What is written of a text that was decrypted.
  store_decrypted-text :
      (chunk : Chunk) (m : ChunkMetadata) (d : FileDownloader W) (text kept bytes : List ℕ) (n : ℕ)
      → chunk.hash ≡ m.hash
      → take size text ≡ kept
      → from_le_bytes (take 4 (drop size text)) ≡ some n
      → (if not (nat_beq (length kept) n) then take n kept else kept) ≡ bytes
      → store_decrypted writer size chunk m d (ok text) ≡ done (write_chunk writer bytes d)
  unfolding store_decrypted store_unpadded
  store_decrypted-text chunk m d text kept bytes n same front counted cut =
      rw (counted, front, cut, same, beq_refl m.hash) refl

  -- What stands in a chunk of the uploader is written without its padding.
  pub store_decrypted-with_size :
      (chunk : Chunk) (m : ChunkMetadata) (d : FileDownloader W) (random : ℕ → ℕ) (bytes : List ℕ)
      → chunk.hash ≡ m.hash
      → length bytes ≤ size
      → store_decrypted writer size chunk m d
          (ok (with_size (length bytes) (padded size random bytes)))
        ≡ done (write_chunk writer bytes d)
  unfolding with_size
  store_decrypted-with_size chunk m d random bytes same h =
      let filled = padded size random bytes in
      let word = to_le_bytes (length bytes % 2 ^ 32) in
      let full : length filled ≡ size = length-padded size random bytes h in
      let kept : take size (filled ++ word) ≡ filled =
        subst (λ k. take k (filled ++ word) ≡ filled) full (take-append filled word) in
      let behind : drop size (filled ++ word) ≡ word =
        subst (λ k. drop k (filled ++ word) ≡ word) full (drop-append filled word) in
      store_decrypted-text chunk m d (filled ++ word) filled bytes (length bytes) same kept
        (ap (λ w. from_le_bytes (take 4 w)) behind ∙ four_bytes (length bytes) (omega arith))
        (unpad size random bytes h)
