-- ===== src/Storage/Shards/History.antt =====
-- How a chunk comes to be owned by the storage of src/storage/shard_storage_manager.rs.
use rust_p2p_filesystem.Base.{
  ℕ, ◌≤◌, ◌≡◌, sym, ap, ◌∙◌, inl, inr, true, false, List, ◌∷◌, Option, none, some, nat_eq, ◌==◌,
  Bool-cases, Option-cases, length, arith,
}
use rust_p2p_filesystem.Base.Assoc
use rust_p2p_filesystem.Constants.{encrypted_chunk_size_b}
use rust_p2p_filesystem.Key.{Key, key_eq, key_beq_iff}
use rust_p2p_filesystem.Storage.FileSystem.{FileSystem}
use rust_p2p_filesystem.Storage.Transfers.{DataTransfer}
use rust_p2p_filesystem.Storage.Shards.{ShardStorageManager, StoredChunkInfo}
use rust_p2p_filesystem.Storage.Shards.Reach.{Reachable}
use rust_p2p_filesystem.Storage.Shards.Refinement.{
  View, Event, agrees, data_came, history, Allowed, at_start, agreed, renewed, not_renewed, came,
  refused, expired, not_expired, Reachable-Allowed,
}

-- A call that leaves the transfer of a port: neither another agreement nor data for it.
abbrev LeavesPort : ℕ → Event → Type 0
LeavesPort port (agrees p sender hash) = (p == port) ≡ false
LeavesPort port (data_came now p bytes true) = (p == port) ≡ false
LeavesPort port _ = Unit {0}

abbrev IsAgreement : ℕ → Key → Event → Type 0
IsAgreement port hash (agrees p sender k) = (p ≡ port) × (k ≡ hash)
IsAgreement port hash _ = ⊥

-- The last agreement for the port was for the chunk, and no data was taken there since.
pub data AgreedOn (port : ℕ) (hash : Key) : List Event → Type 0 where
  just_now : {h : List Event} {e : Event} → IsAgreement port hash e → AgreedOn port hash (e ∷ h)
  earlier :
      {h : List Event} {e : Event}
      → LeavesPort port e
      → AgreedOn port hash h
      → AgreedOn port hash (e ∷ h)

-- At some moment data no longer than an encrypted chunk was taken for the chunk.
pub data Delivered (hash : Key) : List Event → Type 0 where
  arrived :
      {h : List Event} (now port : ℕ) (bytes : List ℕ)
      → length bytes ≤ encrypted_chunk_size_b
      → AgreedOn port hash h
      → Delivered hash (data_came now port bytes true ∷ h)
  before : {h : List Event} (e : Event) → Delivered hash h → Delivered hash (e ∷ h)

hash_of : Option DataTransfer → Key → Key
hash_of (some t) k = t.chunk_hash
hash_of none k = k

transfer-AgreedOn :
    {h : List Event} {v : View}
    → Allowed h v
    → (p : ℕ) (t : DataTransfer) → v.transfer p ≡ some t
    → AgreedOn p t.chunk_hash h
unfolding hash_of
transfer-AgreedOn (at_start nothing _) p t e = absurd (cc (sym (nothing p) ∙ e))
transfer-AgreedOn (agreed port sender hash a tr _) p t e = elim (Bool-cases (port == p)) [
  | inl same ↦
      just_now (ground arith, ap (λ o. hash_of o t.chunk_hash) (rw same at (sym (tr p) ∙ e)))
  | inr other ↦ earlier other (transfer-AgreedOn a p t (rw other at (sym (tr p) ∙ e)))
]
transfer-AgreedOn (renewed now hash info a _ tr _) p t e =
    earlier tt (transfer-AgreedOn a p t (sym (tr p) ∙ e))
transfer-AgreedOn (not_renewed now hash a _ tr _) p t e =
    earlier tt (transfer-AgreedOn a p t (sym (tr p) ∙ e))
transfer-AgreedOn (came now port bytes t' a _ _ tr _) p t e = elim (Bool-cases (port == p)) [
  | inl same ↦ absurd (cc (rw same at (sym (tr p) ∙ e)))
  | inr other ↦ earlier other (transfer-AgreedOn a p t (rw other at (sym (tr p) ∙ e)))
]
transfer-AgreedOn (refused now port bytes a (inl tr) _) p t e =
    earlier tt (transfer-AgreedOn a p t (sym (tr p) ∙ e))
transfer-AgreedOn (refused now port bytes a (inr tr) _) p t e = elim (Bool-cases (port == p)) [
  | inl same ↦ absurd (cc (rw same at (sym (tr p) ∙ e)))
  | inr other ↦ earlier tt (transfer-AgreedOn a p t (rw other at (sym (tr p) ∙ e)))
]
transfer-AgreedOn (expired now a tr _) p t e = earlier tt (transfer-AgreedOn a p t (sym (tr p) ∙ e))
transfer-AgreedOn (not_expired now a tr _) p t e =
    earlier tt (transfer-AgreedOn a p t (sym (tr p) ∙ e))

stored-Delivered :
    {h : List Event} {v : View}
    → Allowed h v
    → (k : Key) (info : StoredChunkInfo) → v.stored k ≡ some info
    → Delivered k h
stored-Delivered (at_start _ nothing) k info e = absurd (cc (sym (nothing k) ∙ e))
stored-Delivered (agreed port sender hash a _ ch) k info e =
    before _ (stored-Delivered a k info (sym (ch k) ∙ e))
stored-Delivered (renewed now hash old a there _ ch) k info e = elim (Bool-cases (hash == k)) [
  | inl same ↦ before _ (stored-Delivered a k old (rw ((key_beq_iff hash k).0 same) at there))
  | inr other ↦ before _ (stored-Delivered a k info (rw other at (sym (ch k) ∙ e)))
]
stored-Delivered (not_renewed now hash a _ _ ch) k info e =
    before _ (stored-Delivered a k info (sym (ch k) ∙ e))
stored-Delivered (came now port bytes t a there fits _ ch) k info e =
    elim (Bool-cases (t.chunk_hash == k)) [
      | inl same ↦
          rw (← (key_beq_iff t.chunk_hash k).0 same)
            (arrived now port bytes fits (transfer-AgreedOn a port t there))
      | inr other ↦ before _ (stored-Delivered a k info (rw other at (sym (ch k) ∙ e)))
    ]
stored-Delivered (refused now port bytes a _ ch) k info e =
    before _ (stored-Delivered a k info (sym (ch k) ∙ e))
stored-Delivered (expired {v = v} now a _ ch) k info e = elim (Option-cases (v.stored k)) [
  | inl q ↦ absurd (cc (rw q at (sym (ch k) ∙ e)))
  | inr (old, q) ↦ before _ (stored-Delivered a k old q)
]
stored-Delivered (not_expired now a _ ch) k info e =
    before _ (stored-Delivered a k info (sym (ch k) ∙ e))

module _ (fs : FileSystem) where
  -- Whatever calls a storage went through since it was new, a chunk that it owns was delivered to
  -- it: at some moment it took data no longer than an encrypted chunk on a port for which the last
  -- agreement was for this chunk, with no data taken on the port since that agreement.
  pub owned-Delivered :
      {m : ShardStorageManager} (r : Reachable fs m) (k : Key) (info : StoredChunkInfo)
      → Assoc.get k m.owned_chunks ≡ some info
      → Delivered k (history fs r)
  owned-Delivered r k info e = stored-Delivered (Reachable-Allowed fs r) k info e
