-- ===== src/Routing/Table/OwnBucket.antt =====
-- The bucket of src/routing/routing_table.rs that a key belongs to, among the nodes of the table.
use mathlib.Core.List.{append-nil}
use rust_p2p_filesystem.Base.{
  ℕ, zero, suc, ◌+◌, ◌<◌, ◌≡◌, refl, ◌≢◌, Bool, true, false, List, [], ◌∷◌, arith, All, All-map,
  All-append, inl, inr, ◌⊎◌, keep, keep-append, keep_all, keep_none, nat_beq,
}
use rust_p2p_filesystem.Key.{Key, IsKey, distance, leading_zeros_in_distance}
use rust_p2p_filesystem.Key.Metric.{distance_comm}
use rust_p2p_filesystem.Key.Order.{bytes_lt_not_le}
use rust_p2p_filesystem.Key.Leading.{
  leading_zeros_agree, leading_zeros_differ, leading_zeros_differ', leading_zeros-closer,
}
use rust_p2p_filesystem.Networking.NodeInfo.{NodeInfo}
use rust_p2p_filesystem.Routing.KBucket.{KBucket}
use rust_p2p_filesystem.Routing.Table.{num_buckets, nodes_at, closer_le, all_nodes}
use rust_p2p_filesystem.Routing.Table.Invariant.{Belongs, Buckets}

two_ways : (a b : ℕ) → a ≢ b → (a < b) ⊎ (b < a)
two_ways a b h = omega arith

-- Whether a node shares its bucket with the key.
abbrev pub shares : Key → Key → NodeInfo → Bool
shares id key n = nat_beq (leading_zeros_in_distance id n.id) (leading_zeros_in_distance id key)

module _ (id key : Key) (v : IsKey id) (w : IsKey key) where
  -- A node of the key's bucket is nearer to the key than any node of another bucket.
  pub bucket-closer :
      (x y : NodeInfo)
      → IsKey x.id
      → IsKey y.id
      → leading_zeros_in_distance id key < num_buckets
      → shares id key x ≡ false
      → shares id key y ≡ true
      → closer_le key x y ≡ false
  bucket-closer x y vx vy lt px py =
      rw (distance_comm x.id key, distance_comm y.id key)
        (bytes_lt_not_le (distance key y.id) (distance key x.id)
          (leading_zeros-closer key x.id y.id w vx vy further))
    where
      same : leading_zeros_in_distance id key ≡ leading_zeros_in_distance id y.id
      same = ground arith

      further : leading_zeros_in_distance key x.id < leading_zeros_in_distance key y.id
      further =
          elim (two_ways (leading_zeros_in_distance id x.id) (leading_zeros_in_distance id key)
            (ground arith)) [
              | inl h ↦ omega (
                arith,
                leading_zeros_differ id key x.id v w vx h,
                leading_zeros_agree id key y.id v w vy same lt,
              )
              | inr h ↦ omega (
                arith,
                leading_zeros_differ' id key x.id v w vx h,
                leading_zeros_agree id key y.id v w vy same lt,
              )
            ]

  module _ (k : ℕ) (at_k : leading_zeros_in_distance id key + suc k ≡ num_buckets) where
    other_bucket :
        (i : ℕ) (ns : List NodeInfo)
        → i ≢ k
        → All (Belongs id i) ns
        → All (λ n. shares id key n ≡ false) ns
    other_bucket i [] ne h = tt
    other_bucket i (n ∷ ns) ne h = (ground arith, other_bucket i ns ne h.1)

    own_bucket :
        (i : ℕ) (ns : List NodeInfo)
        → i ≡ k
        → All (Belongs id i) ns
        → All (λ n. shares id key n ≡ true) ns
    own_bucket i [] e h = tt
    own_bucket i (n ∷ ns) e h = (ground arith, own_bucket i ns e h.1)

    keep_above :
        (i : ℕ) (bs : List KBucket)
        → k < i
        → Buckets id i bs
        → keep (shares id key) (all_nodes bs) ≡ []
    unfolding all_nodes keep
    keep_above i [] lt h = refl
    keep_above i (b ∷ bs) lt h =
        rw
          (
            keep-append (shares id key) b.nodes (all_nodes bs),
            keep_none (shares id key) b.nodes (other_bucket i b.nodes (omega arith) h.0.members),
          )
          (keep_above (suc i) bs (omega arith) h.1)

    -- The nodes of the table that share the key's bucket are that bucket.
    pub keep-shares :
        (i j : ℕ) (bs : List KBucket)
        → i + j ≡ k
        → Buckets id i bs
        → keep (shares id key) (all_nodes bs) ≡ nodes_at bs j
    unfolding all_nodes nodes_at keep
    keep-shares i j [] e h = refl
    keep-shares i zero (b ∷ bs) e h =
        rw
          (
            keep-append (shares id key) b.nodes (all_nodes bs),
            keep_all (shares id key) b.nodes (own_bucket i b.nodes (omega arith) h.0.members),
            keep_above (suc i) bs (omega arith) h.1,
          )
          (append-nil b.nodes)
    keep-shares i (suc j) (b ∷ bs) e h =
        rw
          (
            keep-append (shares id key) b.nodes (all_nodes bs),
            keep_none (shares id key) b.nodes (other_bucket i b.nodes (omega arith) h.0.members),
          )
          (keep-shares (suc i) j bs (omega arith) h.1)

pub all-IsKey :
    (id : Key) (i : ℕ) (bs : List KBucket) → Buckets id i bs → All (λ n. IsKey n.id) (all_nodes bs)
unfolding all_nodes
all-IsKey id i [] h = tt
all-IsKey id i (b ∷ bs) h =
    All-append (λ n. IsKey n.id) b.nodes (all_nodes bs) (All-map (λ n m. m.0) b.nodes h.0.members)
      (all-IsKey id (suc i) bs h.1)
