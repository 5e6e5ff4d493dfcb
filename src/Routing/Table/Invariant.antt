-- ===== src/Routing/Table/Invariant.antt =====
-- The invariant of a routing table (src/routing/routing_table.rs): `num_buckets` well-formed buckets,
-- each node in the bucket that the distance to the own key gives.
use mathlib.Core.Path.{◌∙◌}
use rust_p2p_filesystem.Base.{
  ℕ, zero, suc, ◌+◌, ◌-◌, ◌<◌, ◌≡◌, refl, sym, ap, subst, ◌≢◌, List, [], ◌∷◌, some, arith, length,
  length-set, get_elem?, set, replicate,
}
use rust_p2p_filesystem.Base.Outcome.{ok, err}
use rust_p2p_filesystem.Key.{Key, IsKey, key_eq, leading_zeros_in_distance}
use rust_p2p_filesystem.Key.Leading.{leading_zeros-bounds}
use rust_p2p_filesystem.Networking.NodeInfo.{NodeInfo}
use rust_p2p_filesystem.Routing.KBucket.{KBucket, KBucketError, NodeError, add_nodeinfo}
use rust_p2p_filesystem.Routing.KBucket
use rust_p2p_filesystem.Routing.KBucket.Laws.{IsBucket}
use rust_p2p_filesystem.Routing.Table.{
  RoutingTable, attempt_store_self, num_buckets, new, get_bucket_index,
}

-- The node's key lies in bucket `i` of the table of `id`.
abbrev pub Belongs : Key → ℕ → NodeInfo → Type 0
Belongs id i n = IsKey n.id × (leading_zeros_in_distance id n.id + suc i ≡ num_buckets)

-- Buckets whose first one has index `i`.
abbrev pub Buckets : Key → ℕ → List KBucket → Type 0
Buckets id i [] = Unit {0}
Buckets id i (b ∷ bs) = IsBucket (Belongs id i) b × Buckets id (suc i) bs

pub record IsTable (t : RoutingTable) : Type 0 where
  pub own : IsKey t.id
  pub number : length t.buckets ≡ num_buckets
  pub filled : Buckets t.id 0 t.buckets

new-Buckets : (id : Key) (now i k : ℕ) → Buckets id i (replicate k (KBucket.new now))
unfolding replicate KBucket.new
new-Buckets id now i zero = tt
new-Buckets id now i (suc k) = (
  record { full_capacity = refl; bounded = omega arith; distinct = tt; members = tt },
  new-Buckets id now (suc i) k,
)

length-replicate : (k : ℕ) (b : KBucket) → length (replicate k b) ≡ k
unfolding replicate
length-replicate zero b = refl
length-replicate (suc k) b = ap suc (length-replicate k b)

-- The table that a node with a key of K bytes starts with is well formed.
pub new-IsTable : (now : ℕ) (id : Key) → IsKey id → IsTable (new now id)
unfolding new
new-IsTable now id v = record {
  own = v;
  number = length-replicate num_buckets (KBucket.new now);
  filled = new-Buckets id now 0 num_buckets;
}

-- Every other key has a bucket, which its leading zeros name.
pub get_bucket_index_other :
    (t : RoutingTable) (key : Key)
    → IsTable t
    → IsKey key
    → key ≢ t.id
    → (i : ℕ) × (get_bucket_index t key ≡ ok i)
      × (leading_zeros_in_distance t.id key + suc i ≡ num_buckets)
      × (i < length t.buckets)
unfolding get_bucket_index
get_bucket_index_other t key v w ne =
    let b = leading_zeros-bounds t.id key v.own w in
    let lt : leading_zeros_in_distance t.id key < num_buckets =
      omega (
        arith,
        b.0,
        λ (h : leading_zeros_in_distance t.id key ≡ num_buckets). ne (sym (b.1.0 h)),
      ) in
    (
      num_buckets - 1 - leading_zeros_in_distance t.id key,
      ground arith,
      omega arith,
      omega (arith, v.number),
    )

-- The own key has none.
pub get_bucket_index_own :
    (t : RoutingTable) → IsKey t.id → get_bucket_index t t.id ≡ err attempt_store_self
unfolding get_bucket_index
get_bucket_index_own t v = ground (arith, (leading_zeros-bounds t.id t.id v v).1.1 refl)

pub get_bucket_index-ok :
    (t : RoutingTable) (key : Key) (i : ℕ)
    → get_bucket_index t key ≡ ok i
    → leading_zeros_in_distance t.id key + suc i ≡ num_buckets
unfolding get_bucket_index
get_bucket_index-ok t key i h = ground arith

Buckets-at :
    (id : Key) (i j : ℕ) (bs : List KBucket) (b : KBucket)
    → Buckets id i bs
    → get_elem? bs j ≡ some b
    → IsBucket (Belongs id (i + j)) b
Buckets-at id i j [] b v h = absurd (cc)
Buckets-at id i zero (c ∷ bs) b v h =
    subst (λ k. IsBucket (Belongs id k) b) (omega arith)
      (subst (IsBucket (Belongs id i)) (ground arith) v.0)
Buckets-at id i (suc j) (c ∷ bs) b v h =
    subst (λ k. IsBucket (Belongs id k) b) (omega arith) (Buckets-at id (suc i) j bs b v.1 h)

Buckets-set :
    (id : Key) (i j : ℕ) (bs : List KBucket) (b : KBucket)
    → Buckets id i bs
    → IsBucket (Belongs id (i + j)) b
    → Buckets id i (set bs j b)
Buckets-set id i j [] b v w = tt
Buckets-set id i zero (c ∷ bs) b v w = (subst (λ k. IsBucket (Belongs id k) b) (omega arith) w, v.1)
Buckets-set id i (suc j) (c ∷ bs) b v w = (
  v.0,
  Buckets-set id (suc i) j bs b v.1 (subst (λ k. IsBucket (Belongs id k) b) (omega arith) w),
)

pub IsBucket-of :
    (t : RoutingTable) (i : ℕ) (b : KBucket)
    → IsTable t
    → get_elem? t.buckets i ≡ some b
    → IsBucket (Belongs t.id i) b
IsBucket-of t i b v h =
    subst (λ k. IsBucket (Belongs t.id k) b) (omega arith)
      (Buckets-at t.id 0 i t.buckets b v.filled h)

pub set_bucket-IsTable :
    (t : RoutingTable) (i : ℕ) (b : KBucket)
    → IsTable t
    → IsBucket (Belongs t.id i) b
    → IsTable (record t { buckets = set t.buckets i b })
set_bucket-IsTable t i b v w = record {
  own = v.own;
  number = length-set t.buckets i b ∙ v.number;
  filled =
      Buckets-set t.id 0 i t.buckets b v.filled
        (subst (λ k. IsBucket (Belongs t.id k) b) (omega arith) w);
}
