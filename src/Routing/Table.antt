-- ===== src/Routing/Table.antt =====
-- src/routing/routing_table.rs. The bucket of a key is given by the leading zeros of its distance
-- to the own key. `ping`, the clock `now` and the random key are arguments.
--
-- An index is checked once, where the source first uses it: an index out of range is a panic. All
-- later indices are below the first one or below the length, so `nodes_at` is never asked for a
-- bucket that is missing. `i_down` is signed in the source; here `down` is `i_down + 1`.
pub mod Round
pub mod Gather
pub mod Invariant
pub mod Store
pub mod OwnBucket
pub mod Closest
use Prim.Native.Nat.{compare, Ordering}
use rust_p2p_filesystem.Base.{
  ℕ, zero, suc, ◌+◌, ◌-◌, ◌*◌, Bool, true, false, ◌&&◌, List, [], ◌∷◌, ◌++◌, Option, none, some,
  ltb, leb, if◌then◌else◌, length, is_empty, get_elem?, set, take, replicate, map,
}
use rust_p2p_filesystem.Base.Sort.{sort}
use rust_p2p_filesystem.Base.Outcome.{Result, ok, err, Task, done, panicked, ◌>>=◌}
use rust_p2p_filesystem.Constants.{K, alpha}
use rust_p2p_filesystem.Key.{Key, distance, leading_zeros_in_distance}
use rust_p2p_filesystem.Key.Order.{bytes_le}
use rust_p2p_filesystem.Key.Bits.{make_exactly_n_same_leading_bits_as}
use rust_p2p_filesystem.Networking.NodeInfo.{NodeInfo}
use rust_p2p_filesystem.Routing.KBucket.{
  KBucket, KBucketError, NodeError, set_last_lookup_now, add_nodeinfo,
}
use rust_p2p_filesystem.Routing.KBucket

pub data RoutingTableError : Type 0 where
  empty : RoutingTableError
  bucket_not_found_for_id : Key → RoutingTableError
  bucket_not_found : RoutingTableError
  kbucket_failed : KBucketError → RoutingTableError
  attempt_store_self : RoutingTableError

pub record RoutingTable : Type 0 where
  pub id : Key
  pub buckets : List KBucket

abbrev pub num_buckets : ℕ
num_buckets = K * 8

abbrev pub default_bucket_refresh_interval_s : ℕ
default_bucket_refresh_interval_s = 3600

abbrev pub Ping : Type 0
Ping = Key → Task (Option NodeError)

unfoldable pub new : ℕ → Key → RoutingTable
unfolding KBucket.new replicate
new now id = record { id = id; buckets = replicate num_buckets (KBucket.new now) }

unfoldable pub get_bucket_index : RoutingTable → Key → Result RoutingTableError ℕ
get_bucket_index t key =
    let lz = leading_zeros_in_distance t.id key in
    elim (compare lz num_buckets) [
      | Ordering.eq ↦ err attempt_store_self
      | Ordering.gt ↦ err (bucket_not_found_for_id key)
      | Ordering.lt ↦ ok (num_buckets - 1 - lz)
    ]

-- The answer of the bucket, with its error wrapped (`?`), and the bucket put back.
unfoldable pub put_back :
    RoutingTable
    → ℕ
    → KBucket × Result KBucketError (Unit {0})
    → RoutingTable × Result RoutingTableError (Unit {0})
put_back t i (bucket, ok u) = (record t { buckets = set t.buckets i bucket }, ok u)
put_back t i (bucket, err e) =
    (record t { buckets = set t.buckets i bucket }, err (kbucket_failed e))

unfoldable pub store_nodeinfo :
    Ping → NodeInfo → RoutingTable → Task (RoutingTable × Result RoutingTableError (Unit {0}))
unfolding put_back
store_nodeinfo ping node_info t = elim (get_bucket_index t node_info.id) [
  | err e ↦ done (t, err e)
  | ok bucket_index ↦ elim (get_elem? t.buckets bucket_index) [
    | some bucket ↦ do
      added ← add_nodeinfo ping node_info bucket
      done (put_back t bucket_index added)
    | none ↦ done (t, err (bucket_not_found_for_id node_info.id))
  ]
]

-- The first error ends the loop.
unfoldable pub store_nodeinfo_multiple :
    Ping → List NodeInfo → RoutingTable → Task (RoutingTable × Result RoutingTableError (Unit {0}))
store_nodeinfo_multiple ping [] t = done (t, ok tt)
store_nodeinfo_multiple ping (n ∷ ns) t = do
  (t', r) ← store_nodeinfo ping n t
  elim r [ ok u ↦ store_nodeinfo_multiple ping ns t' | err e ↦ done (t', err e) ]

unfoldable pub get_nodeinfo : Key → RoutingTable → Task (Result RoutingTableError (Option NodeInfo))
get_nodeinfo key t = elim (get_bucket_index t key) [
  | err e ↦ done (err e)
  | ok bucket_index ↦ elim (get_elem? t.buckets bucket_index) [
    | some bucket ↦ done (ok (KBucket.get_nodeinfo key bucket))
    | none ↦ panicked
  ]
]

-- The nodes of one bucket.
unfoldable pub nodes_at : List KBucket → ℕ → List NodeInfo
nodes_at [] i = []
nodes_at (b ∷ bs) zero = b.nodes
nodes_at (b ∷ bs) (suc i) = nodes_at bs i

-- The variables of the loop of `get_n_closest`.
pub record Search : Type 0 where
  pub result : List NodeInfo
  pub up : ℕ
  pub down : ℕ
  pub taken_some : Bool

-- "Take one up", with the number of nodes that it gave.
unfoldable pub take_up : List KBucket → Search → Search × ℕ
take_up buckets s =
    if ltb s.up (length buckets)
    then (
      record s { result = s.result ++ nodes_at buckets s.up; up = s.up + 1; taken_some = true },
      length (nodes_at buckets s.up),
    )
    else (s, 0)

-- The inner loop: buckets below, until they gave as many nodes as the one above.
unfoldable pub drain : List KBucket → ℕ → ℕ → List NodeInfo → ℕ → List NodeInfo × ℕ
drain buckets got_u got_d result zero = (result, 0)
drain buckets got_u got_d result (suc d) =
    let more =
      drain buckets got_u (got_d + length (nodes_at buckets d)) (result ++ nodes_at buckets d) d in
    if ltb got_d got_u then more else (result, suc d)

-- "Take down as much to match amount taken up"
unfoldable pub take_down : List KBucket → ℕ → Search → ℕ → Search
unfolding drain
take_down buckets got_u s zero = s
take_down buckets got_u s (suc d) =
    let drained =
      drain buckets got_u (length (nodes_at buckets d)) (s.result ++ nodes_at buckets d) d in
    record s { result = drained.0; down = drained.1; taken_some = true }

unfoldable pub round : List KBucket → Search → Search
unfolding take_up take_down
round buckets s =
    let (s', got_u) = take_up buckets (record s { taken_some = false }) in
    take_down buckets got_u s' s'.down

-- The loop, on fuel.
unfoldable pub gather : List KBucket → ℕ → ℕ → Search → Search
unfolding round
gather buckets n zero s = s
gather buckets n (suc fuel) s = elim (ltb (length s.result) n && s.taken_some) [
  | true ↦ gather buckets n fuel (round buckets s)
  | false ↦ s
]

-- The search starts with the nodes of the key's own bucket.
unfoldable pub start : List KBucket → ℕ → Search
start buckets i = record { result = nodes_at buckets i; up = i + 1; down = i; taken_some = true }

-- `sort_by_key(|node| node.id.distance(key))`
abbrev pub closer_le : Key → NodeInfo → NodeInfo → Bool
closer_le key a b = bytes_le (distance a.id key) (distance b.id key)

unfoldable pub pick : Key → ℕ → List NodeInfo → Result RoutingTableError (List NodeInfo)
unfolding sort take
pick key n result = if is_empty result then err empty else ok (take n (sort (closer_le key) result))

-- One round moves an index, so the sum of what is left on both sides is fuel enough.
unfoldable pub get_n_closest :
    RoutingTable → Key → ℕ → Task (Result RoutingTableError (List NodeInfo))
unfolding gather start pick
get_n_closest t key n = elim (get_bucket_index t key) [
  | err e ↦ done (err e)
  | ok i ↦
      if ltb i (length t.buckets)
      then done
          (pick key n (gather t.buckets n (length t.buckets + i + 2) (start t.buckets i)).result)
      else panicked
]

unfoldable pub get_alpha_closest :
    RoutingTable → Key → Task (Result RoutingTableError (List NodeInfo))
unfolding get_n_closest
get_alpha_closest t key = get_n_closest t key alpha

unfoldable pub get_k_closest : RoutingTable → Key → Task (Result RoutingTableError (List NodeInfo))
unfolding get_n_closest
get_k_closest t key = get_n_closest t key K

unfoldable pub lookup_get_n_closest :
    ℕ → RoutingTable → Key → ℕ → Task (RoutingTable × Result RoutingTableError (List NodeInfo))
unfolding get_n_closest
lookup_get_n_closest now t key n = elim (get_bucket_index t key) [
  | err e ↦ done (t, err e)
  | ok i ↦ elim (get_elem? t.buckets i) [
    | none ↦ panicked
    | some bucket ↦
        let t' = record t { buckets = set t.buckets i (set_last_lookup_now now bucket) } in
        do found ← get_n_closest t' key n; done (t', found)
  ]
]

unfoldable pub lookup_get_alpha_closest :
    ℕ → RoutingTable → Key → Task (RoutingTable × Result RoutingTableError (List NodeInfo))
unfolding lookup_get_n_closest
lookup_get_alpha_closest now t key = lookup_get_n_closest now t key alpha

unfoldable pub lookup_get_k_closest :
    ℕ → RoutingTable → Key → Task (RoutingTable × Result RoutingTableError (List NodeInfo))
unfolding lookup_get_n_closest
lookup_get_k_closest now t key = lookup_get_n_closest now t key K

-- All nodes, bucket by bucket.
unfoldable pub all_nodes : List KBucket → List NodeInfo
all_nodes [] = []
all_nodes (b ∷ bs) = b.nodes ++ all_nodes bs

unfoldable pub get_all_nodeinfos : RoutingTable → List NodeInfo
unfolding all_nodes
get_all_nodeinfos t = all_nodes t.buckets

-- The reference of the tests: sort all nodes of the table.
unfoldable pub get_n_closest_slow :
    RoutingTable → Key → ℕ → Result RoutingTableError (List NodeInfo)
unfolding all_nodes pick
get_n_closest_slow t key n = pick key n (all_nodes t.buckets)

-- `key` is the random key that the source draws.
unfoldable pub get_random_id_for_bucket : Key → RoutingTable → ℕ → Key
get_random_id_for_bucket key t bucket_i =
    make_exactly_n_same_leading_bits_as key t.id (160 - bucket_i - 1)

-- The buckets at an index from `i` on whose last lookup is long ago.
unfoldable pub stale_from : ℕ → ℕ → List KBucket → List ℕ
stale_from now i [] = []
stale_from now i (b ∷ bs) =
    if leb default_bucket_refresh_interval_s (now - b.last_lookup_at)
    then i ∷ stale_from now (i + 1) bs
    else stale_from now (i + 1) bs

-- `random i` is the key that is drawn for bucket `i`.
unfoldable pub get_node_ids_for_refresh : ℕ → (ℕ → Key) → RoutingTable → List Key
unfolding stale_from get_random_id_for_bucket
get_node_ids_for_refresh now random t =
    map (λ i. get_random_id_for_bucket (random i) t i) (stale_from now 0 t.buckets)
