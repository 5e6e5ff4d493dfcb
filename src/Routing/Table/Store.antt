-- ===== src/Routing/Table/Store.antt =====
-- `store_nodeinfo`, `store_nodeinfo_multiple` and `get_nodeinfo` of src/routing/routing_table.rs on
-- a well-formed table.
use rust_p2p_filesystem.Base.{
  Bool-cases, inl, inr, ℕ, ◌<◌, ◌≡◌, refl, sym, ap, ◌∙◌, subst, List, [], ◌∷◌, ◌++◌, Option, none,
  some, length, get_elem?, get_elem?-set_self, set, All, ◌==◌, if◌then◌else◌, get_elem?-lt,
}
use rust_p2p_filesystem.Base.Outcome.{Result, ok, err, Task, done, panicked, blocked, ◌>>=◌}
use rust_p2p_filesystem.Key.{Key, IsKey, key_eq}
use rust_p2p_filesystem.Networking.NodeInfo.{NodeInfo}
use rust_p2p_filesystem.Routing.KBucket.{KBucket, KBucketError, NodeError, add_nodeinfo}
use rust_p2p_filesystem.Routing.KBucket
use rust_p2p_filesystem.Routing.KBucket.Laws.{IsBucket, erase}
use rust_p2p_filesystem.Routing.KBucket.Add.{add_nodeinfo-IsBucket, add_nodeinfo_room}
use rust_p2p_filesystem.Routing.Table.{
  RoutingTable, RoutingTableError, bucket_not_found_for_id, Ping, get_bucket_index, put_back,
  store_nodeinfo, store_nodeinfo_multiple, get_nodeinfo,
}
use rust_p2p_filesystem.Routing.Table.Invariant.{
  Belongs, IsTable, get_bucket_index-ok, IsBucket-of, set_bucket-IsTable,
}

abbrev Reply : Type 0
Reply = RoutingTable × Result RoutingTableError (Unit {0})

-- A property of the table that a call leaves, if it returns.
abbrev pub Leaves : (RoutingTable → Type 0) → Task Reply → Type 0
Leaves P (done (t, r)) = P t
Leaves P panicked = Unit {0}
Leaves P blocked = Unit {0}

put_back-IsTable :
    (t : RoutingTable) (i : ℕ) (added : KBucket × Result KBucketError (Unit {0}))
    → IsTable t
    → IsBucket (Belongs t.id i) added.0
    → IsTable (put_back t i added).0
unfolding put_back
put_back-IsTable t i (b, ok u) v w = set_bucket-IsTable t i b v w
put_back-IsTable t i (b, err e) v w = set_bucket-IsTable t i b v w

put_back_id :
    (t : RoutingTable) (i : ℕ) (added : KBucket × Result KBucketError (Unit {0}))
    → (put_back t i added).0.id ≡ t.id
unfolding put_back
put_back_id t i (b, ok u) = refl
put_back_id t i (b, err e) = refl

-- A table of the same node.
abbrev pub IsTableOf : Key → RoutingTable → Type 0
IsTableOf id t = IsTable t × (t.id ≡ id)

added-Leaves :
    (ping : Ping) (n : NodeInfo) (t : RoutingTable) (i : ℕ) (b : KBucket)
    → IsTable t
    → IsBucket (Belongs t.id i) b
    → Belongs t.id i n
    → Leaves (IsTableOf t.id) (add_nodeinfo ping n b >>= λ added. done (put_back t i added))
added-Leaves ping n t i b v w p = go (add_nodeinfo ping n b) refl
  where
    go :
        (a : Task (KBucket × Result KBucketError (Unit {0})))
        → add_nodeinfo ping n b ≡ a
        → Leaves (IsTableOf t.id) (a >>= λ added. done (put_back t i added))
    go (done (b', r)) e = (
      put_back-IsTable t i (b', r) v (add_nodeinfo-IsBucket (Belongs t.id i) ping n b w p e),
      put_back_id t i (b', r),
    )
    go panicked e = tt
    go blocked e = tt

-- The three ways of `store_nodeinfo`.
module _ (ping : Ping) (n : NodeInfo) (t : RoutingTable) where
  store_no_index :
      (e : RoutingTableError)
      → get_bucket_index t n.id ≡ err e
      → store_nodeinfo ping n t ≡ done (t, err e)
  unfolding store_nodeinfo
  store_no_index e h = rw (h, store_nodeinfo) refl

  store_no_bucket :
      (i : ℕ)
      → get_bucket_index t n.id ≡ ok i
      → get_elem? t.buckets i ≡ none
      → store_nodeinfo ping n t ≡ done (t, err (bucket_not_found_for_id n.id))
  unfolding store_nodeinfo
  store_no_bucket i h e = rw (h, e, store_nodeinfo) refl

  pub store_in_bucket :
      (i : ℕ) (b : KBucket)
      → get_bucket_index t n.id ≡ ok i
      → get_elem? t.buckets i ≡ some b
      → store_nodeinfo ping n t ≡ (add_nodeinfo ping n b >>= λ added. done (put_back t i added))
  unfolding store_nodeinfo
  store_in_bucket i b h e = rw (h, e, store_nodeinfo) refl

-- Storing a node whose key has K bytes in a well-formed table leaves a well-formed table with the
-- same key, whatever the ping answers and whether the bucket takes the node or not: each bucket has
-- at most K nodes, no two with the same key, each in the bucket that its leading zeros name.
pub store_nodeinfo-IsTable :
    (ping : Ping) (n : NodeInfo) (t : RoutingTable)
    → IsKey n.id
    → IsTable t
    → Leaves (IsTableOf t.id) (store_nodeinfo ping n t)
store_nodeinfo-IsTable ping n t k v = go (get_bucket_index t n.id) refl
  where
    at_bucket :
        (i : ℕ) (o : Option KBucket)
        → get_elem? t.buckets i ≡ o
        → get_bucket_index t n.id ≡ ok i
        → Leaves (IsTableOf t.id) (store_nodeinfo ping n t)
    at_bucket i none e h = rw (store_no_bucket ping n t i h e) (v, refl)
    at_bucket i (some b) e h =
        rw (store_in_bucket ping n t i b h e)
          (added-Leaves ping n t i b v (IsBucket-of t i b v e) (k, get_bucket_index-ok t n.id i h))

    go :
        (r : Result RoutingTableError ℕ)
        → get_bucket_index t n.id ≡ r
        → Leaves (IsTableOf t.id) (store_nodeinfo ping n t)
    go (err e) h = rw (store_no_index ping n t e h) (v, refl)
    go (ok i) h = at_bucket i (get_elem? t.buckets i) refl h

-- Storing a list of nodes whose keys have K bytes in a well-formed table leaves a well-formed table
-- with the same key, also where an error ends it early.
pub store_nodeinfo_multiple-IsTable :
    (ping : Ping) (ns : List NodeInfo) (t : RoutingTable)
    → All (λ n. IsKey n.id) ns
    → IsTable t
    → Leaves (IsTableOf t.id) (store_nodeinfo_multiple ping ns t)
unfolding store_nodeinfo_multiple
store_nodeinfo_multiple-IsTable ping [] t k v = (v, refl)
store_nodeinfo_multiple-IsTable ping (n ∷ ns) t k v =
    go (store_nodeinfo ping n t) (store_nodeinfo-IsTable ping n t k.0 v)
      (λ t' w. store_nodeinfo_multiple-IsTable ping ns t' k.1 w)
  where
    go :
        (a : Task Reply)
        → Leaves (IsTableOf t.id) a
        → ((t' : RoutingTable)
            → IsTable t'
            → Leaves (IsTableOf t'.id) (store_nodeinfo_multiple ping ns t'))
        → Leaves (IsTableOf t.id) (
            a >>= λ p. elim p.1 [
              | ok u ↦ store_nodeinfo_multiple ping ns p.0
              | err e ↦ done (p.0, err e)
            ])
    go (done (t', ok u)) w ih =
        subst (λ id. Leaves (IsTableOf id) (store_nodeinfo_multiple ping ns t')) w.1 (ih t' w.0)
    go (done (t', err e)) w ih = w
    go panicked w ih = tt
    go blocked w ih = tt

index_of_id :
    (t u : RoutingTable) (key : Key) → t.id ≡ u.id → get_bucket_index u key ≡ get_bucket_index t key
unfolding get_bucket_index
index_of_id t u key e = rw e refl

get_in_bucket :
    (key : Key) (t : RoutingTable) (i : ℕ) (b : KBucket)
    → get_bucket_index t key ≡ ok i
    → get_elem? t.buckets i ≡ some b
    → get_nodeinfo key t ≡ done (ok (KBucket.get_nodeinfo key b))
unfolding get_nodeinfo
get_in_bucket key t i b h e = rw (h, e, get_nodeinfo) refl

-- In a well-formed table, a node whose bucket has room is stored with no ping; afterwards a lookup
-- of any key of the same bucket finds the node under its own key and what it found before under
-- every other.
pub get_nodeinfo-store_nodeinfo :
    (ping : Ping) (n : NodeInfo) (t : RoutingTable) (i : ℕ) (b : KBucket) (key : Key)
    → IsTable t
    → get_bucket_index t n.id ≡ ok i
    → get_elem? t.buckets i ≡ some b
    → length (erase n.id b.nodes) < b.capacity
    → get_bucket_index t key ≡ ok i
    → (t' : RoutingTable) × (store_nodeinfo ping n t ≡ done (t', ok tt))
      × (get_nodeinfo key t' ≡ (if n.id == key then done (ok (some n)) else get_nodeinfo key t))
get_nodeinfo-store_nodeinfo ping n t i b key v h e room k = (
  t',
  store_in_bucket ping n t i b h e
      ∙ ap (λ a. a >>= λ added. done (put_back t i added)) added.1
      ∙ unfold put_back in refl,
  elim (Bool-cases (n.id == key)) [
    | inl same ↦ rw same (reads ∙ ap (λ o. done (ok o)) (added.3 key ∙ rw same refl))
    | inr other ↦ rw other (
        reads
        ∙ ap (λ o. done (ok o)) (added.3 key ∙ rw other refl)
        ∙ sym (get_in_bucket key t i b k e))
  ],
)
  where
    added :
        (b' : KBucket) × (add_nodeinfo ping n b ≡ done (b', ok tt))
        × (b'.nodes ≡ erase n.id b.nodes ++ n ∷ [])
        × ((k : Key)
            → KBucket.get_nodeinfo k b' ≡ (if n.id == k then some n else KBucket.get_nodeinfo k b))
    added = add_nodeinfo_room ping n b (IsBucket-of t i b v e).distinct room

    t' : RoutingTable
    t' = record t { buckets = set t.buckets i added.0 }

    at_i : get_elem? t'.buckets i ≡ some added.0
    at_i = get_elem?-set_self t.buckets i added.0 (get_elem?-lt t.buckets i e)

    reads : get_nodeinfo key t' ≡ done (ok (KBucket.get_nodeinfo key added.0))
    reads = get_in_bucket key t' i added.0 (index_of_id t t' key refl ∙ k) at_i
