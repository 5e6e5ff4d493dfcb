-- ===== src/Routing/KBucket/Laws.antt =====
-- What `add_nodeinfo` and `remove_nodeinfo` of src/routing/kbucket.rs do to a well-formed bucket.
use rust_p2p_filesystem.Base.{
  ◌<◌, ◌≤◌, ◌≡◌, refl, ◌∙◌, false, List, [], ◌∷◌, ◌++◌, Option, none, some, arith, if◌then◌else◌,
  length, find_first, get_elem?, ◌==◌, All, All-append, length-append, beq_sym,
}
use rust_p2p_filesystem.Constants.{K}
use rust_p2p_filesystem.Key.{Key, key_eq, key_beq_iff}
use rust_p2p_filesystem.Networking.NodeInfo.{NodeInfo}
use rust_p2p_filesystem.Routing.KBucket.{
  KBucket, NodeError, bad_response, response_timeout, position, remove_at, remove_nodeinfo,
  get_nodeinfo, after_ping,
}

-- The first node with the key is left out.
unfoldable pub erase : Key → List NodeInfo → List NodeInfo
erase k [] = []
erase k (n ∷ ns) = if n.id == k then ns else n ∷ erase k ns

abbrev pub find : Key → List NodeInfo → Option NodeInfo
find k ns = find_first (λ (n : NodeInfo). n.id == k) ns

remove_list : Key → List NodeInfo → List NodeInfo
remove_list k ns = elim (position (λ (n : NodeInfo). n.id == k) ns) [
  | some pos ↦ remove_at pos ns
  | none ↦ ns
]

remove_list-erase : (k : Key) (ns : List NodeInfo) → remove_list k ns ≡ erase k ns
unfolding remove_list position remove_at erase
remove_list-erase k [] = refl
remove_list-erase k (n ∷ ns) = ground (arith, remove_list-erase k ns)

removed-find :
    (k : Key) (ns : List NodeInfo)
    → (elim (position (λ (n : NodeInfo). n.id == k) ns) [
      | none ↦ none
      | some pos ↦ get_elem? ns pos
    ])
      ≡ find k ns
unfolding position find_first
removed-find k [] = refl
removed-find k (n ∷ ns) = ground (arith, removed-find k ns)

-- `remove_nodeinfo` returns the node that a lookup of the key finds, and leaves the other nodes in
-- their order.
pub remove_nodeinfo_lem :
    (k : Key) (b : KBucket)
    → remove_nodeinfo k b ≡ (record b { nodes = erase k b.nodes }, get_nodeinfo k b)
unfolding remove_nodeinfo get_nodeinfo remove_list
remove_nodeinfo_lem k b = ground (arith, remove_list-erase k b.nodes, removed-find k b.nodes)

-- No two nodes of a bucket have the same key.
abbrev pub Distinct : List NodeInfo → Type 0
Distinct [] = Unit {0}
Distinct (n ∷ ns) = All (λ m. (m.id == n.id) ≡ false) ns × Distinct ns

find-none : (k : Key) (ns : List NodeInfo) → All (λ m. (m.id == k) ≡ false) ns → find k ns ≡ none
unfolding find_first
find-none k [] h = refl
find-none k (n ∷ ns) h = ground (arith, find-none k ns h.1)

pub none-find :
    (k : Key) (ns : List NodeInfo) → find k ns ≡ none → All (λ m. (m.id == k) ≡ false) ns
unfolding find_first
none-find k [] h = tt
none-find k (n ∷ ns) h = ground (arith, none-find k ns)

pub find-erase :
    (k j : Key) (ns : List NodeInfo)
    → Distinct ns
    → find j (erase k ns) ≡ (if k == j then none else find j ns)
unfolding find_first erase
find-erase k j [] d = ground arith
find-erase k j (n ∷ ns) d = ground (
  arith,
  key_beq_iff k j,
  key_beq_iff n.id k,
  key_beq_iff n.id j,
  find-none n.id ns d.0,
  find-erase k j ns d.1,
)

pub find-append :
    (k : Key) (xs ys : List NodeInfo)
    → find k (xs ++ ys) ≡ (elim (find k xs) [ none ↦ find k ys | some n ↦ some n ])
unfolding find_first
find-append k [] ys = refl
find-append k (x ∷ xs) ys = ground (arith, find-append k xs ys)

pub erase_absent : (k : Key) (ns : List NodeInfo) → find k ns ≡ none → erase k ns ≡ ns
unfolding find_first erase
erase_absent k [] h = refl
erase_absent k (n ∷ ns) h = ground (arith, erase_absent k ns)

pub All-erase {κ} :
    (P : NodeInfo → Type κ) (k : Key) (ns : List NodeInfo) → All P ns → All P (erase k ns)
unfolding erase
All-erase P k [] h = tt
All-erase P k (n ∷ ns) h = ground (arith, All-erase P k ns h.1)

pub erase-absent :
    (k : Key) (ns : List NodeInfo) → Distinct ns → All (λ m. (m.id == k) ≡ false) (erase k ns)
erase-absent k ns d =
    none-find k (erase k ns) (ground (arith, find-erase k k ns d, key_beq_iff k k))

pub erase-Distinct : (k : Key) (ns : List NodeInfo) → Distinct ns → Distinct (erase k ns)
unfolding erase
erase-Distinct k [] d = tt
erase-Distinct k (n ∷ ns) d =
    ground (arith, All-erase (λ m. (m.id == n.id) ≡ false) k ns d.0, erase-Distinct k ns d.1)

pub length-erase-le : (k : Key) (ns : List NodeInfo) → length (erase k ns) ≤ length ns
unfolding erase
length-erase-le k [] = omega arith
length-erase-le k (n ∷ ns) = ground (arith, length-erase-le k ns)

snoc-Distinct :
    (ns : List NodeInfo) (m : NodeInfo)
    → Distinct ns
    → All (λ n. (n.id == m.id) ≡ false) ns
    → Distinct (ns ++ m ∷ [])
snoc-Distinct [] m d h = (tt, tt)
snoc-Distinct (n ∷ ns) m d h = (
  All-append (λ x. (x.id == n.id) ≡ false) ns (m ∷ []) d.0 (beq_sym m.id n.id ∙ h.0, tt),
  snoc-Distinct ns m d.1 h.1,
)

-- What a bucket of the table keeps: room for `K` nodes, at most so many, each key once, and a
-- property of each node.
pub record IsBucket (P : NodeInfo → Type 0) (b : KBucket) : Type 0 where
  pub full_capacity : b.capacity ≡ K
  pub bounded : length b.nodes ≤ K
  pub distinct : Distinct b.nodes
  pub members : All P b.nodes

module _ (P : NodeInfo → Type 0) where
  pub snoc-IsBucket :
      (b : KBucket) (ns : List NodeInfo) (n : NodeInfo)
      → b.capacity ≡ K
      → length ns < K
      → Distinct ns
      → All (λ m. (m.id == n.id) ≡ false) ns
      → All P ns
      → P n
      → IsBucket P (record b { nodes = ns ++ n ∷ [] })
  snoc-IsBucket b ns n c l d f a p = record {
    full_capacity = c;
    bounded = omega (arith, length-append ns (n ∷ []));
    distinct = snoc-Distinct ns n d f;
    members = All-append P ns (n ∷ []) a (p, tt);
  }

  pub after_ping-IsBucket :
      (b : KBucket) (head new : NodeInfo) (rest : List NodeInfo) (answer : Option NodeError)
      → IsBucket P (record b { nodes = head ∷ rest })
      → All (λ m. (m.id == new.id) ≡ false) rest
      → P new
      → IsBucket P (after_ping (record b { nodes = rest }) head new answer).0
  unfolding after_ping
  after_ping-IsBucket b head new rest none v f p =
      snoc-IsBucket b rest head v.full_capacity (omega (arith, v.bounded)) v.distinct.1 v.distinct.0
        v.members.1 v.members.0
  after_ping-IsBucket b head new rest (some response_timeout) v f p =
      snoc-IsBucket b rest new v.full_capacity (omega (arith, v.bounded)) v.distinct.1 f v.members.1
        p
  after_ping-IsBucket b head new rest (some bad_response) v f p =
      snoc-IsBucket b rest new v.full_capacity (omega (arith, v.bounded)) v.distinct.1 f v.members.1
        p
  after_ping-IsBucket b head new rest (some _) v f p = record {
    full_capacity = v.full_capacity;
    bounded = omega (arith, v.bounded);
    distinct = v.distinct.1;
    members = v.members.1;
  }
