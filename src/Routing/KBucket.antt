-- ===== src/Routing/KBucket.antt =====
-- src/routing/kbucket.rs. Times are numbers of seconds; `ping` is what `Node::ping` makes of a key.
pub mod Laws
pub mod Add
use rust_p2p_filesystem.Base.{
  ℕ, zero, suc, ◌+◌, ◌≡◌, Bool, List, [], ◌∷◌, ◌++◌, Option, none, some, ltb, if◌then◌else◌, length,
  find_first, get_elem?, ◌==◌,
}
use rust_p2p_filesystem.Base.Outcome.{Result, ok, err, Task, done, panicked, ◌>>=◌}
use rust_p2p_filesystem.Constants.{K}
use rust_p2p_filesystem.Key.{Key, key_eq}
use rust_p2p_filesystem.Networking.NodeInfo.{NodeInfo}

pub data KBucketError : Type 0 where
  not_enough_space failed_to_add : KBucketError

-- How a ping failed: `NodeError`, whose routing table error is left out of the value.
pub data NodeError : Type 0 where
  bad_response response_timeout unable_to_send ping_missing_node routing_table_failed : NodeError

pub record KBucket : Type 0 where
  pub nodes : List NodeInfo
  pub capacity : ℕ
  pub last_lookup_at : ℕ

unfoldable pub new : ℕ → KBucket
new now = record { nodes = []; capacity = K; last_lookup_at = now }

unfoldable pub set_last_lookup_now : ℕ → KBucket → KBucket
set_last_lookup_now now b = record b { last_lookup_at = now }

-- `iter().position(…)` and `VecDeque::remove`
unfoldable pub position {ℓ} : {A : Type ℓ} → (A → Bool) → List A → Option ℕ
position p [] = none
position p (x ∷ xs) =
    if p x then some 0 else elim (position p xs) [ none ↦ none | some i ↦ some (suc i) ]

unfoldable pub remove_at {ℓ} : {A : Type ℓ} → ℕ → List A → List A
remove_at i [] = []
remove_at zero (x ∷ xs) = xs
remove_at (suc i) (x ∷ xs) = x ∷ remove_at i xs

unfoldable pub remove_nodeinfo : Key → KBucket → KBucket × Option NodeInfo
unfolding position remove_at
remove_nodeinfo key b = elim (position (λ (n : NodeInfo). n.id == key) b.nodes) [
  | some pos ↦ (record b { nodes = remove_at pos b.nodes }, get_elem? b.nodes pos)
  | none ↦ (b, none)
]

unfoldable pub get_nodeinfo : Key → KBucket → Option NodeInfo
unfolding find_first
get_nodeinfo key b = find_first (λ (n : NodeInfo). n.id == key) b.nodes

-- A node that answers stays and moves to the tail, one that does not gives way to the new node.
-- After any other failure both are gone.
unfoldable pub after_ping :
    KBucket → NodeInfo → NodeInfo → Option NodeError → KBucket × Result KBucketError (Unit {0})
after_ping b head node_info_new none = (record b { nodes = b.nodes ++ head ∷ [] }, ok tt)
after_ping b head node_info_new (some response_timeout) =
    (record b { nodes = b.nodes ++ node_info_new ∷ [] }, ok tt)
after_ping b head node_info_new (some bad_response) =
    (record b { nodes = b.nodes ++ node_info_new ∷ [] }, ok tt)
after_ping b head node_info_new (some _) = (b, err failed_to_add)

-- The full bucket: the head is taken out and pinged. An empty one would be `None.unwrap()`.
unfoldable pub replace_head :
    (Key → Task (Option NodeError))
    → KBucket
    → List NodeInfo
    → NodeInfo
    → Task (KBucket × Result KBucketError (Unit {0}))
unfolding after_ping
replace_head ping b [] node_info_new = panicked
replace_head ping b (head ∷ rest) node_info_new = do
  answer ← ping head.id
  done (after_ping (record b { nodes = rest }) head node_info_new answer)

unfoldable pub add_nodeinfo :
    (Key → Task (Option NodeError))
    → NodeInfo
    → KBucket
    → Task (KBucket × Result KBucketError (Unit {0}))
unfolding remove_nodeinfo replace_head
add_nodeinfo ping node_info_new b =
    let removed = (remove_nodeinfo node_info_new.id b).0 in
    if ltb (length removed.nodes) removed.capacity
    then done (record removed { nodes = removed.nodes ++ node_info_new ∷ [] }, ok tt)
    else replace_head ping removed removed.nodes node_info_new
