-- ===== src/Lookup.antt =====
-- src/core/lookup.rs: the buffer that drives an iterative lookup.
pub mod Weight
pub mod Progress
pub mod Kept
pub mod Invariant
pub mod Answer
use rust_p2p_filesystem.Base.{
  ℕ, Bool, true, false, ◌&&◌, ◌||◌, not, List, [], ◌∷◌, ◌++◌, Option, none, some, if◌then◌else◌,
  map, take, keep, ◌==◌, list_beq,
}
use rust_p2p_filesystem.Base.Sort.{sort}
use rust_p2p_filesystem.Constants.{K, alpha}
use rust_p2p_filesystem.Key.{Key, key_eq, distance}
use rust_p2p_filesystem.Key.Order.{bytes_le}
use rust_p2p_filesystem.Networking.NodeInfo.{NodeInfo, node_eq}

pub record LookupNodeInfo : Type 0 where
  pub node_info : NodeInfo
  pub queried : Bool
  pub responded : Bool

unfoldable pub fresh : NodeInfo → LookupNodeInfo
fresh node_info = record { node_info = node_info; queried = false; responded = false }

unfoldable pub has_failed_to_respond : LookupNodeInfo → Bool
has_failed_to_respond n = n.queried && not n.responded

pub data LookupSuccessType : Type 0 where
  value nodes : LookupSuccessType

pub record LookupResponse : Type 0 where
  pub resolver : NodeInfo
  pub success : Bool
  pub success_type : Option LookupSuccessType
  pub k_closest : List NodeInfo

unfoldable pub new_nodes_successful : NodeInfo → List NodeInfo → LookupResponse
new_nodes_successful resolver k_closest = record {
  resolver = resolver;
  success = true;
  success_type = some LookupSuccessType.nodes;
  k_closest = k_closest;
}

unfoldable pub new_value_successful : NodeInfo → LookupResponse
new_value_successful resolver = record {
  resolver = resolver;
  success = true;
  success_type = some value;
  k_closest = [];
}

unfoldable pub new_failed : NodeInfo → LookupResponse
new_failed resolver = record {
  resolver = resolver;
  success = false;
  success_type = none;
  k_closest = [];
}

-- `matches!(success_type, Some(LookupSuccessType::Value))`
abbrev pub is_value : Option LookupSuccessType → Bool
is_value none = false
is_value (some value) = true
is_value (some LookupSuccessType.nodes) = false

pub record LookupBuffer : Type 0 where
  pub nodes : List LookupNodeInfo
  pub target : Key
  pub this_node : NodeInfo

-- The order of `sort_by` in `LookupBuffer::sort`.
abbrev pub nearer : Key → LookupNodeInfo → LookupNodeInfo → Bool
nearer target a b = bytes_le (distance a.node_info.id target) (distance b.node_info.id target)

unfoldable pub sort_buffer : LookupBuffer → LookupBuffer
unfolding sort
sort_buffer b = record b { nodes = sort (nearer b.target) b.nodes }

unfoldable pub new : Key → List NodeInfo → NodeInfo → LookupBuffer
unfolding sort_buffer fresh
new target initial_nodes this_node =
    sort_buffer (record { nodes = map fresh initial_nodes; target = target; this_node = this_node })

abbrev pub infos : List LookupNodeInfo → List NodeInfo
infos = map λ n. n.node_info

unfoldable pub get_resulting_vector : LookupBuffer → List NodeInfo
unfolding has_failed_to_respond keep take
get_resulting_vector b = infos (take K (keep (λ n. not (has_failed_to_respond n)) b.nodes))

unfoldable pub get_unqueried_resulting_nodes : LookupBuffer → List NodeInfo
unfolding keep take
get_unqueried_resulting_nodes b = infos (keep (λ n. not n.queried) (take K b.nodes))

unfoldable pub mark_queried : Key → List LookupNodeInfo → List LookupNodeInfo
mark_queried node_id [] = []
mark_queried node_id (n ∷ ns) =
    (if n.node_info.id == node_id then record n { queried = true } else n) ∷ mark_queried node_id ns

unfoldable pub mark_responded : Key → List LookupNodeInfo → List LookupNodeInfo
mark_responded node_id [] = []
mark_responded node_id (n ∷ ns) =
    (if n.node_info.id == node_id then record n { responded = true } else n)
    ∷ mark_responded node_id ns

unfoldable pub mark_node_as_queried : Key → LookupBuffer → LookupBuffer
unfolding mark_queried
mark_node_as_queried node_id b = record b { nodes = mark_queried node_id b.nodes }

unfoldable pub mark_node_as_responded : Key → LookupBuffer → LookupBuffer
unfolding mark_responded
mark_node_as_responded node_id b = record b { nodes = mark_responded node_id b.nodes }

unfoldable pub mark_all_queried : List NodeInfo → LookupBuffer → LookupBuffer
unfolding mark_node_as_queried
mark_all_queried [] b = b
mark_all_queried (n ∷ ns) b = mark_all_queried ns (mark_node_as_queried n.id b)

unfoldable pub get_alpha_unqueried_nodes : LookupBuffer → LookupBuffer × List NodeInfo
unfolding keep take mark_all_queried
get_alpha_unqueried_nodes b =
    let candidates = take alpha (infos (keep (λ n. not n.queried) b.nodes)) in
    (mark_all_queried candidates b, candidates)

unfoldable pub get_responsive_nodes : LookupBuffer → List NodeInfo
unfolding keep
get_responsive_nodes b = infos (keep (λ n. n.queried && n.responded) b.nodes)

-- `Vec::contains`; two entries are equal if their contacts are.
unfoldable pub contains : NodeInfo → List LookupNodeInfo → Bool
contains node [] = false
contains node (n ∷ ns) = n.node_info == node || contains node ns

unfoldable pub push_new : NodeInfo → LookupBuffer → LookupBuffer
unfolding contains fresh
push_new node b =
    if not (contains node b.nodes) && not (b.this_node == node)
    then record b { nodes = b.nodes ++ fresh node ∷ [] }
    else b

unfoldable pub push_all : List NodeInfo → LookupBuffer → LookupBuffer
unfolding push_new
push_all [] b = b
push_all (n ∷ ns) b = push_all ns (push_new n b)

-- One response that does not end the lookup.
unfoldable pub record_response : LookupResponse → Bool → LookupBuffer → LookupBuffer
unfolding push_all mark_node_as_queried mark_node_as_responded
record_response response for_value b =
    if not response.success || (not for_value && is_value response.success_type)
    then mark_node_as_queried response.resolver.id b
    else mark_node_as_responded response.resolver.id (push_all response.k_closest b)

-- The loop over the responses; true if it was left by the early return.
unfoldable pub record_loop : List LookupResponse → Bool → LookupBuffer → LookupBuffer × Bool
unfolding record_response
record_loop [] for_value b = (b, false)
record_loop (r ∷ rs) for_value b =
    if for_value && is_value r.success_type
    then (b, true)
    else record_loop rs for_value (record_response r for_value b)

unfoldable pub record_lookup_round_responses :
    List LookupResponse → Bool → LookupBuffer → LookupBuffer × Bool
unfolding record_loop sort_buffer get_resulting_vector list_beq
record_lookup_round_responses responses for_value b =
    let previous_k_closest = get_resulting_vector b in
    let (b', found) = record_loop responses for_value b in
    if found
    then (b', true)
    else (sort_buffer b', not (list_beq previous_k_closest (get_resulting_vector (sort_buffer b'))))
