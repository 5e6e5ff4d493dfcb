-- ===== src/Tests/Lookups.antt =====
-- The theorems about lookups in a network of a few nodes.
use rust_p2p_filesystem.Base.{
  ℕ, zero, suc, ◌+◌, ◌≤◌, ◌<◌, ◌≡◌, ◌≢◌, refl, Bool, true, false, List, [], ◌∷◌, Option, none, some,
  if◌then◌else◌, ◌==◌, arith, length, map, All, is_empty,
}
use rust_p2p_filesystem.Base
use rust_p2p_filesystem.Base.Sort
use rust_p2p_filesystem.Base.Outcome.{Result, ok}
use rust_p2p_filesystem.Key.{Key, key_eq}
use rust_p2p_filesystem.Key
use rust_p2p_filesystem.Networking.NodeInfo.{NodeInfo, node_eq}
use rust_p2p_filesystem.Networking.NodeInfo
use rust_p2p_filesystem.Networking.Messages.{Response, RequestType, ResponseType}
use rust_p2p_filesystem.Routing.KBucket.{NodeError}
use rust_p2p_filesystem.Lookup.{
  LookupBuffer, fresh, new_nodes_successful, record_lookup_round_responses, get_resulting_vector,
}
use rust_p2p_filesystem.Lookup.Invariant.{IsBuffer, record_lookup_round_responses-IsBuffer}
use rust_p2p_filesystem.Lookup.Answer.{IsAnswer}
use rust_p2p_filesystem.Node.Lookups.{
  resolve_nodes, search_storer, rounds, first_value, lookup_round, find_batches, Rounds,
}
use rust_p2p_filesystem.Node.Lookups
use rust_p2p_filesystem.Node.Rounds.{
  Names, resolve_nodes_end, search_storer_end, resolve_nodes-IsAnswer,
}
use rust_p2p_filesystem.Node.Storer.{HasAnswered, search_storer-HasAnswered}
use rust_p2p_filesystem.Node.Batches.{find_batches_keys}
use rust_p2p_filesystem.Tests.Data.{contact, key_of}

abbrev from : NodeInfo → ResponseType → Response
from node t = record { response_type = t; sender = node; receiver = contact 0; request_id = 5 }

-- Every node knows the contacts 4, 5 and 6; the nodes from 128 on have the value. The world counts
-- the requests.
abbrev others : List NodeInfo
others = contact 4 ∷ contact 5 ∷ contact 6 ∷ []

abbrev answer : NodeInfo → RequestType → Response
answer node (RequestType.find_value target) = elim node.id.value [
  | b ∷ bs ↦
      if Base.leb 128 b
      then from node (ResponseType.has_value target)
      else from node (ResponseType.nodes others)
  | [] ↦ from node ResponseType.pong
]
answer node (RequestType.find_node target) = from node (ResponseType.nodes others)
answer node _ = from node ResponseType.pong

abbrev ask : NodeInfo → RequestType → ℕ → Result NodeError Response × ℕ
ask node request w = (ok (answer node request), suc w)

abbrev buffer : LookupBuffer
buffer = record {
  nodes = fresh (contact 4) ∷ fresh (contact 128) ∷ [];
  target = key_of 129;
  this_node = contact 0;
}

buffer-IsBuffer : IsBuffer buffer
unfolding fresh NodeInfo.node_beq Key.key_beq Base.list_beq
buffer-IsBuffer = record { distinct = ((refl, tt), (tt, tt)); others = (refl, (refl, tt)) }

record_lookup_round_responses-IsBuffer_example :
    IsBuffer
      (record_lookup_round_responses
        (new_nodes_successful (contact 4) (contact 5 ∷ contact 4 ∷ contact 0 ∷ []) ∷ [])
        false
        buffer).0
record_lookup_round_responses-IsBuffer_example =
    record_lookup_round_responses-IsBuffer
      (new_nodes_successful (contact 4) (contact 5 ∷ contact 4 ∷ contact 0 ∷ []) ∷ []) false buffer
      buffer-IsBuffer

others-Names : Names ask others (key_of 129) false
unfolding Lookups.read_answer Lookups.lookup_request NodeInfo.node_beq Key.key_beq Base.list_beq
    NodeInfo.addr_beq
others-Names resolver w = (refl, (refl, (refl, tt)))

resolve_nodes_end_example :
    (end : LookupBuffer × ℕ) × (resolve_nodes ask 9 (key_of 129) (contact 128 ∷ []) (contact 0) 0
      ≡ some end)
resolve_nodes_end_example =
    resolve_nodes_end ask others (key_of 129) (contact 128 ∷ []) (contact 0) 0 others-Names 9
      (omega arith)

-- Where nobody has the value.
abbrev ask_absent : NodeInfo → RequestType → ℕ → Result NodeError Response × ℕ
ask_absent node request w = (ok (from node (ResponseType.nodes others)), suc w)

absent-Names : Names ask_absent others (key_of 129) true
unfolding Lookups.read_answer NodeInfo.node_beq Key.key_beq Base.list_beq NodeInfo.addr_beq
absent-Names resolver w = (refl, (refl, (refl, tt)))

search_storer_end_example :
    (found : Option NodeInfo × ℕ) × (search_storer ask_absent 9
        (key_of 129)
        (contact 128 ∷ [])
        (contact 0)
        0
      ≡ some found)
search_storer_end_example =
    search_storer_end ask_absent others (key_of 129) (contact 128 ∷ []) (contact 0) 0 absent-Names 9
      (omega arith)

-- The lookup of `find_node` from one contact ends.
resolved :
    (end : LookupBuffer × ℕ) × (resolve_nodes ask 9 (key_of 129) (contact 128 ∷ []) (contact 0) 0
      ≡ some end)
resolved =
    resolve_nodes_end ask others (key_of 129) (contact 128 ∷ []) (contact 0) 0 others-Names 9
      (omega arith)

not_self : (contact 0 == contact 128) ≡ false
unfolding NodeInfo.node_beq Key.key_beq Base.list_beq
not_self = refl

resolve_nodes-IsAnswer_example :
    IsAnswer (key_of 129) (contact 0) (get_resulting_vector resolved.0.0)
resolve_nodes-IsAnswer_example =
    resolve_nodes-IsAnswer ask 9 (key_of 129) (contact 128 ∷ []) (contact 0) 0 resolved.0 (tt, tt)
      (not_self, tt) resolved.1

-- With no other contact to ask the storer is found.
found_128 :
    search_storer ask 4 (key_of 129) (contact 128 ∷ []) (contact 0) 0 ≡ some (some (contact 128), 1)
unfolding search_storer Sort.insert Key.key_beq
found_128 = refl

-- With another contact to ask after it, it is lost.
lost_128 :
    search_storer ask 9
      (key_of 129)
      (contact 128 ∷ contact 4 ∷ contact 5 ∷ contact 6 ∷ [])
      (contact 0)
      0
    ≡ some (none, 4)
unfolding search_storer Sort.insert Key.key_beq Key.cmp_bytes Key.distance Key.xor_bytes
    NodeInfo.node_beq NodeInfo.addr_beq
lost_128 = refl

search_storer-HasAnswered_example : HasAnswered ask (key_of 129) (contact 128)
search_storer-HasAnswered_example =
    search_storer-HasAnswered ask 4 (key_of 129) (contact 128 ∷ []) (contact 0) 0 1 (contact 128)
      found_128

abbrev five : List Key
five = key_of 1 ∷ key_of 2 ∷ key_of 3 ∷ key_of 4 ∷ key_of 5 ∷ []

abbrev store_at : Key → ℕ → Option NodeInfo × ℕ
store_at k w = (some (contact 128), suc w)

abbrev five_pairs : List (Key × NodeInfo)
five_pairs = map (λ k. (k, contact 128)) five

all_found : (find_batches store_at 5 five 0).0 ≡ some five_pairs
unfolding find_batches
all_found = refl

find_batches_keys_example : map (λ (p : Key × NodeInfo). p.0) five_pairs ≡ five
find_batches_keys_example = find_batches_keys store_at 5 five 0 five_pairs (omega arith) all_found
