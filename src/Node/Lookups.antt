-- ===== src/Node/Lookups.antt =====
-- `single_lookup`, `lookup_round`, the lookup loops of `find_node` and `find_storer`, and
-- `find_storers_parallel` of src/core/node.rs. `ask` stands for `send_request_and_wait` of a new
-- request to a node, with the world passed along; requests that run in parallel are asked in the
-- order in which their answers are joined.
use rust_p2p_filesystem.Base.{
  ℕ, zero, suc, Bool, true, false, not, List, [], ◌∷◌, ◌++◌, Option, none, some, if◌then◌else◌,
  is_empty, find_first, take, drop,
}
use rust_p2p_filesystem.Base.Outcome.{Result, ok, err}
use rust_p2p_filesystem.Constants.{alpha}
use rust_p2p_filesystem.Key.{Key}
use rust_p2p_filesystem.Networking.NodeInfo.{NodeInfo}
use rust_p2p_filesystem.Networking.Messages.{Response, ResponseType, RequestType}
use rust_p2p_filesystem.Routing.KBucket.{NodeError}
use rust_p2p_filesystem.Lookup.{
  LookupBuffer, LookupResponse, is_value, new_nodes_successful, new_value_successful, new_failed,
  get_alpha_unqueried_nodes, get_unqueried_resulting_nodes, get_responsive_nodes,
  get_resulting_vector, record_lookup_round_responses,
}
use rust_p2p_filesystem.Lookup

-- How the answer of a resolver is read.
unfoldable pub read_answer : NodeInfo → Bool → Result NodeError Response → LookupResponse
unfolding new_nodes_successful new_value_successful new_failed
read_answer resolver for_value (err _) = new_failed resolver
read_answer resolver for_value (ok response) = elim response.response_type [
  | ResponseType.nodes ns ↦ new_nodes_successful resolver ns
  | ResponseType.has_value _ ↦
      if for_value then new_value_successful resolver else new_failed resolver
  | _ ↦ new_failed resolver
]

-- The request of a lookup of either kind.
unfoldable pub lookup_request : Key → Bool → RequestType
lookup_request target true = RequestType.find_value target
lookup_request target false = RequestType.find_node target

-- The response of the first resolver that has the value.
unfoldable pub first_value : List LookupResponse → Option LookupResponse
unfolding find_first
first_value rs = find_first (λ (r : LookupResponse). is_value r.success_type) rs

-- The end of a loop, on fuel: none if that ran out.
pub record Rounds (W : Type 0) : Type 0 where
  pub buffer : LookupBuffer
  pub responses : List LookupResponse
  pub world : W

module _ {W : Type 0} (ask : NodeInfo → RequestType → W → Result NodeError Response × W) where
  unfoldable pub single_lookup : Key → NodeInfo → Bool → W → LookupResponse × W
  unfolding read_answer lookup_request
  single_lookup target resolver for_value w =
      let (answer, w') = ask resolver (lookup_request target for_value) w in
      (read_answer resolver for_value answer, w')

  unfoldable pub lookup_round : Key → List NodeInfo → Bool → W → List LookupResponse × W
  unfolding single_lookup
  lookup_round target [] for_value w = ([], w)
  lookup_round target (r ∷ rs) for_value w =
      let (response, w') = single_lookup target r for_value w in
      let (responses, w'') = lookup_round target rs for_value w' in (response ∷ responses, w'')

  -- The rounds of a lookup: each asks the nearest nodes that were not asked yet, until none is left
  -- or `record_lookup_round_responses` answers false. `responses` are those of the last round.
  unfoldable pub rounds :
      ℕ → Key → Bool → LookupBuffer → List LookupResponse → W → Option (Rounds W)
  unfolding lookup_round get_alpha_unqueried_nodes record_lookup_round_responses
  rounds zero target for_value b responses w = none
  rounds (suc fuel) target for_value b responses w =
      let (b', resolvers) = get_alpha_unqueried_nodes b in
      let (current, w') = lookup_round target resolvers for_value w in
      let recorded = record_lookup_round_responses current for_value b' in
      let more = rounds fuel target for_value recorded.0 current w' in
      if is_empty resolvers
      then some (record { buffer = b'; responses = responses; world = w })
      else if not recorded.1
      then some (record { buffer = recorded.0; responses = current; world = w' })
      else more

  -- The part of `find_node` and of `join_network` from the first nodes to the last round: the buffer
  -- whose responsive nodes are stored and whose resulting nodes are returned.
  unfoldable pub resolve_nodes : ℕ → Key → List NodeInfo → NodeInfo → W → Option (LookupBuffer × W)
  unfolding rounds Lookup.new get_unqueried_resulting_nodes
  resolve_nodes fuel target initial this_node w =
      elim (rounds fuel target false (Lookup.new target initial this_node) [] w) [
        | none ↦ none
        | some end ↦
            let (last, w') =
              lookup_round target (get_unqueried_resulting_nodes end.buffer) false end.world in
            some ((record_lookup_round_responses last false end.buffer).0, w')
      ]

  -- The last round of `find_storer`.
  unfoldable pub find_among_remaining : Key → List NodeInfo → W → Option NodeInfo × W
  unfolding lookup_round first_value
  find_among_remaining target [] w = (none, w)
  find_among_remaining target (r ∷ rs) w =
      let (responses, w') = lookup_round target (r ∷ rs) true w in
      elim (first_value responses) [ none ↦ (none, w') | some r ↦ (some r.resolver, w') ]

  unfoldable pub storer_of_rounds : Key → Rounds W → Option NodeInfo × W
  unfolding find_among_remaining get_unqueried_resulting_nodes
  storer_of_rounds target end = elim (first_value end.responses) [
    | some r ↦ (some r.resolver, end.world)
    | none ↦ find_among_remaining target (get_unqueried_resulting_nodes end.buffer) end.world
  ]

  -- `find_storer` after the look into the own storage, from the first resolvers on. The outer
  -- `Option` is the fuel; the inner one none where the source reports that no storer was found.
  unfoldable pub search_storer :
      ℕ → Key → List NodeInfo → NodeInfo → W → Option (Option NodeInfo × W)
  unfolding rounds Lookup.new storer_of_rounds
  search_storer fuel target [] this_node w = some (none, w)
  search_storer fuel target (r ∷ rs) this_node w =
      elim (rounds fuel target true (Lookup.new target (r ∷ rs) this_node) [] w) [
        | none ↦ none
        | some end ↦ some (storer_of_rounds target end)
      ]

-- `pair?` for each result of a batch.
unfoldable pub collect : List (Key × Option NodeInfo) → Option (List (Key × NodeInfo))
collect [] = some []
collect ((k, none) ∷ rest) = none
collect ((k, some storer) ∷ rest) = elim (collect rest) [
  | none ↦ none
  | some pairs ↦ some ((k, storer) ∷ pairs)
]

-- A batch of `find_storers_parallel`: all keys of the batch are looked up, in order, before the
-- first failure is reported.
module _ {W : Type 0} (find_storer : Key → W → Option NodeInfo × W) where
  unfoldable pub find_batch : List Key → W → List (Key × Option NodeInfo) × W
  find_batch [] w = ([], w)
  find_batch (k ∷ ks) w =
      let (storer, w') = find_storer k w in
      let (found, w'') = find_batch ks w' in ((k, storer) ∷ found, w'')

  -- `chunk_keys.chunks(alpha)`; there are no more batches than keys.
  unfoldable pub find_batches : ℕ → List Key → W → Option (List (Key × NodeInfo)) × W
  unfolding find_batch collect take drop
  find_batches zero keys w = (some [], w)
  find_batches (suc fuel) [] w = (some [], w)
  find_batches (suc fuel) (k ∷ ks) w =
      let (found, w') = find_batch (take alpha (k ∷ ks)) w in
      let rest = find_batches fuel (drop alpha (k ∷ ks)) w' in
      elim (collect found) [
        | none ↦ (none, w')
        | some pairs ↦ elim rest.0 [
          | none ↦ (none, rest.1)
          | some more ↦ (some (pairs ++ more), rest.1)
        ]
      ]
