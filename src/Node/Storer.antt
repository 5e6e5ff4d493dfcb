-- ===== src/Node/Storer.antt =====
-- Whom `find_storer` of src/core/node.rs reports as the storer of a chunk.
use rust_p2p_filesystem.Base.{
  ℕ, zero, suc, ◌≡◌, refl, ap, subst, Bool, true, List, [], ◌∷◌, Option, none, some, find_first,
  All, Bool-cases, inl, inr, is_empty,
}
use rust_p2p_filesystem.Base.Outcome.{Result, ok, err}
use rust_p2p_filesystem.Key.{Key}
use rust_p2p_filesystem.Networking.NodeInfo.{NodeInfo}
use rust_p2p_filesystem.Networking.Messages.{Response, ResponseType, RequestType}
use rust_p2p_filesystem.Routing.KBucket.{NodeError}
use rust_p2p_filesystem.Lookup.{
  LookupBuffer, LookupResponse, is_value, new_nodes_successful, new_value_successful, new_failed,
  get_alpha_unqueried_nodes, get_unqueried_resulting_nodes, record_loop, record_response,
  record_lookup_round_responses,
}
use rust_p2p_filesystem.Lookup
use rust_p2p_filesystem.Node.Lookups.{
  read_answer, lookup_request, first_value, Rounds, single_lookup, lookup_round, rounds,
  find_among_remaining, storer_of_rounds, search_storer,
}

module _ {W : Type 0} (ask : NodeInfo → RequestType → W → Result NodeError Response × W) where
  -- At some moment of the lookup the node answered that it has the value.
  pub record HasAnswered (target : Key) (node : NodeInfo) : Type 0 where
    pub moment : W
    pub response : Response
    pub answer : (ask node (RequestType.find_value target) moment).0 ≡ ok response
    pub has_it : (chunk : Key) × (response.response_type ≡ ResponseType.has_value chunk)

  -- A response that has the value comes from a node that answered so.
  abbrev IsBacked : Key → LookupResponse → Type 0
  IsBacked target r = is_value r.success_type ≡ true → HasAnswered target r.resolver

  read-IsBacked :
      (target : Key) (node : NodeInfo) (w : W) (answer : Result NodeError Response)
      → (ask node (RequestType.find_value target) w).0 ≡ answer
      → IsBacked target (read_answer node true answer)
  unfolding read_answer new_failed new_value_successful new_nodes_successful
  read-IsBacked target node w (err e) p = λ v. absurd (cc)
  read-IsBacked target node w (ok response) p = go response.response_type refl
    where
      go :
          (t : ResponseType)
          → response.response_type ≡ t
          → IsBacked target (read_answer node true (ok response))
      go (ResponseType.has_value chunk) e =
          rw (e, read_answer)
            (λ v. record { moment = w; response = response; answer = p; has_it = (chunk, e) })
      go ResponseType.pong e = rw (e, read_answer) (λ v. absurd (cc))
      go (ResponseType.nodes ns) e = rw (e, read_answer) (λ v. absurd (cc))
      go ResponseType.store_chunk_updated e = rw (e, read_answer) (λ v. absurd (cc))
      go ResponseType.store_ok e = rw (e, read_answer) (λ v. absurd (cc))
      go (ResponseType.port_ok port) e = rw (e, read_answer) (λ v. absurd (cc))

  lookup_round-IsBacked :
      (target : Key) (resolvers : List NodeInfo) (w : W)
      → All (IsBacked target) (lookup_round ask target resolvers true w).0
  unfolding lookup_round single_lookup lookup_request
  lookup_round-IsBacked target [] w = tt
  lookup_round-IsBacked target (n ∷ ns) w = (
    read-IsBacked target n w (ask n (RequestType.find_value target) w).0 refl,
    lookup_round-IsBacked target ns (ask n (RequestType.find_value target) w).1,
  )

  first_value-HasAnswered :
      (target : Key) (rs : List LookupResponse) (r : LookupResponse)
      → All (IsBacked target) rs
      → first_value rs ≡ some r
      → HasAnswered target r.resolver
  unfolding first_value find_first
  first_value-HasAnswered target [] r v h = absurd (cc)
  first_value-HasAnswered target (s ∷ rs) r v h = elim (Bool-cases (is_value s.success_type)) [
    | inl e ↦
        let same : some s ≡ some r = rw e at h in
        subst
          (λ (o : Option LookupResponse). elim o [
            | none ↦ Unit
            | some x ↦ HasAnswered target x.resolver
          ])
          same (v.0 e)
    | inr e ↦ first_value-HasAnswered target rs r v.1 (rw e at h)
  ]

  rounds-IsBacked :
      (fuel : ℕ) (target : Key) (b : LookupBuffer) (responses : List LookupResponse) (w : W)
      (end : Rounds W)
      → All (IsBacked target) responses
      → rounds ask fuel target true b responses w ≡ some end
      → All (IsBacked target) end.responses
  unfolding rounds
  rounds-IsBacked zero target b responses w end v h = absurd (cc)
  rounds-IsBacked (suc fuel) target b responses w end v h =
      let asked : LookupBuffer × List NodeInfo = get_alpha_unqueried_nodes b in
      let answers : List LookupResponse × W = lookup_round ask target asked.1 true w in
      let recorded : LookupBuffer × Bool = record_lookup_round_responses answers.0 true asked.0 in
      let v' : All (IsBacked target) answers.0 = lookup_round-IsBacked target asked.1 w in
      elim (Bool-cases (is_empty asked.1)) [
        | inl e ↦ subst (All (IsBacked target)) (some_responses _ end (rw e at h)) v
        | inr e ↦ elim (Bool-cases recorded.1) [
          | inr r ↦ subst (All (IsBacked target)) (some_responses _ end (rw (e, r) at h)) v'
          | inl r ↦
              rounds-IsBacked fuel target recorded.0 answers.0 answers.1 end v' (rw (e, r) at h)
        ]
      ]
    where
      some_responses : (x y : Rounds W) → some x ≡ some y → x.responses ≡ y.responses
      some_responses x y p =
          ap (λ (o : Option (Rounds W)). elim o [ none ↦ x.responses | some r ↦ r.responses ]) p

  remaining-HasAnswered :
      (target : Key) (resolvers : List NodeInfo) (w : W) (storer : NodeInfo)
      → (find_among_remaining ask target resolvers w).0 ≡ some storer
      → HasAnswered target storer
  unfolding find_among_remaining
  remaining-HasAnswered target [] w storer h = absurd (cc)
  remaining-HasAnswered target (n ∷ ns) w storer h =
      go (first_value (lookup_round ask target (n ∷ ns) true w).0) refl
    where
      go :
          (found : Option LookupResponse)
          → first_value (lookup_round ask target (n ∷ ns) true w).0 ≡ found
          → HasAnswered target storer
      go none e = absurd (cc (rw (e, find_among_remaining) at h))
      go (some r) e =
          subst (λ (o : Option NodeInfo). elim o [ none ↦ Unit | some x ↦ HasAnswered target x ])
            (rw (e, find_among_remaining) at h)
            (first_value-HasAnswered target (lookup_round ask target (n ∷ ns) true w).0 r
              (lookup_round-IsBacked target (n ∷ ns) w) e)

  rounds-HasAnswered :
      (target : Key) (end : Rounds W) (storer : NodeInfo)
      → All (IsBacked target) end.responses
      → (storer_of_rounds ask target end).0 ≡ some storer
      → HasAnswered target storer
  unfolding storer_of_rounds
  rounds-HasAnswered target end storer v h = go (first_value end.responses) refl
    where
      go :
          (found : Option LookupResponse)
          → first_value end.responses ≡ found
          → HasAnswered target storer
      go none e =
          remaining-HasAnswered target (get_unqueried_resulting_nodes end.buffer) end.world storer
            (rw (e, storer_of_rounds) at h)
      go (some r) e =
          subst (λ (o : Option NodeInfo). elim o [ none ↦ Unit | some x ↦ HasAnswered target x ])
            (rw (e, storer_of_rounds) at h) (first_value-HasAnswered target end.responses r v e)

  -- A storer that `find_storer` reports after it asked the network has itself answered, at some
  -- moment of the lookup, that it has the value.
  pub search_storer-HasAnswered :
      (fuel : ℕ) (target : Key) (initial : List NodeInfo) (this_node : NodeInfo) (w w' : W)
      (storer : NodeInfo)
      → search_storer ask fuel target initial this_node w ≡ some (some storer, w')
      → HasAnswered target storer
  unfolding search_storer
  search_storer-HasAnswered fuel target [] this_node w w' storer h = absurd (cc)
  search_storer-HasAnswered fuel target (n ∷ ns) this_node w w' storer h =
      go (rounds ask fuel target true (Lookup.new target (n ∷ ns) this_node) [] w) refl
    where
      found : (x y : Option NodeInfo × W) → some x ≡ some y → x.0 ≡ y.0
      found x y p =
          ap (λ (o : Option (Option NodeInfo × W)). elim o [ none ↦ x.0 | some z ↦ z.0 ]) p

      go :
          (last : Option (Rounds W))
          → rounds ask fuel target true (Lookup.new target (n ∷ ns) this_node) [] w ≡ last
          → HasAnswered target storer
      go none e = absurd (cc (rw (e, search_storer) at h))
      go (some end) e =
          rounds-HasAnswered target end storer
            (rounds-IsBacked fuel target (Lookup.new target (n ∷ ns) this_node) [] w end tt e)
            (found _ _ (rw (e, search_storer) at h))
