-- ===== src/Node/Rounds.antt =====
-- The ends of the lookup loops of `find_node`, `join_network` and `find_storer` of
-- src/core/node.rs, and what `find_node` hands out.
use rust_p2p_filesystem.Base.{
  ℕ, zero, suc, ◌+◌, ◌≤◌, ◌<◌, ◌≡◌, refl, ap, subst, Bool, true, false, not, List, [], ◌∷◌, Option,
  none, some, map, take, keep, ◌==◌, arith, All, Bool-cases, inl, inr, length, is_empty,
}
use rust_p2p_filesystem.Base.Outcome.{Result}
use rust_p2p_filesystem.Base.Sort.{sort}
use rust_p2p_filesystem.Constants.{alpha}
use rust_p2p_filesystem.Key.{Key}
use rust_p2p_filesystem.Networking.NodeInfo.{NodeInfo, node_eq}
use rust_p2p_filesystem.Networking.Messages.{Response, RequestType}
use rust_p2p_filesystem.Routing.KBucket.{NodeError}
use rust_p2p_filesystem.Lookup.{
  LookupNodeInfo, fresh, LookupBuffer, LookupResponse, get_alpha_unqueried_nodes,
  get_unqueried_resulting_nodes, get_resulting_vector, record_lookup_round_responses, sort_buffer,
  nearer, contains,
}
use rust_p2p_filesystem.Lookup
use rust_p2p_filesystem.Lookup.Weight.{unqueried, missing, weight, weight-sort}
use rust_p2p_filesystem.Lookup.Progress.{Among, record-le, alpha-lt}
use rust_p2p_filesystem.Lookup.Kept.{IsFor, new-IsFor, alpha-IsFor, record-IsFor}
use rust_p2p_filesystem.Lookup.Invariant.{
  IsBuffer, mark_all-IsBuffer, record_lookup_round_responses-IsBuffer, sort-IsBuffer, Distinct,
}
use rust_p2p_filesystem.Lookup.Answer.{
  IsAnswer, DistinctContacts, record_lookup_round_responses-IsAnswer,
}
use rust_p2p_filesystem.Node.Lookups.{
  read_answer, lookup_request, Rounds, single_lookup, lookup_round, rounds, resolve_nodes,
  search_storer,
}

missing-le : (us : List NodeInfo) (ns : List LookupNodeInfo) → missing us ns ≤ length us
unfolding missing
missing-le [] ns = omega arith
missing-le (u ∷ us) ns = ground (arith, missing-le us ns)

unqueried-fresh : (ns : List NodeInfo) → unqueried (map fresh ns) ≡ length ns
unfolding unqueried fresh keep
unqueried-fresh [] = refl
unqueried-fresh (n ∷ ns) = ap suc (unqueried-fresh ns)

new-weight-le :
    (us : List NodeInfo) (target : Key) (initial : List NodeInfo) (this_node : NodeInfo)
    → weight us (Lookup.new target initial this_node).nodes ≤ length initial + length us
unfolding Lookup.new sort_buffer weight
new-weight-le us target initial this_node =
    let sorted : unfold weight in
        (weight us (sort (nearer target) (map fresh initial)) ≡ weight us (map fresh initial)) =
      unfold weight in weight-sort us (nearer target) (map fresh initial) in
    omega (arith, sorted, unqueried-fresh initial, missing-le us (map fresh initial))

fresh-All :
    (P : NodeInfo → Type 0) (ns : List NodeInfo)
    → All P ns
    → All (λ n. P n.node_info) (map fresh ns)
unfolding fresh
fresh-All P [] h = tt
fresh-All P (n ∷ ns) h = (h.0, fresh-All P ns h.1)

fresh-Distinct : (ns : List NodeInfo) → DistinctContacts ns → Distinct (map fresh ns)
unfolding fresh
fresh-Distinct [] h = tt
fresh-Distinct (n ∷ ns) h =
    (unfold fresh in fresh-All (λ o. (o == n) ≡ false) ns h.0, fresh-Distinct ns h.1)

new-IsBuffer :
    (target : Key) (initial : List NodeInfo) (this_node : NodeInfo)
    → DistinctContacts initial
    → All (λ n. (this_node == n) ≡ false) initial
    → IsBuffer (Lookup.new target initial this_node)
unfolding Lookup.new
new-IsBuffer target initial this_node d o =
    sort-IsBuffer (record { nodes = map fresh initial; target = target; this_node = this_node })
      (record {
        distinct = fresh-Distinct initial d;
        others = fresh-All (λ n. (this_node == n) ≡ false) initial o;
      })

alpha-IsBuffer : (b : LookupBuffer) → IsBuffer b → IsBuffer (get_alpha_unqueried_nodes b).0
unfolding get_alpha_unqueried_nodes
alpha-IsBuffer b v =
    mark_all-IsBuffer (take alpha (Lookup.infos (keep (λ n. not n.queried) b.nodes))) b v

module _ {W : Type 0} (ask : NodeInfo → RequestType → W → Result NodeError Response × W) where
  -- No answer to a lookup of the target names a contact that is not among the given ones.
  abbrev pub Names : List NodeInfo → Key → Bool → Type 0
  Names us target for_value =
      (resolver : NodeInfo) (w : W)
      → Among us
          (read_answer resolver for_value
            (ask resolver (lookup_request target for_value) w).0).k_closest

  lookup_round-Among :
      (us : List NodeInfo) (target : Key) (for_value : Bool)
      → Names us target for_value
      → (resolvers : List NodeInfo) (w : W)
      → All
          (λ (r : LookupResponse). Among us r.k_closest)
          (lookup_round ask target resolvers for_value w).0
  unfolding lookup_round single_lookup
  lookup_round-Among us target for_value named [] w = tt
  lookup_round-Among us target for_value named (r ∷ rs) w =
      (named r w, lookup_round-Among us target for_value named rs _)

  -- A loop with more fuel than there is work comes to its end.
  rounds_end :
      (us : List NodeInfo) (target : Key) (for_value : Bool)
      → Names us target for_value
      → (fuel : ℕ) (b : LookupBuffer) (responses : List LookupResponse) (w : W)
      → weight us b.nodes < fuel
      → (end : Rounds W) × (rounds ask fuel target for_value b responses w ≡ some end)
  unfolding rounds
  rounds_end us target for_value named zero b responses w h = absurd (omega arith)
  rounds_end us target for_value named (suc fuel) b responses w h =
      let asked : LookupBuffer × List NodeInfo = get_alpha_unqueried_nodes b in
      let answers : List LookupResponse × W = lookup_round ask target asked.1 for_value w in
      let recorded : LookupBuffer × Bool =
        record_lookup_round_responses answers.0 for_value asked.0 in
      elim (Bool-cases (is_empty asked.1)) [
        | inl e ↦ rw e (_, refl)
        | inr e ↦ elim (Bool-cases recorded.1) [
          | inr r ↦ rw (e, r) (_, refl)
          | inl r ↦
              let less : weight us recorded.0.nodes < fuel = omega (
                arith,
                alpha-lt us b e,
                record-le us answers.0 for_value asked.0
                    (lookup_round-Among us target for_value named asked.1 w),
              ) in
              let rest =
                rounds_end us target for_value named fuel recorded.0 answers.0 answers.1 less in
              rw (e, r) rest
        ]
      ]

  -- If no answer names a contact that is not among `us`, the rounds of `find_node` and of
  -- `join_network` come to an end, whatever the answers are: fuel for more rounds than there are
  -- initial contacts and contacts of `us` together gives a result.
  pub resolve_nodes_end :
      (us : List NodeInfo) (target : Key) (initial : List NodeInfo) (this_node : NodeInfo) (w : W)
      → Names us target false
      → (fuel : ℕ) → length initial + length us < fuel
      → (end : LookupBuffer × W) × (resolve_nodes ask fuel target initial this_node w ≡ some end)
  unfolding resolve_nodes
  resolve_nodes_end us target initial this_node w named fuel h =
      let end =
        rounds_end us target false named fuel (Lookup.new target initial this_node) [] w
          (omega (arith, new-weight-le us target initial this_node)) in
      rw (end.1, resolve_nodes) (_, refl)

  -- If no answer names a contact that is not among `us`, the search of `find_storer` comes to an
  -- end, whatever the answers are: fuel for more rounds than there are initial contacts and
  -- contacts of `us` together gives a result.
  pub search_storer_end :
      (us : List NodeInfo) (target : Key) (initial : List NodeInfo) (this_node : NodeInfo) (w : W)
      → Names us target true
      → (fuel : ℕ) → length initial + length us < fuel
      → (found : Option NodeInfo × W) × (search_storer ask fuel target initial this_node w
          ≡ some found)
  unfolding search_storer
  search_storer_end us target [] this_node w named fuel h = (_, refl)
  search_storer_end us target (r ∷ rs) this_node w named fuel h =
      let end =
        rounds_end us target true named fuel (Lookup.new target (r ∷ rs) this_node) [] w
          (omega (arith, new-weight-le us target (r ∷ rs) this_node)) in
      rw (end.1, search_storer) (_, refl)

  -- What taking the candidates of a round and recording its responses keeps, the rounds keep.
  rounds_keep :
      (Q : LookupBuffer → Type 0) (target : Key) (for_value : Bool)
      → ((b : LookupBuffer) → Q b → Q (get_alpha_unqueried_nodes b).0)
      → ((rs : List LookupResponse) (b : LookupBuffer)
          → Q b
          → Q (record_lookup_round_responses rs for_value b).0)
      → (fuel : ℕ) (b : LookupBuffer) (responses : List LookupResponse) (w : W) (end : Rounds W)
      → Q b
      → rounds ask fuel target for_value b responses w ≡ some end
      → Q end.buffer
  unfolding rounds
  rounds_keep Q target for_value taken recorded zero b responses w end v h = absurd (cc)
  rounds_keep Q target for_value taken recorded (suc fuel) b responses w end v h =
      let asked : LookupBuffer × List NodeInfo = get_alpha_unqueried_nodes b in
      let answers : List LookupResponse × W = lookup_round ask target asked.1 for_value w in
      let after : LookupBuffer × Bool = record_lookup_round_responses answers.0 for_value asked.0 in
      let v' : Q after.0 = recorded answers.0 asked.0 (taken b v) in
      elim (Bool-cases (is_empty asked.1)) [
        | inl e ↦ subst Q (some_buffer _ end (rw e at h)) (taken b v)
        | inr e ↦ elim (Bool-cases after.1) [
          | inr r ↦ subst Q (some_buffer _ end (rw (e, r) at h)) v'
          | inl r ↦
              rounds_keep Q target for_value taken recorded fuel after.0 answers.0 answers.1 end v'
                (rw (e, r) at h)
        ]
      ]
    where
      some_buffer : (x y : Rounds W) → some x ≡ some y → x.buffer ≡ y.buffer
      some_buffer x y p =
          ap (λ (o : Option (Rounds W)). elim o [ none ↦ x.buffer | some r ↦ r.buffer ]) p

  -- If the initial contacts are distinct and the node itself is not among them, the resulting
  -- vector after the last round of `find_node` has at most K contacts, in the order of their
  -- distance to the target, none of them twice and none the node itself, whatever was answered.
  pub resolve_nodes-IsAnswer :
      (fuel : ℕ) (target : Key) (initial : List NodeInfo) (this_node : NodeInfo) (w : W)
      (end : LookupBuffer × W)
      → DistinctContacts initial
      → All (λ n. (this_node == n) ≡ false) initial
      → resolve_nodes ask fuel target initial this_node w ≡ some end
      → IsAnswer target this_node (get_resulting_vector end.0)
  unfolding resolve_nodes
  resolve_nodes-IsAnswer fuel target initial this_node w end d o h =
      go (rounds ask fuel target false (Lookup.new target initial this_node) [] w) refl
    where
      Kept : LookupBuffer → Type 0
      Kept b = IsBuffer b × IsFor target this_node b

      go :
          (last : Option (Rounds W))
          → rounds ask fuel target false (Lookup.new target initial this_node) [] w ≡ last
          → IsAnswer target this_node (get_resulting_vector end.0)
      go none e = absurd (cc (rw (e, resolve_nodes) at h))
      go (some last) e =
          let answers : List LookupResponse × W =
            lookup_round ask target (get_unqueried_resulting_nodes last.buffer) false last.world in
          let after : LookupBuffer × W =
            ((record_lookup_round_responses answers.0 false last.buffer).0, answers.1) in
          let same : after ≡ end = cc (rw (e, resolve_nodes) at h) in
          let kept : Kept last.buffer =
            rounds_keep Kept target false
              (λ b v. (alpha-IsBuffer b v.0, alpha-IsFor target this_node b v.1))
              (λ rs b v. (
                record_lookup_round_responses-IsBuffer rs false b v.0,
                record-IsFor target this_node rs false b v.1,
              ))
              fuel (Lookup.new target initial this_node) [] w last
              (new-IsBuffer target initial this_node d o, new-IsFor target this_node initial) e in
          let ours : IsFor target this_node after.0 =
            record-IsFor target this_node answers.0 false last.buffer kept.1 in
          let answer : IsAnswer after.0.target after.0.this_node (get_resulting_vector after.0) =
            record_lookup_round_responses-IsAnswer answers.0 last.buffer kept.0 in
          subst (λ (x : LookupBuffer × W). IsAnswer target this_node (get_resulting_vector x.0))
            same
            (subst (λ n. IsAnswer target n (get_resulting_vector after.0)) ours.owner
              (subst (λ k. IsAnswer k after.0.this_node (get_resulting_vector after.0)) ours.aims
                answer))
