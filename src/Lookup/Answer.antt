-- ===== src/Lookup/Answer.antt =====
-- What a finished lookup of src/core/lookup.rs hands out.
use rust_p2p_filesystem.Base.{
  ◌≡◌, refl, ◌≤◌, ap, Bool, true, false, not, List, [], ◌∷◌, take, keep, ◌==◌, arith, All, All-take,
  All-keep, Bool-cases, inl, inr, length, length-take, ℕ, zero, suc,
}
use rust_p2p_filesystem.Base.Sort.{IsSorted, IsOrder, sort-IsSorted}
use rust_p2p_filesystem.Constants.{K}
use rust_p2p_filesystem.Key.{Key, key_eq, distance}
use rust_p2p_filesystem.Key.Order.{bytes_le, bytes_le-IsOrder}
use rust_p2p_filesystem.Networking.NodeInfo.{NodeInfo, node_eq}
use rust_p2p_filesystem.Lookup.{
  LookupNodeInfo, LookupResponse, LookupBuffer, nearer, sort_buffer, infos, get_resulting_vector,
  has_failed_to_respond, record_loop, record_lookup_round_responses,
}
use rust_p2p_filesystem.Lookup.Invariant.{
  Distinct, IsBuffer, record_lookup_round_responses-IsBuffer,
}

abbrev pub nearer_contact : Key → NodeInfo → NodeInfo → Bool
nearer_contact target a b = bytes_le (distance a.id target) (distance b.id target)

abbrev pub DistinctContacts : List NodeInfo → Type 0
DistinctContacts [] = Unit {0}
DistinctContacts (n ∷ ns) = All (λ o. (o == n) ≡ false) ns × DistinctContacts ns

-- A list of contacts that answers a lookup of a target by a node.
pub record IsAnswer (target : Key) (this_node : NodeInfo) (ns : List NodeInfo) : Type 0 where
  pub few : length ns ≤ K
  pub ordered : IsSorted (nearer_contact target) ns
  pub distinct : DistinctContacts ns
  pub others : All (λ n. (this_node == n) ≡ false) ns

nearer-IsOrder : (target : Key) → IsOrder (nearer target)
nearer-IsOrder target =
    let o : IsOrder bytes_le = bytes_le-IsOrder in
    record {
      total = λ a b. o.total (distance a.node_info.id target) (distance b.node_info.id target);
      trans = λ a b c.
          o.trans (distance a.node_info.id target) (distance b.node_info.id target)
            (distance c.node_info.id target);
    }

module _ {A : Type 0} (R : A → A → Type 0) where
  -- Every element is related to all that follow.
  Pairwise : List A → Type 0
  Pairwise [] = Unit {0}
  Pairwise (x ∷ xs) = All (R x) xs × Pairwise xs

  Pairwise-keep : (p : A → Bool) (xs : List A) → Pairwise xs → Pairwise (keep p xs)
  unfolding Pairwise keep
  Pairwise-keep p [] h = tt
  Pairwise-keep p (x ∷ xs) h = elim (Bool-cases (p x)) [
    | inl e ↦ rw e (All-keep (R x) p xs h.0, Pairwise-keep p xs h.1)
    | inr e ↦ rw e (Pairwise-keep p xs h.1)
  ]

  Pairwise-take : (n : ℕ) (xs : List A) → Pairwise xs → Pairwise (take n xs)
  unfolding Pairwise take
  Pairwise-take zero xs h = tt
  Pairwise-take (suc n) [] h = tt
  Pairwise-take (suc n) (x ∷ xs) h = (All-take (R x) n xs h.0, Pairwise-take n xs h.1)

All-infos :
    (P : NodeInfo → Type 0) (ns : List LookupNodeInfo)
    → All (λ n. P n.node_info) ns
    → All P (infos ns)
All-infos P [] h = tt
All-infos P (n ∷ ns) h = (h.0, All-infos P ns h.1)

length-infos : (ns : List LookupNodeInfo) → length (infos ns) ≡ length ns
length-infos [] = refl
length-infos (n ∷ ns) = ap suc (length-infos ns)

sorted→pairwise :
    (target : Key) (ns : List LookupNodeInfo)
    → IsSorted (nearer target) ns
    → Pairwise (λ n o. nearer target n o ≡ true) ns
unfolding Pairwise
sorted→pairwise target [] h = tt
sorted→pairwise target (n ∷ ns) h = (h.0, sorted→pairwise target ns h.1)

pairwise→sorted :
    (target : Key) (ns : List LookupNodeInfo)
    → Pairwise (λ n o. nearer target n o ≡ true) ns
    → IsSorted (nearer_contact target) (infos ns)
unfolding Pairwise
pairwise→sorted target [] h = tt
pairwise→sorted target (n ∷ ns) h = (
  All-infos (λ o. nearer_contact target n.node_info o ≡ true) ns h.0,
  pairwise→sorted target ns h.1,
)

distinct→pairwise :
    (ns : List LookupNodeInfo)
    → Distinct ns
    → Pairwise (λ n o. (o.node_info == n.node_info) ≡ false) ns
unfolding Pairwise
distinct→pairwise [] h = tt
distinct→pairwise (n ∷ ns) h = (h.0, distinct→pairwise ns h.1)

pairwise→distinct :
    (ns : List LookupNodeInfo)
    → Pairwise (λ n o. (o.node_info == n.node_info) ≡ false) ns
    → DistinctContacts (infos ns)
unfolding Pairwise
pairwise→distinct [] h = tt
pairwise→distinct (n ∷ ns) h =
    (All-infos (λ o. (o == n.node_info) ≡ false) ns h.0, pairwise→distinct ns h.1)

get_resulting_vector-IsAnswer :
    (b : LookupBuffer)
    → IsBuffer b
    → IsSorted (nearer b.target) b.nodes
    → IsAnswer b.target b.this_node (get_resulting_vector b)
unfolding get_resulting_vector
get_resulting_vector-IsAnswer b v s =
    let responsive = λ (n : LookupNodeInfo). not (has_failed_to_respond n) in
    record {
      few = omega (
        arith,
        length-infos (take K (keep responsive b.nodes)),
        length-take K (keep responsive b.nodes),
      );
      ordered = pairwise→sorted b.target (take K (keep responsive b.nodes)) (
          Pairwise-take _ K (keep responsive b.nodes)
            (Pairwise-keep _ responsive b.nodes (sorted→pairwise b.target b.nodes s)));
      distinct = pairwise→distinct (take K (keep responsive b.nodes)) (
          Pairwise-take _ K (keep responsive b.nodes)
            (Pairwise-keep _ responsive b.nodes (distinct→pairwise b.nodes v.distinct)));
      others =
          All-infos (λ n. (b.this_node == n) ≡ false) (take K (keep responsive b.nodes))
            (All-take _ K (keep responsive b.nodes) (All-keep _ responsive b.nodes v.others));
    }

-- A round of a lookup for nodes goes through all responses.
record_loop_nodes :
    (rs : List LookupResponse) (b : LookupBuffer) → (record_loop rs false b).1 ≡ false
unfolding record_loop
record_loop_nodes [] b = refl
record_loop_nodes (r ∷ rs) b = record_loop_nodes rs _

-- After a round of a lookup for nodes the resulting vector is an answer for the buffer's target
-- and node: at most K contacts, in the order of their distance to the target, none of them twice
-- and none the node itself.
pub record_lookup_round_responses-IsAnswer :
    (rs : List LookupResponse) (b : LookupBuffer)
    → IsBuffer b
    → let after = (record_lookup_round_responses rs false b).0 in
      IsAnswer after.target after.this_node (get_resulting_vector after)
record_lookup_round_responses-IsAnswer rs b v =
    get_resulting_vector-IsAnswer (record_lookup_round_responses rs false b).0
      (record_lookup_round_responses-IsBuffer rs false b v) ordered
  where
    ordered :
        let after = (record_lookup_round_responses rs false b).0 in
        IsSorted (nearer after.target) after.nodes
    ordered =
        unfold record_lookup_round_responses sort_buffer in
        rw (record_loop_nodes rs b) (
          sort-IsSorted (nearer (record_loop rs false b).0.target) (nearer-IsOrder _)
            (record_loop rs false b).0.nodes)
