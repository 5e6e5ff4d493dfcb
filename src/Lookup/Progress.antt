-- ===== src/Lookup/Progress.antt =====
-- How much a round of a lookup of src/core/lookup.rs leaves to do.
use rust_p2p_filesystem.Base.{
  ◌≤◌, ◌<◌, ◌≡◌, refl, ap, Bool, true, false, not, ◌&&◌, ◌||◌, List, [], ◌∷◌, take, keep, ◌==◌,
  beq_refl, arith, All, Bool-cases, inl, inr, is_empty,
}
use rust_p2p_filesystem.Constants.{alpha}
use rust_p2p_filesystem.Key.{key_eq}
use rust_p2p_filesystem.Networking.NodeInfo.{NodeInfo, node_eq}
use rust_p2p_filesystem.Lookup.{
  LookupNodeInfo, LookupResponse, is_value, LookupBuffer, nearer, sort_buffer, infos, mark_queried,
  mark_node_as_queried, mark_node_as_responded, mark_all_queried, get_alpha_unqueried_nodes,
  contains, push_new, push_all, record_response, record_loop, record_lookup_round_responses,
}
use rust_p2p_filesystem.Lookup.Weight.{
  unqueried, weight, mem_node, weight-mark_queried-le, weight-mark_responded, weight-sort,
  unqueried-append, missing-append-lt, missing-cong, contains-mark_queried,
  unqueried-mark_queried-le,
}

-- Every contact is among the given ones.
abbrev pub Among : List NodeInfo → List NodeInfo → Type 0
Among us ns = All (λ n. mem_node n us ≡ true) ns

push-le :
    (us : List NodeInfo) (node : NodeInfo) (b : LookupBuffer)
    → mem_node node us ≡ true
    → weight us (push_new node b).nodes ≤ weight us b.nodes
unfolding push_new weight
push-le us node b h = elim (Bool-cases (contains node b.nodes)) [
  | inl c ↦ rw c (omega arith)
  | inr c ↦ elim (Bool-cases (b.this_node == node)) [
    | inl e ↦ rw (c, e) (omega arith)
    | inr e ↦
        rw (c, e)
          (omega (arith, unqueried-append node b.nodes, missing-append-lt us node b.nodes h c))
  ]
]

push_all-le :
    (us ns : List NodeInfo) (b : LookupBuffer)
    → Among us ns
    → weight us (push_all ns b).nodes ≤ weight us b.nodes
unfolding push_all
push_all-le us [] b h = omega arith
push_all-le us (n ∷ ns) b h =
    omega (arith, push_all-le us ns (push_new n b) h.1, push-le us n b h.0)

response-le :
    (us : List NodeInfo) (r : LookupResponse) (for_value : Bool) (b : LookupBuffer)
    → Among us r.k_closest
    → weight us (record_response r for_value b).nodes ≤ weight us b.nodes
unfolding record_response mark_node_as_queried mark_node_as_responded
response-le us r for_value b h =
    elim (Bool-cases (not r.success || (not for_value && is_value r.success_type))) [
      | inl e ↦ rw e (weight-mark_queried-le us r.resolver.id b.nodes)
      | inr e ↦ rw e (
          omega (
            arith,
            weight-mark_responded us r.resolver.id (push_all r.k_closest b).nodes,
            push_all-le us r.k_closest b h,
          ))
    ]

loop-le :
    (us : List NodeInfo) (rs : List LookupResponse) (for_value : Bool) (b : LookupBuffer)
    → All (λ r. Among us r.k_closest) rs
    → weight us (record_loop rs for_value b).0.nodes ≤ weight us b.nodes
unfolding record_loop
loop-le us [] for_value b h = omega arith
loop-le us (r ∷ rs) for_value b h = elim (Bool-cases (for_value && is_value r.success_type)) [
  | inl e ↦ rw e (omega arith)
  | inr e ↦ rw e (
      omega (
        arith,
        loop-le us rs for_value (record_response r for_value b) h.1,
        response-le us r for_value b h.0,
      ))
]

-- Recording the responses of a round adds no work, if they name only contacts among the given.
pub record-le :
    (us : List NodeInfo) (rs : List LookupResponse) (for_value : Bool) (b : LookupBuffer)
    → All (λ r. Among us r.k_closest) rs
    → weight us (record_lookup_round_responses rs for_value b).0.nodes ≤ weight us b.nodes
unfolding record_lookup_round_responses sort_buffer
record-le us rs for_value b h = elim (Bool-cases (record_loop rs for_value b).1) [
  | inl e ↦ rw e (loop-le us rs for_value b h)
  | inr e ↦ rw e (
      omega (
        arith,
        weight-sort us (nearer (record_loop rs for_value b).0.target)
            (record_loop rs for_value b).0.nodes,
        loop-le us rs for_value b h,
      ))
]

mark_all-le :
    (us ns : List NodeInfo) (b : LookupBuffer)
    → weight us (mark_all_queried ns b).nodes ≤ weight us b.nodes
unfolding mark_all_queried mark_node_as_queried
mark_all-le us [] b = omega arith
mark_all-le us (n ∷ ns) b =
    omega (
      arith,
      mark_all-le us ns (mark_node_as_queried n.id b),
      weight-mark_queried-le us n.id b.nodes,
    )

-- The first entry that was not queried counts no longer once it is marked.
first-lt :
    (ns : List LookupNodeInfo) (c : NodeInfo) (cs : List NodeInfo)
    → infos (keep (λ n. not n.queried) ns) ≡ c ∷ cs
    → unqueried (mark_queried c.id ns) < unqueried ns
unfolding unqueried mark_queried keep
first-lt [] c cs h = absurd (cc)
first-lt (n ∷ ns) c cs h = elim (Bool-cases n.queried) [
  | inl e ↦ ground (arith, first-lt ns c cs (rw e at h))
  | inr e ↦
      let same : n.node_info ≡ c = cc (rw e at h) in
      ground
        (arith, ap (λ (x : NodeInfo). x.id) same, beq_refl c.id, unqueried-mark_queried-le c.id ns)
]

take_first :
    (xs : List NodeInfo) (c : NodeInfo) (cs : List NodeInfo)
    → take alpha xs ≡ c ∷ cs
    → (ds : List NodeInfo) × (xs ≡ c ∷ ds)
unfolding take
take_first [] c cs h = absurd (cc)
take_first (x ∷ xs) c cs h = (xs, cc)

-- A round that asks somebody leaves less to do.
pub alpha-lt :
    (us : List NodeInfo) (b : LookupBuffer)
    → is_empty (get_alpha_unqueried_nodes b).1 ≡ false
    → weight us (get_alpha_unqueried_nodes b).0.nodes < weight us b.nodes
unfolding get_alpha_unqueried_nodes
alpha-lt us b h = go (take alpha (infos (keep (λ n. not n.queried) b.nodes))) refl h
  where
    go :
        (candidates : List NodeInfo)
        → take alpha (infos (keep (λ n. not n.queried) b.nodes)) ≡ candidates
        → is_empty candidates ≡ false
        → weight us (mark_all_queried candidates b).nodes < weight us b.nodes
    go [] e h = absurd (cc)
    go (c ∷ cs) e h =
        unfold mark_all_queried mark_node_as_queried weight in
        let first = take_first (infos (keep (λ n. not n.queried) b.nodes)) c cs e in
        let rest : weight us (mark_all_queried cs (mark_node_as_queried c.id b)).nodes
            ≤ weight us (mark_node_as_queried c.id b).nodes =
          mark_all-le us cs (mark_node_as_queried c.id b) in
        omega (
          arith,
          rest,
          first-lt b.nodes c first.0 first.1,
          missing-cong us b.nodes (mark_queried c.id b.nodes)
              (λ u. contains-mark_queried u c.id b.nodes),
        )
