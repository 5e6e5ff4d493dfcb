-- ===== src/Lookup/Invariant.antt =====
-- Duplicates and the node itself in the lookup buffer of src/core/lookup.rs. Nothing is said of the
-- order of the buffer.
use rust_p2p_filesystem.Base.{
  ◌≡◌, ◌∙◌, Bool, false, not, ◌&&◌, ◌||◌, List, [], ◌∷◌, ◌++◌, ◌==◌, beq_sym, arith, All,
  All-append, Bool-cases, inl, inr,
}
use rust_p2p_filesystem.Base.Sort.{sort, insert, All-sort, All-insert}
use rust_p2p_filesystem.Key.{Key, key_eq}
use rust_p2p_filesystem.Networking.NodeInfo.{NodeInfo, node_eq}
use rust_p2p_filesystem.Lookup.{
  LookupNodeInfo, fresh, LookupResponse, is_value, LookupBuffer, nearer, sort_buffer, mark_queried,
  mark_responded, mark_node_as_queried, mark_node_as_responded, mark_all_queried, contains,
  push_new, push_all, record_response, record_loop, record_lookup_round_responses,
}

-- No contact occurs twice.
abbrev pub Distinct : List LookupNodeInfo → Type 0
Distinct [] = Unit {0}
Distinct (n ∷ ns) = All (λ o. (o.node_info == n.node_info) ≡ false) ns × Distinct ns

-- What the buffer promises but for its order, for the node that looks up.
pub record IsBuffer (b : LookupBuffer) : Type 0 where
  pub distinct : Distinct b.nodes
  pub others : All (λ n. (b.this_node == n.node_info) ≡ false) b.nodes

-- A statement about the contacts holds of the marked entries as well.
All-mark_queried :
    (P : NodeInfo → Type 0) (id : Key) (ns : List LookupNodeInfo)
    → All (λ n. P n.node_info) ns
    → All (λ n. P n.node_info) (mark_queried id ns)
unfolding mark_queried
All-mark_queried P id [] h = tt
All-mark_queried P id (n ∷ ns) h = (
  elim (Bool-cases (n.node_info.id == id)) [ inl e ↦ rw e h.0 | inr e ↦ rw e h.0 ],
  All-mark_queried P id ns h.1,
)

All-mark_responded :
    (P : NodeInfo → Type 0) (id : Key) (ns : List LookupNodeInfo)
    → All (λ n. P n.node_info) ns
    → All (λ n. P n.node_info) (mark_responded id ns)
unfolding mark_responded
All-mark_responded P id [] h = tt
All-mark_responded P id (n ∷ ns) h = (
  elim (Bool-cases (n.node_info.id == id)) [ inl e ↦ rw e h.0 | inr e ↦ rw e h.0 ],
  All-mark_responded P id ns h.1,
)

Distinct-mark_queried :
    (id : Key) (ns : List LookupNodeInfo) → Distinct ns → Distinct (mark_queried id ns)
unfolding mark_queried
Distinct-mark_queried id [] h = tt
Distinct-mark_queried id (n ∷ ns) h = (
  elim (Bool-cases (n.node_info.id == id)) [
    | inl e ↦ rw e (All-mark_queried (λ o. (o == n.node_info) ≡ false) id ns h.0)
    | inr e ↦ rw e (All-mark_queried (λ o. (o == n.node_info) ≡ false) id ns h.0)
  ],
  Distinct-mark_queried id ns h.1,
)

Distinct-mark_responded :
    (id : Key) (ns : List LookupNodeInfo) → Distinct ns → Distinct (mark_responded id ns)
unfolding mark_responded
Distinct-mark_responded id [] h = tt
Distinct-mark_responded id (n ∷ ns) h = (
  elim (Bool-cases (n.node_info.id == id)) [
    | inl e ↦ rw e (All-mark_responded (λ o. (o == n.node_info) ≡ false) id ns h.0)
    | inr e ↦ rw e (All-mark_responded (λ o. (o == n.node_info) ≡ false) id ns h.0)
  ],
  Distinct-mark_responded id ns h.1,
)

mark_queried-IsBuffer :
    (id : Key) (b : LookupBuffer) → IsBuffer b → IsBuffer (mark_node_as_queried id b)
unfolding mark_node_as_queried
mark_queried-IsBuffer id b v = record {
  distinct = Distinct-mark_queried id b.nodes v.distinct;
  others = All-mark_queried (λ o. (b.this_node == o) ≡ false) id b.nodes v.others;
}

mark_responded-IsBuffer :
    (id : Key) (b : LookupBuffer) → IsBuffer b → IsBuffer (mark_node_as_responded id b)
unfolding mark_node_as_responded
mark_responded-IsBuffer id b v = record {
  distinct = Distinct-mark_responded id b.nodes v.distinct;
  others = All-mark_responded (λ o. (b.this_node == o) ≡ false) id b.nodes v.others;
}

pub mark_all-IsBuffer :
    (ns : List NodeInfo) (b : LookupBuffer) → IsBuffer b → IsBuffer (mark_all_queried ns b)
unfolding mark_all_queried
mark_all-IsBuffer [] b v = v
mark_all-IsBuffer (n ∷ ns) b v =
    mark_all-IsBuffer ns (mark_node_as_queried n.id b) (mark_queried-IsBuffer n.id b v)

-- The order of the sort forgets nothing.
Distinct-insert :
    (le : LookupNodeInfo → LookupNodeInfo → Bool) (n : LookupNodeInfo) (ns : List LookupNodeInfo)
    → All (λ o. (o.node_info == n.node_info) ≡ false) ns
    → Distinct ns
    → Distinct (insert le n ns)
unfolding insert
Distinct-insert le n [] h d = (tt, tt)
Distinct-insert le n (o ∷ ns) h d = elim (Bool-cases (le n o)) [
  | inl e ↦ rw e (h, d)
  | inr e ↦ rw e (
    All-insert le (λ p. (p.node_info == o.node_info) ≡ false) n ns
        (beq_sym n.node_info o.node_info ∙ h.0) d.0,
    Distinct-insert le n ns h.1 d.1,
  )
]

Distinct-sort :
    (le : LookupNodeInfo → LookupNodeInfo → Bool) (ns : List LookupNodeInfo)
    → Distinct ns
    → Distinct (sort le ns)
unfolding sort
Distinct-sort le [] d = tt
Distinct-sort le (n ∷ ns) d =
    Distinct-insert le n (sort le ns)
      (All-sort le (λ o. (o.node_info == n.node_info) ≡ false) ns d.0) (Distinct-sort le ns d.1)

pub sort-IsBuffer : (b : LookupBuffer) → IsBuffer b → IsBuffer (sort_buffer b)
unfolding sort_buffer
sort-IsBuffer b v = record {
  distinct = Distinct-sort (nearer b.target) b.nodes v.distinct;
  others = All-sort (nearer b.target) (λ n. (b.this_node == n.node_info) ≡ false) b.nodes v.others;
}

-- A contact that is not in the buffer yet may be added.
not_contained :
    (node : NodeInfo) (ns : List LookupNodeInfo)
    → contains node ns ≡ false
    → All (λ n. (n.node_info == node) ≡ false) ns
unfolding contains
not_contained node [] h = tt
not_contained node (n ∷ ns) h = ground (arith, not_contained node ns)

Distinct-append :
    (node : NodeInfo) (ns : List LookupNodeInfo)
    → All (λ n. (n.node_info == node) ≡ false) ns
    → Distinct ns
    → Distinct (ns ++ fresh node ∷ [])
unfolding fresh
Distinct-append node [] h d = (tt, tt)
Distinct-append node (n ∷ ns) h d = (
  All-append (λ o. (o.node_info == n.node_info) ≡ false) ns (fresh node ∷ []) d.0
      (beq_sym node n.node_info ∙ h.0, tt),
  Distinct-append node ns h.1 d.1,
)

push-IsBuffer : (node : NodeInfo) (b : LookupBuffer) → IsBuffer b → IsBuffer (push_new node b)
unfolding push_new fresh
push-IsBuffer node b v = elim (Bool-cases (contains node b.nodes)) [
  | inl h ↦ rw h v
  | inr h ↦ elim (Bool-cases (b.this_node == node)) [
    | inl e ↦ rw (h, e) v
    | inr e ↦
        rw (h, e)
          (record {
            distinct = Distinct-append node b.nodes (not_contained node b.nodes h) v.distinct;
            others =
                All-append (λ n. (b.this_node == n.node_info) ≡ false) b.nodes (fresh node ∷ [])
                  v.others (e, tt);
          })
  ]
]

push_all-IsBuffer : (ns : List NodeInfo) (b : LookupBuffer) → IsBuffer b → IsBuffer (push_all ns b)
unfolding push_all
push_all-IsBuffer [] b v = v
push_all-IsBuffer (n ∷ ns) b v = push_all-IsBuffer ns (push_new n b) (push-IsBuffer n b v)

response-IsBuffer :
    (r : LookupResponse) (for_value : Bool) (b : LookupBuffer)
    → IsBuffer b
    → IsBuffer (record_response r for_value b)
unfolding record_response
response-IsBuffer r for_value b v =
    elim (Bool-cases (not r.success || (not for_value && is_value r.success_type))) [
      | inl h ↦ rw h (mark_queried-IsBuffer r.resolver.id b v)
      | inr h ↦ rw h (
          mark_responded-IsBuffer r.resolver.id (push_all r.k_closest b)
            (push_all-IsBuffer r.k_closest b v))
    ]

loop-IsBuffer :
    (rs : List LookupResponse) (for_value : Bool) (b : LookupBuffer)
    → IsBuffer b
    → IsBuffer (record_loop rs for_value b).0
unfolding record_loop
loop-IsBuffer [] for_value b v = v
loop-IsBuffer (r ∷ rs) for_value b v = elim (Bool-cases (for_value && is_value r.success_type)) [
  | inl h ↦ rw h v
  | inr h ↦ rw h (
      loop-IsBuffer rs for_value (record_response r for_value b)
        (response-IsBuffer r for_value b v))
]

-- A buffer in which no contact occurs twice and the node itself does not occur stays so when the
-- responses of a round are recorded, whatever they say.
pub record_lookup_round_responses-IsBuffer :
    (rs : List LookupResponse) (for_value : Bool) (b : LookupBuffer)
    → IsBuffer b
    → IsBuffer (record_lookup_round_responses rs for_value b).0
unfolding record_lookup_round_responses
record_lookup_round_responses-IsBuffer rs for_value b v =
    elim (Bool-cases (record_loop rs for_value b).1) [
      | inl h ↦ rw h (loop-IsBuffer rs for_value b v)
      | inr h ↦ rw h (sort-IsBuffer (record_loop rs for_value b).0 (loop-IsBuffer rs for_value b v))
    ]
