-- ===== src/Lookup/Kept.antt =====
-- The target and the node of the buffer of src/core/lookup.rs under its operations.
use rust_p2p_filesystem.Base.{
  ◌≡◌, refl, Bool, not, ◌&&◌, ◌||◌, List, [], ◌∷◌, ◌==◌, Bool-cases, inl, inr,
}
use rust_p2p_filesystem.Key.{Key}
use rust_p2p_filesystem.Networking.NodeInfo.{NodeInfo, node_eq}
use rust_p2p_filesystem.Lookup.{
  LookupResponse, is_value, LookupBuffer, sort_buffer, new, mark_node_as_queried,
  mark_node_as_responded, mark_all_queried, get_alpha_unqueried_nodes, contains, push_new, push_all,
  record_response, record_loop, record_lookup_round_responses,
}

-- A buffer for the target and the node.
pub record IsFor (target : Key) (this_node : NodeInfo) (b : LookupBuffer) : Type 0 where
  pub aims : b.target ≡ target
  pub owner : b.this_node ≡ this_node

module _ (target : Key) (this_node : NodeInfo) where
  pub new-IsFor : (initial : List NodeInfo) → IsFor target this_node (new target initial this_node)
  unfolding new sort_buffer
  new-IsFor initial = record { aims = refl; owner = refl }

  mark_all-IsFor :
      (ns : List NodeInfo) (b : LookupBuffer)
      → IsFor target this_node b
      → IsFor target this_node (mark_all_queried ns b)
  unfolding mark_all_queried mark_node_as_queried
  mark_all-IsFor [] b v = v
  mark_all-IsFor (n ∷ ns) b v =
      unfold mark_all_queried mark_node_as_queried in
      mark_all-IsFor ns (mark_node_as_queried n.id b) (record { aims = v.aims; owner = v.owner })

  pub alpha-IsFor :
      (b : LookupBuffer)
      → IsFor target this_node b
      → IsFor target this_node (get_alpha_unqueried_nodes b).0
  unfolding get_alpha_unqueried_nodes
  alpha-IsFor b v = mark_all-IsFor (get_alpha_unqueried_nodes b).1 b v

  push-IsFor :
      (n : NodeInfo) (b : LookupBuffer)
      → IsFor target this_node b
      → IsFor target this_node (push_new n b)
  unfolding push_new
  push-IsFor n b v = elim (Bool-cases (not (contains n b.nodes) && not (b.this_node == n))) [
    | inl h ↦ rw h (record { aims = v.aims; owner = v.owner })
    | inr h ↦ rw h v
  ]

  push_all-IsFor :
      (ns : List NodeInfo) (b : LookupBuffer)
      → IsFor target this_node b
      → IsFor target this_node (push_all ns b)
  unfolding push_all
  push_all-IsFor [] b v = v
  push_all-IsFor (n ∷ ns) b v = push_all-IsFor ns (push_new n b) (push-IsFor n b v)

  response-IsFor :
      (r : LookupResponse) (for_value : Bool) (b : LookupBuffer)
      → IsFor target this_node b
      → IsFor target this_node (record_response r for_value b)
  unfolding record_response mark_node_as_queried mark_node_as_responded
  response-IsFor r for_value b v =
      elim (Bool-cases (not r.success || (not for_value && is_value r.success_type))) [
        | inl h ↦ rw h (record { aims = v.aims; owner = v.owner })
        | inr h ↦
            let w : IsFor target this_node (push_all r.k_closest b) =
              push_all-IsFor r.k_closest b v in
            rw h (record { aims = w.aims; owner = w.owner })
      ]

  loop-IsFor :
      (rs : List LookupResponse) (for_value : Bool) (b : LookupBuffer)
      → IsFor target this_node b
      → IsFor target this_node (record_loop rs for_value b).0
  unfolding record_loop
  loop-IsFor [] for_value b v = v
  loop-IsFor (r ∷ rs) for_value b v = elim (Bool-cases (for_value && is_value r.success_type)) [
    | inl h ↦ rw h v
    | inr h ↦
        rw h
          (loop-IsFor rs for_value (record_response r for_value b) (response-IsFor r for_value b v))
  ]

  pub record-IsFor :
      (rs : List LookupResponse) (for_value : Bool) (b : LookupBuffer)
      → IsFor target this_node b
      → IsFor target this_node (record_lookup_round_responses rs for_value b).0
  unfolding record_lookup_round_responses sort_buffer
  record-IsFor rs for_value b v =
      let w : IsFor target this_node (record_loop rs for_value b).0 = loop-IsFor rs for_value b v in
      elim (Bool-cases (record_loop rs for_value b).1) [
        | inl h ↦ rw h w
        | inr h ↦ rw h (record { aims = w.aims; owner = w.owner })
      ]
