-- ===== src/Networking/RequestMap/Delivery.antt =====
-- Which pending requests of src/networking/request_map.rs a response answers.
use rust_p2p_filesystem.Base.{
  ℕ, ◌≡◌, refl, sym, ap, ◌∙◌, false, Option, none, some, if◌then◌else◌, nat_eq, ◌==◌, beq_refl,
  Bool-cases, inl, inr,
}
use rust_p2p_filesystem.Base.Assoc.{
  get, remove, contains_key, get-insert, contains_key-insert, contains_key-remove,
}
use rust_p2p_filesystem.Networking.Messages.{Response}
use rust_p2p_filesystem.Networking.RequestMap.{
  RequestMap, add_request, take_request, contains_request, deliver, handle_response,
}

-- A response to a request that was recorded goes to the channel that was recorded with it.
pub handle_response-add_request :
    (response : Response) (sender : ℕ) (m : RequestMap)
    → (handle_response response (add_request response.request_id sender m)).1
      ≡ some (sender, response)
unfolding handle_response add_request contains_request take_request
handle_response-add_request response sender m =
    rw
      (
        contains_key-insert response.request_id response.request_id sender m.map,
        get-insert response.request_id response.request_id sender m.map,
        beq_refl response.request_id,
        deliver,
      )
      refl

-- The map after `handle_response`.
handle_response_map :
    (response : Response) (j : ℕ) (m : RequestMap)
    → contains_request j (handle_response response m).0
      ≡ (if response.request_id == j then false else contains_request j m)
unfolding handle_response contains_request take_request
handle_response_map response j m = elim (Bool-cases (contains_key response.request_id m.map)) [
  | inr e ↦ rw e (absent e)
  | inl e ↦ rw e (present (get response.request_id m.map))
]
  where
    absent :
        contains_key response.request_id m.map ≡ false
        → contains_key j m.map ≡ (if response.request_id == j then false else contains_key j m.map)
    absent e = elim (Bool-cases (response.request_id == j)) [
      | inl same ↦
          rw same (
            ap (λ i. contains_key i m.map) (sym ((nat_eq.beq_iff response.request_id j).0 same))
            ∙ e)
      | inr other ↦ rw other refl
    ]

    present :
        (taken : Option ℕ)
        → contains_key j
            (deliver response (record m { map = remove response.request_id m.map }, taken)).0.map
          ≡ (if response.request_id == j then false else contains_key j m.map)
    present none = unfold deliver in contains_key-remove response.request_id j m.map
    present (some sender) = unfold deliver in contains_key-remove response.request_id j m.map

-- What a response does to the pending requests: its own is pending no longer, every other one is
-- pending exactly if it was, and a second response with the same identifier is delivered to nobody.
pub handle_response_lem :
    (response again : Response) (m : RequestMap)
    → again.request_id ≡ response.request_id
    → (contains_request response.request_id (handle_response response m).0 ≡ false)
      × ((j : ℕ)
          → contains_request j (handle_response response m).0
            ≡ (if response.request_id == j then false else contains_request j m))
      × ((handle_response again (handle_response response m).0).1 ≡ none)
unfolding handle_response
handle_response_lem response again m same =
    let settled : contains_request response.request_id (handle_response response m).0 ≡ false =
      handle_response_map response response.request_id m
      ∙ ap (λ t. if t then false else contains_request response.request_id m)
          (beq_refl response.request_id) in
    (
      settled,
      λ j. handle_response_map response j m,
      rw
          (
            ap (λ i. contains_request i (handle_response response m).0) same ∙ settled,
            handle_response,
          )
          refl,
    )
