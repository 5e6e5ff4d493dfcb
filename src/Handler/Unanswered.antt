-- ===== src/Handler/Unanswered.antt =====
-- Which lookup requests of other nodes stay without a response (src/core/request_handler.rs).
use rust_p2p_filesystem.Base.{
  ℕ, ◌*◌, ◌<◌, ◌≤◌, ◌≡◌, refl, ap, false, List, [], Option, none, some, ◌==◌, arith, length,
  Bool-cases, inl, inr, ◌⊎◌, lt→ltb,
}
use rust_p2p_filesystem.Base.Outcome.{ok, err, done}
use rust_p2p_filesystem.Constants.{K}
use rust_p2p_filesystem.Key.{Key, IsKey, key_eq, key_beq_iff}
use rust_p2p_filesystem.Networking.NodeInfo.{NodeInfo}
use rust_p2p_filesystem.Networking.Messages.{
  Request, Response, ResponseType, new_response, SendError, too_long, serialization_failed,
  send_response, max_message_size, send_serialized,
}
use rust_p2p_filesystem.Node.Requests.{Environment}
use rust_p2p_filesystem.Routing.Table.{empty, get_n_closest, get_k_closest, get_all_nodeinfos}
use rust_p2p_filesystem.Routing.Table.Invariant.{IsTable}
use rust_p2p_filesystem.Routing.Table.Closest.{get_n_closest_lem, get_n_closest_own, IsSelection}
use rust_p2p_filesystem.Storage.FileSystem.{FileSystem}
use rust_p2p_filesystem.Storage.Shards.{is_chunk_already_stored}
use rust_p2p_filesystem.Handler.{
  NodeState, respond, reply_nodes, handle_find_node_message, handle_find_value_message,
}
use rust_p2p_filesystem.Handler.Progress.{new_nodes-some}

module _ (fs : FileSystem) {W : Type 0} (env : Environment W) where
  own_node_unanswered :
      (s : NodeState fs env) (request : Request)
      → IsKey s.table.id
      → handle_find_node_message fs env s.table.id s request ≡ done (s, [])
  unfolding handle_find_node_message get_k_closest
  own_node_unanswered s request v = rw (get_n_closest_own s.table K v) refl

  -- A node that stores no chunk under its own key, one of K bytes, answers neither a FIND_NODE nor
  -- a FIND_VALUE for that key: nothing is sent and the state stays.
  pub own_key_unanswered :
      (s : NodeState fs env) (request : Request)
      → IsKey s.table.id
      → is_chunk_already_stored s.table.id s.storage ≡ false
      → (handle_find_node_message fs env s.table.id s request ≡ done (s, []))
        × (handle_find_value_message fs env s.table.id s request ≡ done (s, []))
  unfolding handle_find_value_message
  own_key_unanswered s request v h =
      (own_node_unanswered s request v, rw h (own_node_unanswered s request v))

  -- What is documented of the serialisation: a contact takes the 62 characters of
  -- `{"id":"…","address":""}` with its key, and those of the address.
  abbrev pub IsJson : Type 0
  IsJson =
      (r : Response) (ns : List NodeInfo) (len : ℕ)
      → r.response_type ≡ ResponseType.nodes ns
      → env.transport.response_length r ≡ some len
      → 62 * length ns ≤ len

  send_long :
      (r : Response) (len : ℕ)
      → env.transport.response_length r ≡ some len
      → max_message_size < len
      → send_response env.transport r ≡ err too_long
  unfolding send_response send_serialized
  send_long r len e h = rw (e, lt→ltb max_message_size len h) refl

  send_none :
      (r : Response)
      → env.transport.response_length r ≡ none
      → send_response env.transport r ≡ err serialization_failed
  unfolding send_response send_serialized
  send_none r e = rw e refl

  respond_refused :
      (ty : ResponseType) (s : NodeState fs env) (request : Request) (e : SendError)
      → send_response env.transport (new_response ty s.info request.sender request.request_id)
        ≡ err e
      → respond fs env ty s request ≡ []
  unfolding respond
  respond_refused ty s request e h = rw (h, respond) refl

  respond_long :
      (ns : List NodeInfo) (s : NodeState fs env) (request : Request)
      → IsJson
      → 19 ≤ length ns
      → respond fs env (ResponseType.nodes ns) s request ≡ []
  respond_long ns s request json many = go (env.transport.response_length response) refl
    where
      response : Response
      response = new_response (ResponseType.nodes ns) s.info request.sender request.request_id

      has_type : response.response_type ≡ ResponseType.nodes ns
      has_type = unfold new_response in refl

      go :
          (o : Option ℕ)
          → env.transport.response_length response ≡ o
          → respond fs env (ResponseType.nodes ns) s request ≡ []
      go none e =
          respond_refused (ResponseType.nodes ns) s request serialization_failed
            (send_none response e)
      go (some len) e =
          respond_refused (ResponseType.nodes ns) s request too_long
            (send_long response len e (omega (arith, json response ns len has_type e)))

  -- If each contact takes at least 62 characters of a serialised response, a node with a
  -- well-formed table of 19 contacts or more answers no FIND_NODE request for a key of K bytes: the
  -- list of contacts is longer than the dispatcher lets through.
  pub many_contacts_unanswered :
      (target : Key) (s : NodeState fs env) (request : Request)
      → IsJson
      → IsTable s.table
      → IsKey target
      → 19 ≤ length (get_all_nodeinfos s.table)
      → handle_find_node_message fs env target s request ≡ done (s, [])
  many_contacts_unanswered target s request json v k many =
      elim (Bool-cases (target == s.table.id)) [
        | inl same ↦
            rw ((key_beq_iff target s.table.id).0 same) (own_node_unanswered s request v.own)
        | inr other ↦ found (
            get_n_closest_lem s.table target K v k
              (λ e. ground (arith, key_beq_iff target s.table.id)) (omega arith))
      ]
    where
      found :
          ((get_all_nodeinfos s.table ≡ []) × (get_n_closest s.table target K ≡ done (err empty)))
            ⊎ ((out : List NodeInfo) × (get_n_closest s.table target K ≡ done (ok out))
                × (0 < length out)
                × IsSelection target K (get_all_nodeinfos s.table) out)
          → handle_find_node_message fs env target s request ≡ done (s, [])
      found (inl h) = absurd (omega (arith, ap length h.0))
      found (inr h) =
          unfold handle_find_node_message get_k_closest reply_nodes in
          rw
            (
              h.1,
              new_nodes-some h.0 (omega (arith, h.3.count)),
              respond_long h.0 s request json (omega (arith, h.3.count)),
            )
            refl
