-- ===== src/Handler/Replies.antt =====
-- Whom the responses of src/core/request_handler.rs go to, in whose name and for which request.
use rust_p2p_filesystem.Base.{
  ℕ, ◌≡◌, refl, ◌≢◌, Bool, true, false, not, List, [], ◌∷◌, Option, none, some, if◌then◌else◌,
  is_empty, ◌==◌, All, arith, Bool-cases, inl, inr,
}
use rust_p2p_filesystem.Base.Outcome.{Result, ok, err, Task, done, panicked, blocked, ◌>>=◌}
use rust_p2p_filesystem.Key.{Key, key_eq, key_beq_iff}
use rust_p2p_filesystem.Networking.NodeInfo.{NodeInfo}
use rust_p2p_filesystem.Networking.Messages.{
  Request, Response, ResponseType, RequestType, new_nodes, new_response, SendError, send_response,
}
use rust_p2p_filesystem.Node.Requests.{Environment, ping_in_store}
use rust_p2p_filesystem.Routing.Table.{
  RoutingTable, RoutingTableError, get_k_closest, store_nodeinfo,
}
use rust_p2p_filesystem.Storage.FileSystem.{FileSystem}
use rust_p2p_filesystem.Storage.Shards.{
  ShardStorageError, is_chunk_already_stored, read_chunk, update_chunk_upload_time,
  add_active_tcp_connection,
}
use rust_p2p_filesystem.Storage.Transfers.{DataTransfer}
use rust_p2p_filesystem.Handler.{
  Effect, sent, uploaded, listens, NodeState, Handled, respond, handle_ping_message, reply_nodes,
  handle_find_node_message, handle_find_value_message, handle_get_value, connect_and_write,
  handle_store_message, offer_port, handle_get_port_message, record_possible_neighbour, dispatch,
  handle_received_request,
}

-- A response for the node that asked, from this node, under the identifier of the request; data
-- goes to the address of the node that asked.
abbrev pub Answers : NodeInfo → Request → Effect → Type 0
Answers info request (sent response) =
    (response.sender ≡ info)
    × (response.receiver ≡ request.sender)
    × (response.request_id ≡ request.request_id)
Answers info request (uploaded ip port bytes) = ip ≡ request.sender.address.ip
Answers info request (listens port) = Unit {0}

module _ (fs : FileSystem) {W : Type 0} (env : Environment W) where
  -- The effects of a handler that returns; the node itself stays the same.
  abbrev pub AllAnswer : NodeInfo → Request → Task (Handled fs env) → Type 0
  AllAnswer info request (done (s, effects)) = (s.info ≡ info) × All (Answers info request) effects
  AllAnswer info request panicked = Unit {0}
  AllAnswer info request blocked = Unit {0}

  respond-Answers :
      (ty : ResponseType) (s : NodeState fs env) (request : Request)
      → All (Answers s.info request) (respond fs env ty s request)
  unfolding respond new_response
  respond-Answers ty s request =
      go (send_response env.transport (new_response ty s.info request.sender request.request_id))
    where
      response : Response
      response = new_response ty s.info request.sender request.request_id

      go :
          (r : Result SendError ℕ)
          → All (Answers s.info request) (elim r [ ok _ ↦ sent response ∷ [] | err _ ↦ [] ])
      go (ok _) = ((refl, refl, refl), tt)
      go (err _) = tt

  find_node-Answers :
      (target : Key) (s : NodeState fs env) (request : Request)
      → AllAnswer s.info request (handle_find_node_message fs env target s request)
  unfolding handle_find_node_message reply_nodes
  find_node-Answers target s request = go (get_k_closest s.table target)
    where
      reply :
          (ty : Option ResponseType) → AllAnswer s.info request (reply_nodes fs env s request ty)
      reply none = tt
      reply (some ty) = (refl, respond-Answers ty s request)

      go :
          (t : Task (Result RoutingTableError (List NodeInfo)))
          → AllAnswer s.info request (
              t >>= λ closest. elim closest [
                | err _ ↦ done (s, [])
                | ok nodes ↦ reply_nodes fs env s request (new_nodes nodes)
              ])
      go (done (ok nodes)) = reply (new_nodes nodes)
      go (done (err e)) = (refl, tt)
      go panicked = tt
      go blocked = tt

  find_value-Answers :
      (target : Key) (s : NodeState fs env) (request : Request)
      → AllAnswer s.info request (handle_find_value_message fs env target s request)
  unfolding handle_find_value_message
  find_value-Answers target s request = go (is_chunk_already_stored target s.storage)
    where
      go :
          (b : Bool)
          → AllAnswer s.info request (
              if not b
              then handle_find_node_message fs env target s request
              else done (s, respond fs env (ResponseType.has_value target) s request))
      go true = (refl, respond-Answers (ResponseType.has_value target) s request)
      go false = find_node-Answers target s request

  -- `connect_and_write`, for what the connection does.
  written-Answers :
      (port : ℕ) (s : NodeState fs env) (request : Request) (bytes : List ℕ) (upload : Task Bool)
      → AllAnswer s.info request (do
        written ← upload
        done (s, if written then uploaded request.sender.address.ip port bytes ∷ [] else []))
  written-Answers port s request bytes (done true) = (refl, (refl, tt))
  written-Answers port s request bytes (done false) = (refl, tt)
  written-Answers port s request bytes panicked = tt
  written-Answers port s request bytes blocked = tt

  get_value-Answers :
      (chunk_id : Key) (port : ℕ) (s : NodeState fs env) (request : Request)
      → AllAnswer s.info request (handle_get_value fs env chunk_id port s request)
  unfolding handle_get_value connect_and_write
  get_value-Answers chunk_id port s request = go (read_chunk fs chunk_id s.disk)
    where
      go :
          (r : Result ShardStorageError (List ℕ))
          → AllAnswer s.info request (elim r [
            | ok bytes ↦ connect_and_write fs env port s request bytes
            | err _ ↦ done (s, [])
          ])
      go (ok bytes) =
          written-Answers port s request bytes (env.tcp_upload request.sender.address.ip port bytes)
      go (err e) = (refl, tt)

  store-Answers :
      (now : ℕ) (id : Key) (s : NodeState fs env) (request : Request)
      → AllAnswer s.info request (done (handle_store_message fs env now id s request))
  unfolding handle_store_message
  store-Answers now id s request = go (is_chunk_already_stored id s.storage)
    where
      go :
          (b : Bool)
          → AllAnswer s.info request (
              done (
                if not b then (s, respond fs env ResponseType.store_ok s request) else (
                  record s { storage = (update_chunk_upload_time now id s.storage).0 },
                  respond fs env ResponseType.store_chunk_updated s request,
                )))
      go true = (refl, respond-Answers ResponseType.store_chunk_updated s request)
      go false = (refl, respond-Answers ResponseType.store_ok s request)

  get_port-Answers :
      (listener : Option ℕ) (id : Key) (s : NodeState fs env) (request : Request)
      → AllAnswer s.info request (done (handle_get_port_message fs env listener id s request))
  unfolding handle_get_port_message offer_port
  get_port-Answers none id s request = (refl, tt)
  get_port-Answers (some port) id s request =
      go (add_active_tcp_connection port request.sender id s.storage).1
    where
      s' : NodeState fs env
      s' = record s { storage = (add_active_tcp_connection port request.sender id s.storage).0 }

      offered :
          (es : List Effect)
          → All (Answers s.info request) es
          → AllAnswer s.info request
              (done (if is_empty es then (s', []) else (s', listens port ∷ es)))
      offered [] h = (refl, tt)
      offered (e ∷ es) h = (refl, (tt, h))

      go :
          (old : Option DataTransfer)
          → AllAnswer s.info request
              (done (elim old [ some _ ↦ (s', []) | none ↦ offer_port fs env port s' request ]))
      go (some _) = (refl, tt)
      go none =
          offered (respond fs env (ResponseType.port_ok port) s' request)
            (respond-Answers (ResponseType.port_ok port) s' request)

  dispatch-Answers :
      (now : ℕ) (listener : Option ℕ) (ty : RequestType) (request : Request) (s : NodeState fs env)
      → AllAnswer s.info request (dispatch fs env now listener ty request s)
  unfolding dispatch handle_ping_message
  dispatch-Answers now listener RequestType.ping request s =
      (refl, respond-Answers ResponseType.pong s request)
  dispatch-Answers now listener (RequestType.find_node id) request s =
      find_node-Answers id s request
  dispatch-Answers now listener (RequestType.store id) request s = store-Answers now id s request
  dispatch-Answers now listener (RequestType.get_port id) request s =
      get_port-Answers listener id s request
  dispatch-Answers now listener (RequestType.find_value id) request s =
      find_value-Answers id s request
  dispatch-Answers now listener (RequestType.get_value id port) request s =
      get_value-Answers id port s request

  -- Whatever the request and the state, if the handling of a request returns, it keeps the node's
  -- identity, and all responses that it sends go to the node that asked, in the handling node's own
  -- name and under the identifier of the request.
  pub handle_received_request-Answers :
      (now : ℕ) (listener : Option ℕ) (w : W) (request : Request) (s : NodeState fs env)
      → AllAnswer s.info request (handle_received_request fs env now listener w request s)
  unfolding handle_received_request record_possible_neighbour
  handle_received_request-Answers now listener w request s =
      elim (Bool-cases (request.receiver.id == s.info.id)) [
        | inl h ↦
            rw (h, handle_received_request)
              (recorded (
                store_nodeinfo (ping_in_store env s.info s.table s.pending w) request.sender
                  s.table))
        | inr h ↦ rw (h, handle_received_request) (refl, tt)
      ]
    where
      recorded :
          (t : Task (RoutingTable × Result RoutingTableError (Unit {0})))
          → AllAnswer s.info request (
              (t >>= λ stored. done (record s { table = stored.0 })) >>= λ s'.
              dispatch fs env now listener request.request_type request s')
      recorded (done stored) =
          dispatch-Answers now listener request.request_type request (record s { table = stored.0 })
      recorded panicked = tt
      recorded blocked = tt

  -- A request that is meant for another node is dropped: the state stays and nothing is sent.
  pub handle_received_request_other :
      (now : ℕ) (listener : Option ℕ) (w : W) (request : Request) (s : NodeState fs env)
      → request.receiver.id ≢ s.info.id
      → handle_received_request fs env now listener w request s ≡ done (s, [])
  unfolding handle_received_request
  handle_received_request_other now listener w request s ne =
      let other : (request.receiver.id == s.info.id) ≡ false =
        ground (arith, key_beq_iff request.receiver.id s.info.id) in
      rw (other, handle_received_request) refl
