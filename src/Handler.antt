-- ===== src/Handler.antt =====
-- src/core/request_handler.rs: what a node does with a request. A handler returns the new state and
-- the effects that other nodes see, in order; a response that the dispatcher refuses is no effect.
pub mod Replies
pub mod Progress
pub mod Unanswered
pub mod Worker
use rust_p2p_filesystem.Base.{
  ℕ, Bool, true, false, not, List, [], ◌∷◌, Option, none, some, if◌then◌else◌, is_empty, ◌==◌,
}
use rust_p2p_filesystem.Base.Outcome.{Result, ok, err, Task, done, panicked, blocked, ◌>>=◌}
use rust_p2p_filesystem.Key.{Key, key_eq}
use rust_p2p_filesystem.Networking.NodeInfo.{NodeInfo}
use rust_p2p_filesystem.Networking.Messages.{
  Request, Response, ResponseType, RequestType, new_nodes, new_response, send_response,
}
use rust_p2p_filesystem.Networking.RequestMap.{RequestMap}
use rust_p2p_filesystem.Node.Requests.{Environment, ping_in_store}
use rust_p2p_filesystem.Routing.Table.{RoutingTable, get_k_closest, store_nodeinfo}
use rust_p2p_filesystem.Storage.FileSystem.{FileSystem}
use rust_p2p_filesystem.Storage.Shards.{
  ShardStorageManager, is_chunk_already_stored, update_chunk_upload_time, add_active_tcp_connection,
  read_chunk, store_chunk_for_known_peer,
}

pub data Effect : Type 0 where
  -- A response that was sent.
  sent : Response → Effect
  -- Data that was written to the address and port of a TCP connection.
  uploaded : ℕ → ℕ → List ℕ → Effect
  -- A task now waits for data on this port.
  listens : ℕ → Effect

module _ (fs : FileSystem) {W : Type 0} (env : Environment W) where
  pub record NodeState : Type 0 where
    pub info : NodeInfo
    pub table : RoutingTable
    pub pending : RequestMap
    pub storage : ShardStorageManager
    pub disk : fs.Disk

  abbrev pub Handled : Type 0
  Handled = NodeState × List Effect

  -- An error of the dispatcher is only logged.
  unfoldable pub respond : ResponseType → NodeState → Request → List Effect
  unfolding new_response send_response
  respond response_type s request =
      let response = new_response response_type s.info request.sender request.request_id in
      elim (send_response env.transport response) [ ok _ ↦ sent response ∷ [] | err _ ↦ [] ]

  unfoldable pub handle_ping_message : NodeState → Request → Handled
  unfolding respond
  handle_ping_message s request = (s, respond ResponseType.pong s request)

  unfoldable pub reply_nodes : NodeState → Request → Option ResponseType → Task Handled
  unfolding respond
  reply_nodes s request none = panicked
  reply_nodes s request (some response_type) = done (s, respond response_type s request)

  unfoldable pub handle_find_node_message : Key → NodeState → Request → Task Handled
  unfolding get_k_closest reply_nodes new_nodes
  handle_find_node_message target s request = do
    closest_nodes ← get_k_closest s.table target
    elim closest_nodes [ err _ ↦ done (s, []) | ok nodes ↦ reply_nodes s request (new_nodes nodes) ]

  unfoldable pub handle_find_value_message : Key → NodeState → Request → Task Handled
  unfolding is_chunk_already_stored handle_find_node_message respond
  handle_find_value_message target s request =
      if not (is_chunk_already_stored target s.storage)
      then handle_find_node_message target s request
      else done (s, respond (ResponseType.has_value target) s request)

  -- After the read; an error of the connection is only logged.
  unfoldable pub connect_and_write : ℕ → NodeState → Request → List ℕ → Task Handled
  connect_and_write port s request bytes = do
    written ← env.tcp_upload request.sender.address.ip port bytes
    done (s, if written then uploaded request.sender.address.ip port bytes ∷ [] else [])

  unfoldable pub handle_get_value : Key → ℕ → NodeState → Request → Task Handled
  unfolding read_chunk connect_and_write
  handle_get_value chunk_id port s request = elim (read_chunk fs chunk_id s.disk) [
    | ok bytes ↦ connect_and_write port s request bytes
    | err _ ↦ done (s, [])
  ]

  unfoldable pub handle_store_message : ℕ → Key → NodeState → Request → Handled
  unfolding is_chunk_already_stored update_chunk_upload_time respond
  handle_store_message now file_id s request =
      if not (is_chunk_already_stored file_id s.storage)
      then (s, respond ResponseType.store_ok s request)
      else (
        record s { storage = (update_chunk_upload_time now file_id s.storage).0 },
        respond ResponseType.store_chunk_updated s request,
      )

  -- After the entry for the port: only a response that was sent is waited for.
  unfoldable pub offer_port : ℕ → NodeState → Request → Handled
  unfolding respond
  offer_port port s request =
      let effects = respond (ResponseType.port_ok port) s request in
      if is_empty effects then (s, []) else (s, listens port ∷ effects)

  -- The port of the new listener, none if there is none. An older entry for the port ends the
  -- handler, but has been replaced by then.
  unfoldable pub handle_get_port_message : Option ℕ → Key → NodeState → Request → Handled
  unfolding add_active_tcp_connection offer_port
  handle_get_port_message none file_id s request = (s, [])
  handle_get_port_message (some port) file_id s request =
      let (storage, insert_error) =
        add_active_tcp_connection port request.sender file_id s.storage in
      elim insert_error [
        | some _ ↦ (record s { storage = storage }, [])
        | none ↦ offer_port port (record s { storage = storage }) request
      ]

  -- The data of a connection that was waited for.
  unfoldable pub handle_tcp_upload : ℕ → List ℕ → ℕ → NodeState → NodeState
  unfolding store_chunk_for_known_peer
  handle_tcp_upload now bytes port s =
      let (storage, disk, r) = store_chunk_for_known_peer fs now bytes port s.storage s.disk in
      record s { storage = storage; disk = disk }

  -- An error is only logged.
  unfoldable pub record_possible_neighbour : W → NodeInfo → NodeState → Task NodeState
  unfolding store_nodeinfo ping_in_store
  record_possible_neighbour w node s = do
    stored ← store_nodeinfo (ping_in_store env s.info s.table s.pending w) node s.table
    done (record s { table = stored.0 })

  -- The clock and the port of a new listener are what the system gives this request.
  unfoldable pub dispatch : ℕ → Option ℕ → RequestType → Request → NodeState → Task Handled
  unfolding handle_ping_message handle_find_node_message handle_store_message
      handle_get_port_message handle_find_value_message handle_get_value
  dispatch now listener RequestType.ping request s = done (handle_ping_message s request)
  dispatch now listener (RequestType.find_node node_id) request s =
      handle_find_node_message node_id s request
  dispatch now listener (RequestType.store chunk_id) request s =
      done (handle_store_message now chunk_id s request)
  dispatch now listener (RequestType.get_port chunk_id) request s =
      done (handle_get_port_message listener chunk_id s request)
  dispatch now listener (RequestType.find_value chunk_id) request s =
      handle_find_value_message chunk_id s request
  dispatch now listener (RequestType.get_value chunk_id port) request s =
      handle_get_value chunk_id port s request

  unfoldable pub handle_received_request : ℕ → Option ℕ → W → Request → NodeState → Task Handled
  unfolding record_possible_neighbour dispatch
  handle_received_request now listener w request s =
      if not (request.receiver.id == s.info.id) then done (s, []) else (do
        s' ← record_possible_neighbour w request.sender s
        dispatch now listener request.request_type request s')
