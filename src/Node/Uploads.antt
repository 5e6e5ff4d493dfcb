-- ===== src/Node/Uploads.antt =====
-- `upload_file` of src/core/node.rs and its helpers. `ask` stands for `send_request_and_wait` of a
-- new request to a node, as in the lookups, and `connect` for a TCP connection to an address and a
-- port to which data is written: false where that fails. The random bytes come from the world.
pub mod Chosen
pub mod Refused
pub mod File
pub mod Sent
use rust_p2p_filesystem.Base.{
  ℕ, zero, suc, Bool, true, false, ◌||◌, not, List, [], ◌∷◌, ◌++◌, Option, none, some,
  if◌then◌else◌, is_empty, length, ltb, take,
}
use rust_p2p_filesystem.Base.Outcome.{Result, ok, err, Task, done, panicked, blocked, ◌>>=◌}
use rust_p2p_filesystem.Base.Sort.{sort}
use rust_p2p_filesystem.Constants.{alpha, chunk_data_size_kb}
use rust_p2p_filesystem.Key.{Key, distance}
use rust_p2p_filesystem.Key.Order.{bytes_le}
use rust_p2p_filesystem.Networking.NodeInfo.{NodeInfo}
use rust_p2p_filesystem.Networking.Messages.{Response, RequestType, ResponseType}
use rust_p2p_filesystem.Routing.KBucket.{NodeError}
use rust_p2p_filesystem.Routing.Table.{RoutingTable, Ping}
use rust_p2p_filesystem.Node.Calls.{CallError, find_node}
use rust_p2p_filesystem.Storage.Files.{FileManager, add_file_uploaded_entry}
use rust_p2p_filesystem.Sharding.Encryption.{Cipher}
use rust_p2p_filesystem.Sharding.Metadata.{ShardingError, Chunk, FileMetadata}
use rust_p2p_filesystem.Sharding.Uploader
use rust_p2p_filesystem.Sharding.Uploader.{
  Reader, Paths, FileUploader, Draw, Next, get_next_chunk_encrypt, get_metadata,
}

pub data UploadError : Type 0 where
  nonexistent_file no_responsive_nodes no_nodes too_many_nodes no_ports not_sent : UploadError
  finding_failed : CallError → UploadError
  sharding_failed : ShardingError → UploadError

-- What is kept of the answer to a STORE: only `StoreOK`.
unfoldable pub read_store_answer : Result NodeError Response → Option Response
read_store_answer (err _) = none
read_store_answer (ok response) = elim response.response_type [
  | ResponseType.store_ok ↦ some response
  | _ ↦ none
]

unfoldable pub read_port_answer : Result NodeError Response → Option Response
read_port_answer (err _) = none
read_port_answer (ok response) = elim response.response_type [
  | ResponseType.port_ok _ ↦ some response
  | _ ↦ none
]

-- The order of the `sort_by` in `resolve_alpha_closest_nodes_to_key`.
abbrev pub nearer_sender : Key → Response → Response → Bool
nearer_sender chunk_id a b =
    bytes_le (distance a.sender.id chunk_id) (distance b.sender.id chunk_id)

unfoldable pub push_some : Option Response → List Response → List Response
push_some none rs = rs
push_some (some r) rs = r ∷ rs

module _ {W : Type 0} (ask : NodeInfo → RequestType → W → Result NodeError Response × W) where
  unfoldable pub send_initial_store_request : Key → NodeInfo → W → Option Response × W
  unfolding read_store_answer
  send_initial_store_request file_id node_info w =
      let (answer, w') = ask node_info (RequestType.store file_id) w in
      (read_store_answer answer, w')

  unfoldable pub send_get_port_request : Key → NodeInfo → W → Option Response × W
  unfolding read_port_answer
  send_get_port_request key node_info w =
      let (answer, w') = ask node_info (RequestType.get_port key) w in (read_port_answer answer, w')

  -- `join_all` of the requests, flattened.
  unfoldable pub ask_stores : Key → List NodeInfo → W → List Response × W
  unfolding send_initial_store_request push_some
  ask_stores file_id [] w = ([], w)
  ask_stores file_id (n ∷ ns) w =
      let (answer, w') = send_initial_store_request file_id n w in
      let (answers, w'') = ask_stores file_id ns w' in (push_some answer answers, w'')

  unfoldable pub ask_ports : Key → List Response → W → List Response × W
  unfolding send_get_port_request push_some
  ask_ports key [] w = ([], w)
  ask_ports key (r ∷ rs) w =
      let (answer, w') = send_get_port_request key r.sender w in
      let (answers, w'') = ask_ports key rs w' in (push_some answer answers, w'')

  -- The nodes that are ready, nearest first, at most `alpha`.
  unfoldable pub choose_ready : Key → List Response → Result UploadError (List Response)
  unfolding sort take
  choose_ready chunk_id responsive_nodes =
      if is_empty responsive_nodes
      then err no_responsive_nodes
      else ok (take alpha (sort (nearer_sender chunk_id) responsive_nodes))

  -- What a call leaves behind: the table, its result and the world. None is spent fuel.
  abbrev pub Left : Type 0 → Type 0
  Left A = Option (RoutingTable × Result UploadError A × W)

  unfoldable pub resolve_among :
      Key → Option (RoutingTable × Result CallError (List NodeInfo) × W) → Left (List Response)
  unfolding ask_stores choose_ready
  resolve_among chunk_id none = none
  resolve_among chunk_id (some (t, err e, w)) = some (t, err (finding_failed e), w)
  resolve_among chunk_id (some (t, ok closest_nodes, w)) =
      let (responsive_nodes, w') = ask_stores chunk_id closest_nodes w in
      some (t, choose_ready chunk_id responsive_nodes, w')

  unfoldable pub resolve_alpha_closest_nodes_to_key :
      ℕ → ℕ → Ping → NodeInfo → Key → RoutingTable → W → Task (Left (List Response))
  unfolding find_node resolve_among
  resolve_alpha_closest_nodes_to_key fuel now ping this_node chunk_id t w = do
    found ← find_node ask fuel now ping this_node chunk_id t w
    done (resolve_among chunk_id found)

  unfoldable pub get_ports_for_nodes :
      List Response → Key → W → Result UploadError (List Response) × W
  unfolding ask_ports
  get_ports_for_nodes nodes key w =
      let (responsive_nodes, w') = ask_ports key nodes w in
      if is_empty nodes
      then (err no_nodes, w)
      else if ltb alpha (length nodes)
      then (err too_many_nodes, w)
      else if is_empty responsive_nodes
      then (err no_ports, w')
      else (ok responsive_nodes, w')

  module _ (connect : ℕ → ℕ → List ℕ → W → Bool × W) where
    unfoldable pub send_chunk_over_tcp : Response → Chunk → W → Bool × W
    send_chunk_over_tcp response chunk w = elim response.response_type [
      | ResponseType.port_ok port ↦ connect response.sender.address.ip port chunk.chunk_data w
      | _ ↦ (false, w)
    ]

    -- Whether any transfer succeeds; all are tried.
    unfoldable pub send_to_each : List Response → Chunk → W → Bool × W
    unfolding send_chunk_over_tcp
    send_to_each [] chunk w = (false, w)
    send_to_each (r ∷ rs) chunk w =
        let (sent, w') = send_chunk_over_tcp r chunk w in
        let (others, w'') = send_to_each rs chunk w' in (sent || others, w'')

    unfoldable pub store_chunk : List Response → Chunk → W → Result UploadError (Unit {0}) × W
    unfolding send_to_each
    store_chunk ports chunk w =
        let (sent, w') = send_to_each ports chunk w in (if sent then ok tt else err not_sent, w')

    unfoldable pub store_at_ports :
        Chunk → Result UploadError (List Response) × W → Result UploadError (Unit {0}) × W
    unfolding store_chunk
    store_at_ports chunk (err e, w) = (err e, w)
    store_at_ports chunk (ok ports, w) = store_chunk ports chunk w

    -- The part of a round of the loop that follows the choice of the nodes.
    unfoldable pub transfer : Chunk → List Response → W → Result UploadError (Unit {0}) × W
    unfolding get_ports_for_nodes store_at_ports
    transfer chunk nodes w = store_at_ports chunk (get_ports_for_nodes nodes chunk.hash w)

    unfoldable pub transfer_to : Chunk → Left (List Response) → Left Unit
    unfolding transfer
    transfer_to chunk none = none
    transfer_to chunk (some (t, err e, w)) = some (t, err e, w)
    transfer_to chunk (some (t, ok nodes, w)) =
        let (r, w') = transfer chunk nodes w in some (t, r, w')

    -- A round of the loop of `upload_file` that has a chunk.
    unfoldable pub upload_chunk :
        ℕ → ℕ → Ping → NodeInfo → Chunk → RoutingTable → W → Task (Left Unit)
    unfolding resolve_alpha_closest_nodes_to_key transfer_to
    upload_chunk fuel now ping this_node chunk t w = do
      chosen ← resolve_alpha_closest_nodes_to_key fuel now ping this_node chunk.hash t w
      done (transfer_to chunk chosen)
