-- ===== src/Networking/Messages.antt =====
-- src/networking/messages.rs and the dispatcher, src/networking/message_dispatcher.rs. Request
-- identifiers are numbers; the length of a serialised message (crate serde_json) and the sending
-- itself are parameters.
use rust_p2p_filesystem.Base.{
  ℕ, ◌+◌, ◌*◌, Bool, List, Option, none, some, ltb, if◌then◌else◌, length, ◌==◌,
}
use rust_p2p_filesystem.Base.Outcome.{Result, ok, err}
use rust_p2p_filesystem.Constants.{K}
use rust_p2p_filesystem.Key.{Key}
use rust_p2p_filesystem.Networking.NodeInfo.{NodeInfo, node_eq}

pub data RequestType : Type 0 where
  ping : RequestType
  find_node find_value store get_port : Key → RequestType
  get_value : Key → ℕ → RequestType

pub data ResponseType : Type 0 where
  pong : ResponseType
  nodes : List NodeInfo → ResponseType
  store_chunk_updated store_ok : ResponseType
  port_ok : ℕ → ResponseType
  has_value : Key → ResponseType

pub record Request : Type 0 where
  pub request_type : RequestType
  pub sender : NodeInfo
  pub receiver : NodeInfo
  pub request_id : ℕ

pub record Response : Type 0 where
  pub response_type : ResponseType
  pub sender : NodeInfo
  pub receiver : NodeInfo
  pub request_id : ℕ

-- `size_of::<SocketAddr>()` is 32.
abbrev pub max_nodeinfo_serialized_size : ℕ
max_nodeinfo_serialized_size = K + 32

abbrev pub overhead_size : ℕ
overhead_size = 128

abbrev pub max_message_size : ℕ
max_message_size = overhead_size + K * max_nodeinfo_serialized_size

-- None is the error of more than `K` nodes.
unfoldable pub new_nodes : List NodeInfo → Option ResponseType
new_nodes ns = if ltb K (length ns) then none else some (nodes ns)

-- The identifier is drawn at random by the source.
unfoldable pub new_request : ℕ → RequestType → NodeInfo → NodeInfo → Request
new_request id request_type sender receiver = record {
  request_type = request_type;
  sender = sender;
  receiver = receiver;
  request_id = id;
}

unfoldable pub new_response : ResponseType → NodeInfo → NodeInfo → ℕ → Response
new_response response_type sender receiver request_id = record {
  response_type = response_type;
  sender = sender;
  receiver = receiver;
  request_id = request_id;
}

pub data SendError : Type 0 where
  message_to_self serialization_failed too_long socket_failed : SendError

-- What the dispatcher relies on: the serialised length, none if that fails, and whether the socket
-- takes a message.
pub record Transport : Type 0 where
  pub request_length : Request → Option ℕ
  pub response_length : Response → Option ℕ
  pub takes_request : Request → Bool
  pub takes_response : Response → Bool

-- The checks on a serialised message, and its way to the socket.
unfoldable pub send_serialized : Option ℕ → Bool → Result SendError ℕ
send_serialized none taken = err serialization_failed
send_serialized (some len) taken =
    if ltb max_message_size len then err too_long else if taken then ok len else err socket_failed

unfoldable pub send_request : Transport → Request → Result SendError ℕ
unfolding send_serialized
send_request net request =
    if request.receiver == request.sender
    then err message_to_self
    else send_serialized (net.request_length request) (net.takes_request request)

unfoldable pub send_response : Transport → Response → Result SendError ℕ
unfolding send_serialized
send_response net response =
    send_serialized (net.response_length response) (net.takes_response response)
