-- ===== src/Node/Requests.antt =====
-- `send_request_and_wait` and `ping` of src/core/node.rs. What other nodes and other tasks do while
-- a call waits is a parameter: the outcome of the wait, the pending requests and the world after it.
-- The lock of the routing table is tokio's `RwLock`, which is not reentrant: a call that wants it
-- while its own task holds it for writing waits for ever.
pub mod Pending
use rust_p2p_filesystem.Base.{ℕ, Bool, List, Option, none, some}
use rust_p2p_filesystem.Base.Outcome.{Result, ok, err, Task, done, panicked, blocked, ◌>>=◌}
use rust_p2p_filesystem.Key.{Key}
use rust_p2p_filesystem.Networking.NodeInfo.{NodeInfo}
use rust_p2p_filesystem.Networking.Messages.{
  Transport, Request, Response, RequestType, new_request, send_request,
}
use rust_p2p_filesystem.Networking.Messages
use rust_p2p_filesystem.Networking.RequestMap.{RequestMap, add_request, remove_request}
use rust_p2p_filesystem.Routing.KBucket.{
  NodeError, bad_response, response_timeout, unable_to_send, ping_missing_node,
  routing_table_failed,
}
use rust_p2p_filesystem.Routing.Table.{RoutingTable, RoutingTableError, get_nodeinfo}

-- What a oneshot receiver gives within the timeout.
pub data Wait : Type 0 where
  received : Response → Wait
  channel_closed timed_out : Wait

pub data Lock : Type 0 where
  free write_locked : Lock

-- The transport, new request identifiers and channels, and waiting; and what becomes of data for
-- an address and port, from the TCP connection on: true when it was written, false after an error,
-- and `blocked` where the other side lets neither of the two calls return. They have no timeout.
pub record Environment (W : Type 0) : Type 0 where
  pub transport : Transport
  pub draw_id : W → ℕ
  pub draw_channel : W → ℕ
  pub tcp_upload : ℕ → ℕ → List ℕ → Task Bool
  pub await : Request → RequestMap → W → Wait × RequestMap × W

module _ {W : Type 0} (env : Environment W) where
  abbrev pub Answer : Type 0
  Answer = Result NodeError Response × RequestMap × W

  unfoldable pub settle : ℕ → Wait × RequestMap × W → Answer
  unfolding remove_request
  settle request_id (received response, m, w) = (ok response, m, w)
  settle request_id (channel_closed, m, w) = (err bad_response, m, w)
  settle request_id (timed_out, m, w) = (err response_timeout, remove_request request_id m, w)

  unfoldable pub send_request_and_wait : Request → RequestMap → W → Answer
  unfolding settle add_request remove_request
  send_request_and_wait request m w =
      let m' = add_request request.request_id (env.draw_channel w) m in
      elim (send_request env.transport request) [
        | err _ ↦ (err unable_to_send, remove_request request.request_id m', w)
        | ok _ ↦ settle request.request_id (env.await request m' w)
      ]

  -- What `ping` makes of its look into the routing table.
  unfoldable pub ping_found :
      NodeInfo → RequestMap → W → Result RoutingTableError (Option NodeInfo) → Answer
  unfolding send_request_and_wait new_request
  ping_found this_node m w (err e) = (err routing_table_failed, m, w)
  ping_found this_node m w (ok none) = (err ping_missing_node, m, w)
  ping_found this_node m w (ok (some receiver_info)) =
      send_request_and_wait (new_request (env.draw_id w) RequestType.ping this_node receiver_info) m
        w

  unfoldable pub ping : Lock → NodeInfo → Key → RoutingTable → RequestMap → W → Task Answer
  unfolding ping_found
  ping write_locked this_node node_id t m w = blocked
  ping free this_node node_id t m w = do
    found ← get_nodeinfo node_id t
    done (ping_found this_node m w found)

  -- What a k-bucket sees of it.
  unfoldable pub outcome : Answer → Option NodeError
  outcome (ok _, m, w) = none
  outcome (err e, m, w) = some e

  -- `store_nodeinfo` is always called by a task that holds the lock of the table for writing, and
  -- the k-bucket pings through the same node.
  unfoldable pub ping_in_store :
      NodeInfo → RoutingTable → RequestMap → W → Key → Task (Option NodeError)
  unfolding ping outcome
  ping_in_store this_node t m w node_id = do
    answer ← ping write_locked this_node node_id t m w
    done (outcome answer)
