-- ===== src/Handler/Worker.antt =====
-- A worker of `start_listening` of src/core/node.rs: what becomes of a message from the queue.
-- Parsing (crate serde_json) is a parameter. A call that waits for a response and gets it here goes
-- on by itself, and is no part of this.
pub mod Invariant
use rust_p2p_filesystem.Base.{ℕ, List, [], ◌∷◌, ◌++◌, Option, none, some}
use rust_p2p_filesystem.Base.Outcome.{Task, done, panicked, blocked, ◌>>=◌}
use rust_p2p_filesystem.Networking.Messages.{Request, Response}
use rust_p2p_filesystem.Networking.RequestMap.{handle_response}
use rust_p2p_filesystem.Node.Requests.{Environment}
use rust_p2p_filesystem.Storage.FileSystem.{FileSystem}
use rust_p2p_filesystem.Handler.{NodeState, Effect, Handled, handle_received_request}

pub record Parser : Type 0 where
  pub response_of : List ℕ → Option Response
  pub request_of : List ℕ → Option Request

-- What the system gives while a message is worked on: the clock, the port of a new listener, and
-- the world of the calls.
pub record Moment (W : Type 0) : Type 0 where
  pub now : ℕ
  pub listener : Option ℕ
  pub world : W

module _ (fs : FileSystem) {W : Type 0} (env : Environment W) (parser : Parser) where
  unfoldable pub process_request :
      Moment W → Option Request → NodeState fs env → Task (Handled fs env)
  unfolding handle_received_request
  process_request m none s = done (s, [])
  process_request m (some request) s =
      handle_received_request fs env m.now m.listener m.world request s

  -- A message is tried as a response first.
  unfoldable pub process_parsed :
      Moment W → List ℕ → Option Response → NodeState fs env → Task (Handled fs env)
  unfolding process_request handle_response
  process_parsed m message (some response) s =
      done (record s { pending = (handle_response response s.pending).0 }, [])
  process_parsed m message none s = process_request m (parser.request_of message) s

  unfoldable pub process_message : Moment W → List ℕ → NodeState fs env → Task (Handled fs env)
  unfolding process_parsed
  process_message m message s = process_parsed m message (parser.response_of message) s

  -- The messages of the queue, one after the other.
  unfoldable pub process_queue : List (Moment W × List ℕ) → NodeState fs env → Task (Handled fs env)
  unfolding process_message
  process_queue [] s = done (s, [])
  process_queue ((m, message) ∷ queue) s = do
    first ← process_message m message s
    others ← process_queue queue first.0
    done (others.0, first.1 ++ others.1)
