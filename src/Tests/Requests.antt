-- ===== src/Tests/Requests.antt =====
-- The theorems about pending requests at concrete requests.
use rust_p2p_filesystem.Base.{
  ℕ, ◌≡◌, ◌≢◌, refl, sym, ◌∙◌, Bool, true, false, List, [], ◌∷◌, Option, none, some, if◌then◌else◌,
  ◌==◌, nat_eq,
}
use rust_p2p_filesystem.Base
use rust_p2p_filesystem.Base.Outcome.{ok, err}
use rust_p2p_filesystem.Key
use rust_p2p_filesystem.Networking.NodeInfo
use rust_p2p_filesystem.Networking.Messages.{Request, Response, RequestType, ResponseType}
use rust_p2p_filesystem.Networking.Messages
use rust_p2p_filesystem.Networking.RequestMap.{RequestMap, contains_request, handle_response}
use rust_p2p_filesystem.Networking.RequestMap.Delivery.{handle_response_lem}
use rust_p2p_filesystem.Routing.KBucket.{bad_response, response_timeout}
use rust_p2p_filesystem.Node.Requests.{send_request_and_wait}
use rust_p2p_filesystem.Node.Requests.Pending.{send_request_and_wait-settled}
use rust_p2p_filesystem.Tests.Data.{contact, env, request}

abbrev pong : Response
pong = record {
  response_type = ResponseType.pong;
  sender = contact 0;
  receiver = contact 128;
  request_id = 5;
}

-- Two requests wait.
abbrev waiting : RequestMap
waiting = record { map = (5, 100) ∷ (6, 101) ∷ [] }

handle_response_lem_example :
    (contains_request 5 (handle_response pong waiting).0 ≡ false)
    × ((j : ℕ)
        → contains_request j (handle_response pong waiting).0
          ≡ (if 5 == j then false else contains_request j waiting))
    × ((handle_response pong (handle_response pong waiting).0).1 ≡ none)
handle_response_lem_example = handle_response_lem pong pong waiting refl

abbrev ping_request : Request
ping_request = request RequestType.ping

timed : (send_request_and_wait env ping_request waiting tt).0 ≡ err response_timeout
unfolding send_request_and_wait Messages.send_request NodeInfo.node_beq Key.key_beq Base.list_beq
timed = refl

not_bad : (send_request_and_wait env ping_request waiting tt).0 ≢ err bad_response
not_bad e = absurd (cc (sym timed ∙ e))

no_response : (r : Response) → (send_request_and_wait env ping_request waiting tt).0 ≢ ok r
no_response r e = absurd (cc (sym timed ∙ e))

send_request_and_wait-settled_example :
    contains_request 5 (send_request_and_wait env ping_request waiting tt).1 ≡ false
send_request_and_wait-settled_example =
    send_request_and_wait-settled env ping_request waiting tt not_bad no_response
