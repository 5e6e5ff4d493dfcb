-- ===== src/Node/Requests/Pending.antt =====
-- The pending requests after `send_request_and_wait` of src/core/node.rs.
use rust_p2p_filesystem.Base.{ℕ, ◌≡◌, ◌≢◌, refl, false, nat_eq, beq_refl}
use rust_p2p_filesystem.Base.Outcome.{Result, ok, err}
use rust_p2p_filesystem.Base.Assoc.{contains_key-remove}
use rust_p2p_filesystem.Networking.Messages.{Request, Response, SendError, send_request}
use rust_p2p_filesystem.Networking.RequestMap.{
  RequestMap, add_request, remove_request, contains_request,
}
use rust_p2p_filesystem.Routing.KBucket.{bad_response}
use rust_p2p_filesystem.Node.Requests.{
  Wait, received, channel_closed, timed_out, Environment, settle, send_request_and_wait,
}

removed : (id : ℕ) (m : RequestMap) → contains_request id (remove_request id m) ≡ false
unfolding contains_request remove_request
removed id m = rw (contains_key-remove id id m.map, beq_refl id) refl

module _ {W : Type 0} (env : Environment W) where
  settled :
      (id : ℕ) (waited : Wait × RequestMap × W)
      → (settle env id waited).0 ≢ err bad_response
      → ((r : Response) → (settle env id waited).0 ≢ ok r)
      → contains_request id (settle env id waited).1 ≡ false
  unfolding settle
  settled id (received r, m, w) b h = absurd (h r refl)
  settled id (channel_closed, m, w) b h = absurd (b refl)
  settled id (timed_out, m, w) b h = removed id m

  -- When `send_request_and_wait` ends neither with a response nor with `BadResponse`, that is, if
  -- the request was not sent or no response came in time, the request is not pending any more.
  pub send_request_and_wait-settled :
      (request : Request) (m : RequestMap) (w : W)
      → (send_request_and_wait env request m w).0 ≢ err bad_response
      → ((r : Response) → (send_request_and_wait env request m w).0 ≢ ok r)
      → contains_request request.request_id (send_request_and_wait env request m w).1 ≡ false
  unfolding send_request_and_wait
  send_request_and_wait-settled request m w = go (send_request env.transport request) refl
    where
      pending : RequestMap
      pending = add_request request.request_id (env.draw_channel w) m

      go :
          (sent : Result SendError ℕ)
          → send_request env.transport request ≡ sent
          → (send_request_and_wait env request m w).0 ≢ err bad_response
          → ((r : Response) → (send_request_and_wait env request m w).0 ≢ ok r)
          → contains_request request.request_id (send_request_and_wait env request m w).1 ≡ false
      go (err e) p b h = rw (p, send_request_and_wait) (removed request.request_id pending)
      go (ok u) p b h =
          rw (p, send_request_and_wait)
            (settled request.request_id (env.await request pending w)
              (rw (p, send_request_and_wait) at b) (λ r. rw (p, send_request_and_wait) at (h r)))
