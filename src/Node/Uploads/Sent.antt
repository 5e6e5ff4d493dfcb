-- ===== src/Node/Uploads/Sent.antt =====
-- The chunks of a successful upload of src/core/node.rs.
use rust_p2p_filesystem.Base.{
  ℕ, ◌≡◌, refl, ap, Bool, true, inl, inr, List, [], ◌∷◌, none, some, Bool-cases,
}
use rust_p2p_filesystem.Base.Outcome.{Result, ok, err, Task, done, panicked, blocked, ◌>>=◌}
use rust_p2p_filesystem.Networking.NodeInfo.{NodeInfo}
use rust_p2p_filesystem.Networking.Messages.{Response, RequestType, ResponseType}
use rust_p2p_filesystem.Routing.KBucket.{NodeError}
use rust_p2p_filesystem.Routing.Table.{RoutingTable, Ping}
use rust_p2p_filesystem.Sharding.Metadata.{Chunk}
use rust_p2p_filesystem.Node.Uploads.{
  Left, send_chunk_over_tcp, send_to_each, store_chunk, transfer, transfer_to, UploadError,
  store_at_ports, resolve_alpha_closest_nodes_to_key, upload_chunk, get_ports_for_nodes,
}

module _ {W : Type 0} (ask : NodeInfo → RequestType → W → Result NodeError Response × W)
    (connect : ℕ → ℕ → List ℕ → W → Bool × W) where
  -- At some moment a TCP connection took the data of the chunk.
  pub record IsSent (chunk : Chunk) : Type 0 where
    pub ip : ℕ
    pub port : ℕ
    pub moment : W
    pub taken : (connect ip port chunk.chunk_data moment).0 ≡ true

  send_chunk_over_tcp-IsSent :
      (r : Response) (chunk : Chunk) (w : W)
      → (send_chunk_over_tcp ask connect r chunk w).0 ≡ true
      → IsSent chunk
  unfolding send_chunk_over_tcp
  send_chunk_over_tcp-IsSent r chunk w h = go r.response_type refl
    where
      go : (k : ResponseType) → r.response_type ≡ k → IsSent chunk
      go (ResponseType.port_ok port) e = record {
        ip = r.sender.address.ip;
        port = port;
        moment = w;
        taken = rw (e, send_chunk_over_tcp) at h;
      }
      go ResponseType.pong e = absurd (cc (rw (e, send_chunk_over_tcp) at h))
      go (ResponseType.nodes ns) e = absurd (cc (rw (e, send_chunk_over_tcp) at h))
      go ResponseType.store_chunk_updated e = absurd (cc (rw (e, send_chunk_over_tcp) at h))
      go ResponseType.store_ok e = absurd (cc (rw (e, send_chunk_over_tcp) at h))
      go (ResponseType.has_value k) e = absurd (cc (rw (e, send_chunk_over_tcp) at h))

  send_to_each-IsSent :
      (rs : List Response) (chunk : Chunk) (w : W)
      → (send_to_each ask connect rs chunk w).0 ≡ true
      → IsSent chunk
  unfolding send_to_each
  send_to_each-IsSent [] chunk w h = absurd (cc)
  send_to_each-IsSent (r ∷ rs) chunk w h =
      elim (Bool-cases (send_chunk_over_tcp ask connect r chunk w).0) [
        | inl sent ↦ send_chunk_over_tcp-IsSent r chunk w sent
        | inr not_sent ↦ send_to_each-IsSent rs chunk _ (rw not_sent at h)
      ]

  store_at_ports-IsSent :
      (chunk : Chunk) (ports : Result UploadError (List Response) × W)
      → (store_at_ports ask connect chunk ports).0 ≡ ok tt
      → IsSent chunk
  unfolding store_at_ports store_chunk
  store_at_ports-IsSent chunk (err e, w) h = absurd (cc)
  store_at_ports-IsSent chunk (ok rs, w) h =
      elim (Bool-cases (send_to_each ask connect rs chunk w).0) [
        | inl sent ↦ send_to_each-IsSent rs chunk w sent
        | inr not_sent ↦ absurd (cc (rw not_sent at h))
      ]

  transfer_to-IsSent :
      (chunk : Chunk) (chosen : Left ask (List Response)) (t : RoutingTable) (w : W)
      → transfer_to ask connect chunk chosen ≡ some (t, ok tt, w)
      → IsSent chunk
  unfolding transfer_to transfer
  transfer_to-IsSent chunk none t w h = absurd (cc)
  transfer_to-IsSent chunk (some (t', err e, w')) t w h = absurd (cc)
  transfer_to-IsSent chunk (some (t', ok nodes, w')) t w h =
      store_at_ports-IsSent chunk (get_ports_for_nodes ask nodes chunk.hash w') (ap result h)
    where
      result : Left ask Unit → Result UploadError (Unit {0})
      result none = ok tt
      result (some (t, r, w)) = r

  pub upload_chunk-IsSent :
      (fuel now : ℕ) (ping : Ping) (this_node : NodeInfo) (chunk : Chunk) (t t' : RoutingTable)
      (w w' : W)
      → upload_chunk ask connect fuel now ping this_node chunk t w ≡ done (some (t', ok tt, w'))
      → IsSent chunk
  unfolding upload_chunk
  upload_chunk-IsSent fuel now ping this_node chunk t t' w w' h =
      go (resolve_alpha_closest_nodes_to_key ask fuel now ping this_node chunk.hash t w) h
    where
      result : Task (Left ask Unit) → Left ask Unit
      result (done r) = r
      result _ = none

      go :
          (chosen : Task (Left ask (List Response)))
          → (do c ← chosen; done (transfer_to ask connect chunk c)) ≡ done (some (t', ok tt, w'))
          → IsSent chunk
      go (done c) e = transfer_to-IsSent chunk c t' w' (ap result e)
      go panicked e = absurd (cc)
      go blocked e = absurd (cc)
