-- ===== src/Node/Uploads/Refused.antt =====
-- Uploads of src/core/node.rs that no node is ready for.
use rust_p2p_filesystem.Base.{ℕ, ◌≡◌, ◌≢◌, refl, Bool, List, [], ◌∷◌, Option, none, some}
use rust_p2p_filesystem.Base.Outcome.{Result, ok, err, Task, done, panicked, blocked, ◌>>=◌}
use rust_p2p_filesystem.Key.{Key}
use rust_p2p_filesystem.Networking.NodeInfo.{NodeInfo}
use rust_p2p_filesystem.Networking.Messages.{Response, RequestType, ResponseType}
use rust_p2p_filesystem.Routing.KBucket.{NodeError}
use rust_p2p_filesystem.Routing.Table.{RoutingTable, Ping}
use rust_p2p_filesystem.Sharding.Metadata.{Chunk}
use rust_p2p_filesystem.Node.Calls.{CallError}
use rust_p2p_filesystem.Node.Uploads.{
  read_store_answer, push_some, ask_stores, send_initial_store_request, choose_ready, resolve_among,
  resolve_alpha_closest_nodes_to_key, transfer_to, upload_chunk,
}

module _ {W : Type 0} (ask : NodeInfo → RequestType → W → Result NodeError Response × W)
    (connect : ℕ → ℕ → List ℕ → W → Bool × W) (chunk_id : Key)
    (stored : (node : NodeInfo) (w : W) (r : Response)
      → (ask node (RequestType.store chunk_id) w).0 ≡ ok r
      → r.response_type ≡ ResponseType.store_chunk_updated) where
  read_none :
      (node : NodeInfo) (w : W) (a : Result NodeError Response)
      → (ask node (RequestType.store chunk_id) w).0 ≡ a
      → read_store_answer a ≡ none
  unfolding read_store_answer
  read_none node w (err e) q = refl
  read_none node w (ok r) q = rw (stored node w r q) refl

  ask_stores_none : (ns : List NodeInfo) (w : W) → (ask_stores ask chunk_id ns w).0 ≡ []
  unfolding ask_stores send_initial_store_request push_some
  ask_stores_none [] w = refl
  ask_stores_none (n ∷ ns) w = rw (read_none n w _ refl) (ask_stores_none ns _)

  -- The upload of a chunk, once the closest nodes are found.
  after_finding :
      (chunk : Chunk) (found : Task (Option (RoutingTable × Result CallError (List NodeInfo) × W)))
      (t : RoutingTable) (w : W)
      → (do
        chosen ← (do c ← found; done (resolve_among ask chunk_id c))
        done (transfer_to ask connect chunk chosen))
        ≢ done (some (t, ok tt, w))
  unfolding resolve_among choose_ready transfer_to
  after_finding chunk panicked t w h = cc
  after_finding chunk blocked t w h = cc
  after_finding chunk (done none) t w h = cc
  after_finding chunk (done (some (t', err e, w'))) t w h = cc
  after_finding chunk (done (some (t', ok ns, w'))) t w h =
      absurd (cc (rw (ask_stores_none ns w') at h))

-- If every node that answers a STORE for the key of a chunk answers `StoreChunkUpdated`, as a node
-- does that has the chunk, the upload of the chunk does not succeed.
pub upload_chunk_refused :
    {W : Type 0} (ask : NodeInfo → RequestType → W → Result NodeError Response × W)
    (connect : ℕ → ℕ → List ℕ → W → Bool × W) (fuel now : ℕ) (ping : Ping) (this_node : NodeInfo)
    (chunk : Chunk) (t t' : RoutingTable) (w w' : W)
    → ((node : NodeInfo) (w : W) (r : Response)
        → (ask node (RequestType.store chunk.hash) w).0 ≡ ok r
        → r.response_type ≡ ResponseType.store_chunk_updated)
    → upload_chunk ask connect fuel now ping this_node chunk t w ≢ done (some (t', ok tt, w'))
unfolding upload_chunk resolve_alpha_closest_nodes_to_key
upload_chunk_refused ask connect fuel now ping this_node chunk t t' w w' stored h =
    after_finding ask connect chunk.hash stored chunk _ t' w' h
