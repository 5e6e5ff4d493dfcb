-- ===== src/Node/Uploads/Chosen.antt =====
-- The nodes that src/core/node.rs chooses for a chunk.
use rust_p2p_filesystem.Base.{
  ℕ, ◌<◌, ◌≤◌, ◌≡◌, refl, ap, subst, List, [], ◌∷◌, Option, none, some, arith, All, All-take,
  length, take, length-take,
}
use rust_p2p_filesystem.Base.Outcome.{Result, ok, err, Task, done, panicked, blocked, ◌>>=◌}
use rust_p2p_filesystem.Base.Sort.{
  sort, IsSorted, sort-IsSorted, IsSorted-take, length-sort, All-sort,
}
use rust_p2p_filesystem.Constants.{alpha}
use rust_p2p_filesystem.Key.{Key, distance}
use rust_p2p_filesystem.Key.Order.{by_key-IsOrder}
use rust_p2p_filesystem.Networking.NodeInfo.{NodeInfo}
use rust_p2p_filesystem.Networking.Messages.{Response, RequestType, ResponseType}
use rust_p2p_filesystem.Routing.KBucket.{NodeError}
use rust_p2p_filesystem.Routing.Table.{RoutingTable, Ping}
use rust_p2p_filesystem.Node.Calls.{CallError, find_node}
use rust_p2p_filesystem.Node.Uploads.{
  Left, UploadError, read_store_answer, nearer_sender, push_some, ask_stores,
  send_initial_store_request, choose_ready, resolve_among, resolve_alpha_closest_nodes_to_key,
}

module _ {W : Type 0} (ask : NodeInfo → RequestType → W → Result NodeError Response × W) where
  -- A response to a STORE for the chunk, asked at some moment, that said `StoreOK`.
  pub record IsReady (chunk_id : Key) (response : Response) : Type 0 where
    pub node : NodeInfo
    pub moment : W
    pub answer : (ask node (RequestType.store chunk_id) moment).0 ≡ ok response
    pub ready : response.response_type ≡ ResponseType.store_ok

  read_store_answer-IsReady :
      (chunk_id : Key) (node : NodeInfo) (w : W) (a : Result NodeError Response)
      → (ask node (RequestType.store chunk_id) w).0 ≡ a
      → (rs : List Response) → All (IsReady chunk_id) rs
      → All (IsReady chunk_id) (push_some (read_store_answer a) rs)
  unfolding push_some read_store_answer
  read_store_answer-IsReady chunk_id node w (err e) q rs v = v
  read_store_answer-IsReady chunk_id node w (ok r) q rs v = go r.response_type refl
    where
      go :
          (k : ResponseType)
          → r.response_type ≡ k
          → All (IsReady chunk_id) (push_some (read_store_answer (ok r)) rs)
      go ResponseType.store_ok e =
          rw (e, read_store_answer) (record { node = node; moment = w; answer = q; ready = e }, v)
      go ResponseType.pong e = rw (e, read_store_answer) v
      go (ResponseType.nodes ns) e = rw (e, read_store_answer) v
      go ResponseType.store_chunk_updated e = rw (e, read_store_answer) v
      go (ResponseType.port_ok p) e = rw (e, read_store_answer) v
      go (ResponseType.has_value k) e = rw (e, read_store_answer) v

  ask_stores-IsReady :
      (chunk_id : Key) (ns : List NodeInfo) (w : W)
      → All (IsReady chunk_id) (ask_stores ask chunk_id ns w).0
  unfolding ask_stores send_initial_store_request
  ask_stores-IsReady chunk_id [] w = tt
  ask_stores-IsReady chunk_id (n ∷ ns) w =
      read_store_answer-IsReady chunk_id n w _ refl _ (ask_stores-IsReady chunk_id ns _)

  -- At most `alpha` nodes that are ready, and at least one, in the order of their distance.
  pub record IsChosen (chunk_id : Key) (rs : List Response) : Type 0 where
    pub some_chosen : 0 < length rs
    pub few : length rs ≤ alpha
    pub ordered : IsSorted (nearer_sender chunk_id) rs
    pub all_ready : All (IsReady chunk_id) rs

  choose_ready-IsChosen :
      (chunk_id : Key) (ready rs : List Response)
      → All (IsReady chunk_id) ready
      → choose_ready ask chunk_id ready ≡ ok rs
      → IsChosen chunk_id rs
  unfolding choose_ready
  choose_ready-IsChosen chunk_id [] rs v h = absurd (cc)
  choose_ready-IsChosen chunk_id (r ∷ ready) rs v h =
      let le = nearer_sender chunk_id in
      let o = by_key-IsOrder (λ (r : Response). distance r.sender.id chunk_id) in
      let same : take alpha (sort le (r ∷ ready)) ≡ rs = ap chosen h in
      subst (IsChosen chunk_id) same (record {
        some_chosen =
            omega (arith, length-take alpha (sort le (r ∷ ready)), length-sort le (r ∷ ready));
        few = omega (arith, length-take alpha (sort le (r ∷ ready)));
        ordered = IsSorted-take le alpha _ (sort-IsSorted le o (r ∷ ready));
        all_ready = All-take _ alpha _ (All-sort le _ (r ∷ ready) v);
      })
    where
      chosen : Result UploadError (List Response) → List Response
      chosen (ok rs) = rs
      chosen _ = []

  abbrev result_of :
      Result UploadError (List Response)
      → Task (Left ask (List Response))
      → Result UploadError (List Response)
  result_of d (done (some (t, r, w))) = r
  result_of d _ = d

  resolve_among-IsChosen :
      (chunk_id : Key) (found : Task (Option (RoutingTable × Result CallError (List NodeInfo) × W)))
      (t : RoutingTable) (w : W) (rs : List Response)
      → (do c ← found; done (resolve_among ask chunk_id c)) ≡ done (some (t, ok rs, w))
      → IsChosen chunk_id rs
  unfolding resolve_among
  resolve_among-IsChosen chunk_id panicked t w rs h = absurd (cc)
  resolve_among-IsChosen chunk_id blocked t w rs h = absurd (cc)
  resolve_among-IsChosen chunk_id (done none) t w rs h = absurd (cc)
  resolve_among-IsChosen chunk_id (done (some (t', err e, w'))) t w rs h = absurd (cc)
  resolve_among-IsChosen chunk_id (done (some (t', ok ns, w'))) t w rs h =
      choose_ready-IsChosen chunk_id _ rs (ask_stores-IsReady chunk_id ns w')
        (ap (result_of (ok rs)) h)

  -- If nodes are chosen for a chunk, they are at least one and at most `alpha`, in the order of
  -- their distance to its key, and each of them answered a STORE for the key with `StoreOK`.
  pub resolve_alpha_closest_nodes_to_key-IsChosen :
      (fuel now : ℕ) (ping : Ping) (this_node : NodeInfo) (chunk_id : Key) (t t' : RoutingTable)
      (w w' : W) (rs : List Response)
      → resolve_alpha_closest_nodes_to_key ask fuel now ping this_node chunk_id t w
        ≡ done (some (t', ok rs, w'))
      → IsChosen chunk_id rs
  unfolding resolve_alpha_closest_nodes_to_key
  resolve_alpha_closest_nodes_to_key-IsChosen fuel now ping this_node chunk_id t t' w w' rs h =
      resolve_among-IsChosen chunk_id (find_node ask fuel now ping this_node chunk_id t w) t' w' rs
        h
