-- ===== src/Handler/Progress.antt =====
-- When the handling of a request (src/core/request_handler.rs) comes to its end, and when it waits for
-- ever.
use rust_p2p_filesystem.Base.{
  ℕ, Bool, ◌<◌, ◌≤◌, ◌≡◌, refl, ap, ◌∙◌, subst, List, [], ◌∷◌, Option, none, some, ◌==◌, arith,
  length, get_elem?, Bool-cases, inl, inr, ◌⊎◌,
}
use rust_p2p_filesystem.Base.Outcome.{Result, ok, err, Task, done, panicked, blocked, ◌>>=◌}
use rust_p2p_filesystem.Constants.{K}
use rust_p2p_filesystem.Key.{Key, IsKey, key_eq, key_beq_iff}
use rust_p2p_filesystem.Networking.NodeInfo.{NodeInfo}
use rust_p2p_filesystem.Networking.Messages.{Request, ResponseType, RequestType, new_nodes}
use rust_p2p_filesystem.Node.Requests.{Environment, ping_in_store}
use rust_p2p_filesystem.Routing.KBucket.{KBucket, NodeError}
use rust_p2p_filesystem.Routing.KBucket
use rust_p2p_filesystem.Routing.KBucket.Laws.{erase}
use rust_p2p_filesystem.Routing.KBucket.Add.{add_full_blocked}
use rust_p2p_filesystem.Routing.Table.{
  RoutingTable, RoutingTableError, empty, get_bucket_index, get_n_closest, get_k_closest,
  store_nodeinfo, put_back, get_all_nodeinfos,
}
use rust_p2p_filesystem.Routing.Table.Invariant.{IsTable}
use rust_p2p_filesystem.Routing.Table.Store.{
  store_in_bucket, get_nodeinfo-store_nodeinfo, store_nodeinfo-IsTable, Leaves, IsTableOf,
}
use rust_p2p_filesystem.Routing.Table.Closest.{get_n_closest_lem, get_n_closest_own, IsSelection}
use rust_p2p_filesystem.Storage.FileSystem.{FileSystem}
use rust_p2p_filesystem.Storage.Shards.{ShardStorageError, is_chunk_already_stored, read_chunk}
use rust_p2p_filesystem.Handler.{
  NodeState, Handled, respond, reply_nodes, handle_find_node_message, handle_find_value_message,
  handle_get_value, connect_and_write, record_possible_neighbour, dispatch, handle_received_request,
}

-- The answer to a lookup: an error, or at most `K` nodes.
abbrev Within : Task (Result RoutingTableError (List NodeInfo)) → Type 0
Within (done (ok out)) = length out ≤ K
Within (done (err e)) = Unit {0}
Within panicked = ⊥
Within blocked = ⊥

get_k_closest-Within :
    (t : RoutingTable) (key : Key) → IsTable t → IsKey key → Within (get_k_closest t key)
unfolding get_k_closest
get_k_closest-Within t key v w = elim (Bool-cases (key == t.id)) [
  | inl same ↦ rw ((key_beq_iff key t.id).0 same, get_n_closest_own t K v.own) tt
  | inr other ↦
      found
        (get_n_closest_lem t key K v w (λ e. ground (arith, key_beq_iff key t.id)) (omega arith))
]
  where
    found :
        ((get_all_nodeinfos t ≡ []) × (get_n_closest t key K ≡ done (err empty)))
          ⊎ ((out : List NodeInfo) × (get_n_closest t key K ≡ done (ok out))
              × (0 < length out)
              × IsSelection key K (get_all_nodeinfos t) out)
        → Within (get_n_closest t key K)
    found (inl h) = rw h.1 tt
    found (inr h) = rw h.1 (omega (arith, h.3.count))

pub new_nodes-some :
    (ns : List NodeInfo) → length ns ≤ K → new_nodes ns ≡ some (ResponseType.nodes ns)
unfolding new_nodes
new_nodes-some ns h = ground arith

module _ (fs : FileSystem) {W : Type 0} (env : Environment W) where
  abbrev Returns : Task (Handled fs env) → Type 0
  Returns t = (h : Handled fs env) × (t ≡ done h)

  -- The target of a lookup request is a key; and the TCP connection for the data of a chunk that
  -- can be read lets the upload come to its end, with or without success.
  abbrev pub CanEnd : RequestType → Request → fs.Disk → Type 0
  CanEnd (RequestType.find_node target) request disk = IsKey target
  CanEnd (RequestType.find_value target) request disk = IsKey target
  CanEnd (RequestType.get_value id port) request disk =
      (bytes : List ℕ)
      → read_chunk fs id disk ≡ ok bytes
      → (written : Bool) × (env.tcp_upload request.sender.address.ip port bytes ≡ done written)
  CanEnd _ request disk = Unit {0}

  find_node-Returns :
      (target : Key) (s : NodeState fs env) (request : Request)
      → IsTable s.table
      → IsKey target
      → Returns (handle_find_node_message fs env target s request)
  unfolding handle_find_node_message reply_nodes
  find_node-Returns target s request v k =
      go (get_k_closest s.table target) (get_k_closest-Within s.table target v k)
    where
      go :
          (t : Task (Result RoutingTableError (List NodeInfo)))
          → Within t
          → Returns (
              t >>= λ closest. elim closest [
                | err _ ↦ done (s, [])
                | ok nodes ↦ reply_nodes fs env s request (new_nodes nodes)
              ])
      go (done (ok nodes)) h =
          rw (new_nodes-some nodes h)
            ((s, respond fs env (ResponseType.nodes nodes) s request), refl)
      go (done (err e)) h = ((s, []), refl)
      go panicked h = absurd h
      go blocked h = absurd h

  find_value-Returns :
      (target : Key) (s : NodeState fs env) (request : Request)
      → IsTable s.table
      → IsKey target
      → Returns (handle_find_value_message fs env target s request)
  unfolding handle_find_value_message
  find_value-Returns target s request v k =
      elim (Bool-cases (is_chunk_already_stored target s.storage)) [
        | inl h ↦ rw h ((s, respond fs env (ResponseType.has_value target) s request), refl)
        | inr h ↦ rw h (find_node-Returns target s request v k)
      ]

  get_value-Returns :
      (id : Key) (port : ℕ) (s : NodeState fs env) (request : Request)
      → CanEnd (RequestType.get_value id port) request s.disk
      → Returns (handle_get_value fs env id port s request)
  unfolding handle_get_value connect_and_write
  get_value-Returns id port s request end = go (read_chunk fs id s.disk) refl
    where
      go :
          (r : Result ShardStorageError (List ℕ))
          → read_chunk fs id s.disk ≡ r
          → Returns (handle_get_value fs env id port s request)
      go (err e) h = rw (h, handle_get_value) ((s, []), refl)
      go (ok bytes) h =
          let (written, e) = end bytes h in rw (h, handle_get_value, e, connect_and_write) (_, refl)

  dispatch-Returns :
      (now : ℕ) (listener : Option ℕ) (ty : RequestType) (request : Request) (s : NodeState fs env)
      → IsTable s.table
      → CanEnd ty request s.disk
      → Returns (dispatch fs env now listener ty request s)
  unfolding dispatch
  dispatch-Returns now listener (RequestType.find_node id) request s v k =
      find_node-Returns id s request v k
  dispatch-Returns now listener (RequestType.find_value id) request s v k =
      find_value-Returns id s request v k
  dispatch-Returns now listener RequestType.ping request s v k = (_, refl)
  dispatch-Returns now listener (RequestType.store id) request s v k = (_, refl)
  dispatch-Returns now listener (RequestType.get_port id) request s v k = (_, refl)
  dispatch-Returns now listener (RequestType.get_value id port) request s v k =
      get_value-Returns id port s request k

  module _ (now : ℕ) (listener : Option ℕ) (w : W) (request : Request) (s : NodeState fs env)
      (for_us : request.receiver.id ≡ s.info.id) where
    enters : handle_received_request fs env now listener w request s ≡ (
        (store_nodeinfo (ping_in_store env s.info s.table s.pending w) request.sender s.table
          >>= λ stored. done (record s { table = stored.0 }))
        >>= λ s'. dispatch fs env now listener request.request_type request s')
    unfolding handle_received_request record_possible_neighbour
    enters = rw ((key_beq_iff request.receiver.id s.info.id).1 for_us, handle_received_request) refl

    -- Suppose that the table is well formed, that the sender's key and the target of a lookup have
    -- K bytes, that the bucket of the sender has room for it, and, for a GET_VALUE of a chunk that
    -- can be read, that the TCP connection to the sender lets the upload come to its end, with or
    -- without success. Then the handling of a request for this node comes to its end: it neither
    -- panics nor waits for ever.
    pub handle_received_request-returns :
        (i : ℕ) (b : KBucket)
        → IsTable s.table
        → IsKey request.sender.id
        → CanEnd request.request_type request s.disk
        → get_bucket_index s.table request.sender.id ≡ ok i
        → get_elem? s.table.buckets i ≡ some b
        → length (erase request.sender.id b.nodes) < b.capacity
        → (h : Handled fs env) × (handle_received_request fs env now listener w request s ≡ done h)
    handle_received_request-returns i b v k k' at_i e room =
        let s' : NodeState fs env = record s { table = stored.0 } in
        let end = dispatch-Returns now listener request.request_type request s' stored_IsTable k' in
        (
          end.0,
          enters
              ∙ ap
                  (λ t. (t >>= λ stored. done (record s { table = stored.0 })) >>= λ s'.
                    dispatch fs env now listener request.request_type request s')
                  stored.1
              ∙ end.1,
        )
      where
        ping_of : Key → Task (Option NodeError)
        ping_of = ping_in_store env s.info s.table s.pending w

        stored :
            (t : RoutingTable) × (store_nodeinfo ping_of request.sender s.table ≡ done (t, ok tt))
        stored =
            let found =
              get_nodeinfo-store_nodeinfo ping_of request.sender s.table i b request.sender.id v
                at_i e room at_i in
            (found.0, found.1)

        stored_IsTable : IsTable stored.0
        stored_IsTable =
            (subst (Leaves (IsTableOf s.table.id)) stored.1
              (store_nodeinfo-IsTable ping_of request.sender s.table k v)).0

    -- If the bucket of the sender is full and does not know the sender, the handling of a request
    -- for this node waits for ever: the ping of the oldest node wants the lock of the routing
    -- table, which the handling itself holds for writing.
    pub handle_received_request-blocks :
        (i : ℕ) (b : KBucket) (head : NodeInfo) (rest : List NodeInfo)
        → get_bucket_index s.table request.sender.id ≡ ok i
        → get_elem? s.table.buckets i ≡ some b
        → b.nodes ≡ head ∷ rest
        → b.capacity ≤ length b.nodes
        → KBucket.get_nodeinfo request.sender.id b ≡ none
        → handle_received_request fs env now listener w request s ≡ blocked
    unfolding ping_in_store
    handle_received_request-blocks i b head rest at_i e h full absent =
        enters
        ∙ ap
            (λ t. (t >>= λ stored. done (record s { table = stored.0 })) >>= λ s'.
              dispatch fs env now listener request.request_type request s')
            (store_in_bucket ping_of request.sender s.table i b at_i e
              ∙ ap (λ t. t >>= λ added. done (put_back s.table i added))
                  (add_full_blocked ping_of request.sender b head rest h full absent refl))
      where
        ping_of : Key → Task (Option NodeError)
        ping_of = ping_in_store env s.info s.table s.pending w
