-- ===== src/Handler/Worker/Invariant.antt =====
-- What stays of a node while its workers go through the queue of src/core/node.rs.
use rust_p2p_filesystem.Base.{
  ℕ, ◌≡◌, refl, sym, ap, ◌∙◌, List, [], ◌∷◌, ◌++◌, Option, none, some, arith, ◌==◌, Bool-cases, inl,
  inr, subst,
}
use rust_p2p_filesystem.Base.Outcome.{Result, Task, done, panicked, blocked, ◌>>=◌}
use rust_p2p_filesystem.Key.{IsKey, key_eq}
use rust_p2p_filesystem.Networking.Messages.{Request, Response, RequestType}
use rust_p2p_filesystem.Node.Requests.{Environment, ping_in_store}
use rust_p2p_filesystem.Routing.Table.{RoutingTable, RoutingTableError}
use rust_p2p_filesystem.Routing.Table.Invariant.{IsTable}
use rust_p2p_filesystem.Routing.Table.Store.{Leaves, IsTableOf, store_nodeinfo-IsTable}
use rust_p2p_filesystem.Storage.FileSystem.{FileSystem}
use rust_p2p_filesystem.Handler.{
  NodeState, Effect, Handled, handle_received_request, record_possible_neighbour, dispatch,
  handle_ping_message, handle_find_node_message, reply_nodes, handle_find_value_message,
  handle_get_value, connect_and_write, handle_store_message, handle_get_port_message, offer_port,
}
use rust_p2p_filesystem.Handler.Worker.{
  Parser, Moment, process_request, process_parsed, process_message, process_queue,
}

module _ (fs : FileSystem) {W : Type 0} (env : Environment W) where
  -- The handler that a request gets to leaves the table and the node's own contact.
  dispatch-kept :
      (now : ℕ) (listener : Option ℕ) (ty : RequestType) (request : Request)
      (s s' : NodeState fs env) (effects : List Effect)
      → dispatch fs env now listener ty request s ≡ done (s', effects)
      → (s'.table ≡ s.table) × (s'.info ≡ s.info)
  unfolding dispatch handle_ping_message handle_find_node_message reply_nodes
      handle_find_value_message handle_get_value connect_and_write handle_store_message
      handle_get_port_message offer_port
  dispatch-kept now listener RequestType.ping request s s' effects h = ground arith
  dispatch-kept now listener (RequestType.find_node id) request s s' effects h = ground arith
  dispatch-kept now listener (RequestType.store id) request s s' effects h = ground arith
  dispatch-kept now listener (RequestType.get_port id) request s s' effects h = ground arith
  dispatch-kept now listener (RequestType.find_value id) request s s' effects h = ground arith
  dispatch-kept now listener (RequestType.get_value id port) request s s' effects h = ground arith

  -- The table after a call that returns is well formed, for the same key, and the node's own contact
  -- is what it was.
  abbrev pub IsKept : NodeState fs env → NodeState fs env → Type 0
  IsKept s s' = IsTableOf s.table.id s'.table × (s'.info ≡ s.info)

  abbrev state_of : NodeState fs env → Task (Handled fs env) → NodeState fs env
  state_of s (done (t, effects)) = t
  state_of s _ = s

  abbrev effects_of : Task (Handled fs env) → List Effect
  effects_of (done (t, effects)) = effects
  effects_of _ = []

  abbrev nothing : NodeState fs env → Task (Handled fs env)
  nothing s = done (s, [])

  -- Where nothing is done.
  ignored :
      (s s' : NodeState fs env) (effects : List Effect)
      → IsTable s.table
      → nothing s ≡ done (s', effects)
      → IsKept s s'
  ignored s s' effects v h = subst (IsKept s) (ap (state_of s) h) ((v, refl), refl)

  handled-IsKept :
      (now : ℕ) (listener : Option ℕ) (request : Request) (s s' : NodeState fs env)
      (effects : List Effect) (stored : Task (RoutingTable × Result RoutingTableError (Unit {0})))
      → Leaves (IsTableOf s.table.id) stored
      → (do
        t ← (do r ← stored; done (record s { table = r.0 }))
        dispatch fs env now listener request.request_type request t)
        ≡ done (s', effects)
      → IsKept s s'
  handled-IsKept now listener request s s' effects panicked v h = absurd (cc)
  handled-IsKept now listener request s s' effects blocked v h = absurd (cc)
  handled-IsKept now listener request s s' effects (done (t, r)) v h =
      let (same, info) =
        dispatch-kept now listener request.request_type request (record s { table = t }) s' effects
          h in
      (subst (IsTableOf s.table.id) (sym same) v, info)

  handle_received_request-IsKept :
      (now : ℕ) (listener : Option ℕ) (w : W) (request : Request) (s s' : NodeState fs env)
      (effects : List Effect)
      → IsKey request.sender.id
      → IsTable s.table
      → handle_received_request fs env now listener w request s ≡ done (s', effects)
      → IsKept s s'
  unfolding handle_received_request record_possible_neighbour
  handle_received_request-IsKept now listener w request s s' effects k v h =
      elim (Bool-cases (request.receiver.id == s.info.id)) [
        | inl own ↦
            handled-IsKept now listener request s s' effects _
              (store_nodeinfo-IsTable (ping_in_store env s.info s.table s.pending w) request.sender
                s.table k v)
              (rw (own, handle_received_request) at h)
        | inr other ↦ ignored s s' effects v (rw (other, handle_received_request) at h)
      ]

  module _ (parser : Parser)
      (keys : (message : List ℕ) (request : Request)
        → parser.request_of message ≡ some request
        → IsKey request.sender.id) where
    process_request-IsKept :
        (m : Moment W) (message : List ℕ) (o : Option Request) (s s' : NodeState fs env)
        (effects : List Effect)
        → parser.request_of message ≡ o
        → IsTable s.table
        → process_request fs env parser m o s ≡ done (s', effects)
        → IsKept s s'
    unfolding process_request
    process_request-IsKept m message none s s' effects e v h = ignored s s' effects v h
    process_request-IsKept m message (some request) s s' effects e v h =
        handle_received_request-IsKept m.now m.listener m.world request s s' effects
          (keys message request e) v h

    process_message-IsKept :
        (m : Moment W) (message : List ℕ) (s s' : NodeState fs env) (effects : List Effect)
        → IsTable s.table
        → process_message fs env parser m message s ≡ done (s', effects)
        → IsKept s s'
    unfolding process_message process_parsed
    process_message-IsKept m message s s' effects v h = go (parser.response_of message) h
      where
        go :
            (o : Option Response)
            → process_parsed fs env parser m message o s ≡ done (s', effects)
            → IsKept s s'
        go none e =
            process_request-IsKept m message (parser.request_of message) s s' effects refl v e
        go (some response) e = subst (IsKept s) (ap (state_of s) e) ((v, refl), refl)

    -- Effects behind those from before.
    abbrev Behind : List Effect → Handled fs env → Task (Handled fs env)
    Behind before o = done (o.0, before ++ o.1)

    -- The rest of the queue, after its first message.
    abbrev After : List (Moment W × List ℕ) → Handled fs env → Task (Handled fs env)
    After queue first = do
      others ← process_queue fs env parser queue first.0
      done (others.0, first.1 ++ others.1)

    then-IsKept :
        (s t s' : NodeState fs env) (before effects : List Effect) (others : Task (Handled fs env))
        → IsKept s t
        → ((u : NodeState fs env) (es : List Effect) → others ≡ done (u, es) → IsKept t u)
        → (do o ← others; Behind before o) ≡ done (s', effects)
        → IsKept s s'
    then-IsKept s t s' before effects panicked k ih q = absurd (cc)
    then-IsKept s t s' before effects blocked k ih q = absurd (cc)
    then-IsKept s t s' before effects (done (u, es)) k ih q =
        let (kept, info) = ih u es refl in
        subst (IsKept s) (ap (state_of s) q) ((kept.0, kept.1 ∙ k.0.1), info ∙ k.1)

    first-IsKept :
        (queue : List (Moment W × List ℕ)) (s s' : NodeState fs env) (effects : List Effect)
        (first : Task (Handled fs env))
        → ((t : NodeState fs env) (es : List Effect) → first ≡ done (t, es) → IsKept s t)
        → ((t u : NodeState fs env) (es : List Effect)
            → IsTable t.table
            → process_queue fs env parser queue t ≡ done (u, es)
            → IsKept t u)
        → (do f ← first; After queue f) ≡ done (s', effects)
        → IsKept s s'
    first-IsKept queue s s' effects panicked k ih q = absurd (cc)
    first-IsKept queue s s' effects blocked k ih q = absurd (cc)
    first-IsKept queue s s' effects (done (t, es)) k ih q =
        let kept = k t es refl in
        then-IsKept s t s' es effects _ kept (λ u fs'. ih t u fs' kept.0.0) q

    -- Whatever messages come one after the other from the queue of a node, if its table is well
    -- formed and the senders of requests have keys of K bytes, then once they are all handled the
    -- table is well formed, for the same key, and the node's own contact is what it was.
    pub process_queue-IsKept :
        (queue : List (Moment W × List ℕ)) (s s' : NodeState fs env) (effects : List Effect)
        → IsTable s.table
        → process_queue fs env parser queue s ≡ done (s', effects)
        → IsKept s s'
    unfolding process_queue
    process_queue-IsKept [] s s' effects v h = ignored s s' effects v h
    process_queue-IsKept ((m, message) ∷ queue) s s' effects v h =
        first-IsKept queue s s' effects (process_message fs env parser m message s)
          (λ t es. process_message-IsKept m message s t es v)
          (λ t u es. process_queue-IsKept queue t u es) h
