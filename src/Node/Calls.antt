-- ===== src/Node/Calls.antt =====
-- `find_node`, `join_network` and `find_storer` of src/core/node.rs as whole calls, with the routing
-- table as it changes. The table pings through a parameter. None in a result is spent fuel.
-- While a call waits for answers no other task changes the table.
use rust_p2p_filesystem.Base.{
  ℕ, Bool, false, not, List, [], ◌∷◌, Option, none, some, if◌then◌else◌, is_empty, keep, ◌==◌,
}
use rust_p2p_filesystem.Base.Outcome.{Result, ok, err, Task, done, ◌>>=◌}
use rust_p2p_filesystem.Key.{Key}
use rust_p2p_filesystem.Networking.NodeInfo.{NodeInfo, node_eq}
use rust_p2p_filesystem.Networking.Messages.{Response, RequestType}
use rust_p2p_filesystem.Routing.KBucket.{NodeError}
use rust_p2p_filesystem.Routing.Table.{
  RoutingTable, RoutingTableError, Ping, store_nodeinfo, store_nodeinfo_multiple, get_alpha_closest,
  lookup_get_alpha_closest,
}
use rust_p2p_filesystem.Lookup.{LookupBuffer, get_responsive_nodes, get_resulting_vector}
use rust_p2p_filesystem.Storage.FileSystem.{FileSystem}
use rust_p2p_filesystem.Storage.Shards.{read_chunk}
use rust_p2p_filesystem.Node.Lookups.{single_lookup, resolve_nodes, search_storer}

pub data CallError : Type 0 where
  table_failed : RoutingTableError → CallError
  no_initial_resolvers beacon_unavailable beacon_did_not_respond storer_not_found : CallError

-- "Update routing table with the responsive nodes" of `find_node`: an error is only logged.
unfoldable pub store_each : Ping → List NodeInfo → RoutingTable → Task RoutingTable
unfolding store_nodeinfo
store_each ping [] t = done t
store_each ping (n ∷ ns) t = do stored ← store_nodeinfo ping n t; store_each ping ns stored.0

module _ {W : Type 0} (ask : NodeInfo → RequestType → W → Result NodeError Response × W) where
  abbrev pub Called : Type 0
  Called = Option (RoutingTable × Result CallError (List NodeInfo) × W)

  -- The end of `find_node`, from the buffer after the last round on.
  unfoldable pub find_node_end : Ping → RoutingTable → Option (LookupBuffer × W) → Task Called
  unfolding store_each get_responsive_nodes get_resulting_vector
  find_node_end ping t none = done none
  find_node_end ping t (some (b, w)) = do
    t' ← store_each ping (get_responsive_nodes b) t
    done (some (t', ok (get_resulting_vector b), w))

  unfoldable pub find_node_from :
      ℕ
      → Ping
      → NodeInfo
      → Key
      → RoutingTable × Result RoutingTableError (List NodeInfo)
      → W
      → Task Called
  unfolding resolve_nodes find_node_end
  find_node_from fuel ping this_node target (t, err e) w = done (some (t, err (table_failed e), w))
  find_node_from fuel ping this_node target (t, ok initial) w =
      if is_empty initial
      then done (some (t, err no_initial_resolvers, w))
      else find_node_end ping t (resolve_nodes ask fuel target initial this_node w)

  unfoldable pub find_node : ℕ → ℕ → Ping → NodeInfo → Key → RoutingTable → W → Task Called
  unfolding lookup_get_alpha_closest find_node_from
  find_node fuel now ping this_node target t w = do
    initial ← lookup_get_alpha_closest now t target
    find_node_from fuel ping this_node target initial w

  -- The end of `join_network`: here the first error ends the call.
  unfoldable pub join_end : Ping → RoutingTable → Option (LookupBuffer × W) → Task Called
  unfolding store_nodeinfo_multiple get_responsive_nodes get_resulting_vector
  join_end ping t none = done none
  join_end ping t (some (b, w)) = do
    (t', r) ← store_nodeinfo_multiple ping (get_responsive_nodes b) t
    done
        (some (t', elim r [ ok _ ↦ ok (get_resulting_vector b) | err e ↦ err (table_failed e) ], w))

  -- Once the beacon answered the ping: the first nodes come from the beacon, the node itself aside.
  unfoldable pub join_from : ℕ → Ping → NodeInfo → NodeInfo → RoutingTable → W → Task Called
  unfolding single_lookup resolve_nodes join_end keep
  join_from fuel ping this_node beacon t w =
      let (response, w') = single_lookup ask this_node.id beacon false w in
      if is_empty response.k_closest
      then done (some (t, err beacon_did_not_respond, w'))
      else join_end ping t (
          resolve_nodes ask fuel this_node.id
            (keep (λ node. not (node == this_node)) response.k_closest) this_node w')

  -- `ping_beacon` is the node's own ping of the beacon, with no lock held.
  unfoldable pub join_network :
      ℕ
      → Ping
      → (RoutingTable → W → Bool × W)
      → NodeInfo
      → NodeInfo
      → RoutingTable
      → W
      → Task Called
  unfolding store_nodeinfo join_from
  join_network fuel ping ping_beacon this_node beacon t w = do
    (t', r) ← store_nodeinfo ping beacon t
    elim r [
      | err e ↦ done (some (t', err (table_failed e), w))
      | ok _ ↦
          let (answered, w') = ping_beacon t' w in
          if answered
          then join_from fuel ping this_node beacon t' w'
          else done (some (t', err beacon_unavailable, w'))
    ]

  module _ (fs : FileSystem) where
    abbrev pub Found : Type 0
    Found = Option (Result CallError NodeInfo × W)

    unfoldable pub storer_found : Option (Option NodeInfo × W) → Found
    storer_found none = none
    storer_found (some (none, w)) = some (err storer_not_found, w)
    storer_found (some (some storer, w)) = some (ok storer, w)

    -- Where the own storage does not have the chunk.
    unfoldable pub find_storer_from :
        ℕ → NodeInfo → Key → W → Result RoutingTableError (List NodeInfo) → Task Found
    unfolding search_storer storer_found
    find_storer_from fuel this_node target w (err e) = done (some (err (table_failed e), w))
    find_storer_from fuel this_node target w (ok initial) =
        if is_empty initial
        then done (some (err no_initial_resolvers, w))
        else done (storer_found (search_storer ask fuel target initial this_node w))

    unfoldable pub find_storer : ℕ → NodeInfo → Key → RoutingTable → fs.Disk → W → Task Found
    unfolding read_chunk get_alpha_closest find_storer_from
    find_storer fuel this_node target t d w = elim (read_chunk fs target d) [
      | ok _ ↦ done (some (ok this_node, w))
      | err _ ↦ do
        initial ← get_alpha_closest t target
        find_storer_from fuel this_node target w initial
    ]
