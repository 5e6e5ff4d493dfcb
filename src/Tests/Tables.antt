-- ===== src/Tests/Tables.antt =====
-- The theorems about the routing table at concrete tables.
use rust_p2p_filesystem.Base.{
  ℕ, ◌≤◌, ◌<◌, ◌≡◌, ◌≢◌, refl, ap, ◌∙◌, Bool, true, false, List, [], ◌∷◌, Option, none, some,
  if◌then◌else◌, arith, length, get_elem?, ◌==◌, inl, inr, ◌⊎◌,
}
use rust_p2p_filesystem.Base.Outcome.{Result, ok, err, Task, done}
use rust_p2p_filesystem.Key.{Key, key_eq, IsKey}
use rust_p2p_filesystem.Key
use rust_p2p_filesystem.Networking.NodeInfo.{NodeInfo}
use rust_p2p_filesystem.Routing.KBucket.{KBucket}
use rust_p2p_filesystem.Routing.KBucket
use rust_p2p_filesystem.Routing.KBucket.Laws.{erase}
use rust_p2p_filesystem.Routing.Table.{
  RoutingTable, RoutingTableError, empty, new, get_bucket_index, store_nodeinfo,
  store_nodeinfo_multiple, get_nodeinfo, get_n_closest, get_n_closest_slow, get_all_nodeinfos,
  nodes_at,
}
use rust_p2p_filesystem.Routing.Table.Invariant.{IsTable, new-IsTable}
use rust_p2p_filesystem.Routing.Table.Store.{
  Leaves, IsTableOf, store_nodeinfo-IsTable, store_nodeinfo_multiple-IsTable,
  get_nodeinfo-store_nodeinfo,
}
use rust_p2p_filesystem.Routing.Table.Closest.{
  IsSelection, get_n_closest_lem, get_n_closest-eq-slow,
}
use rust_p2p_filesystem.Tests.Data.{contact, silent, key_of, key_of-IsKey}

-- The new table of a node.
abbrev pub fresh_table : RoutingTable
fresh_table = new 0 (key_of 0)

pub fresh-IsTable : IsTable fresh_table
fresh-IsTable = new-IsTable 0 (key_of 0) (key_of-IsKey 0 (omega arith))

store_nodeinfo-IsTable_example :
    Leaves (IsTableOf (key_of 0)) (store_nodeinfo silent (contact 128) fresh_table)
unfolding new
store_nodeinfo-IsTable_example =
    store_nodeinfo-IsTable silent (contact 128) fresh_table (key_of-IsKey 128 (omega arith))
      fresh-IsTable

abbrev some_contacts : List NodeInfo
some_contacts = contact 128 ∷ contact 129 ∷ contact 64 ∷ []

fresh_bucket : get_elem? fresh_table.buckets 159 ≡ some (KBucket.new 0)
unfolding new
fresh_bucket = refl

high_bucket : get_bucket_index fresh_table (key_of 128) ≡ ok 159
unfolding new get_bucket_index Key.leading_zeros_in_distance Key.count_zeros Key.distance
    Key.xor_bytes rust_p2p_filesystem.Key.Byte.clz8
high_bucket = refl

high_bucket' : get_bucket_index fresh_table (key_of 129) ≡ ok 159
unfolding new get_bucket_index Key.leading_zeros_in_distance Key.count_zeros Key.distance
    Key.xor_bytes rust_p2p_filesystem.Key.Byte.clz8
high_bucket' = refl

fresh_room : length (erase (key_of 128) (KBucket.new 0).nodes) < (KBucket.new 0).capacity
unfolding KBucket.new erase
fresh_room = omega arith

get_nodeinfo-store_nodeinfo_example :
    (t' : RoutingTable) × (store_nodeinfo silent (contact 128) fresh_table ≡ done (t', ok tt))
    × (get_nodeinfo (key_of 129) t' ≡ (
        if key_of 128 == key_of 129
        then done (ok (some (contact 128)))
        else get_nodeinfo (key_of 129) fresh_table))
get_nodeinfo-store_nodeinfo_example =
    get_nodeinfo-store_nodeinfo silent (contact 128) fresh_table 159 (KBucket.new 0) (key_of 129)
      fresh-IsTable high_bucket fresh_bucket fresh_room high_bucket'

-- The table after some contacts were stored.
unfoldable pub table_of : Task (RoutingTable × Result RoutingTableError (Unit {0})) → RoutingTable
table_of (done (t, r)) = t
table_of _ = fresh_table

unfoldable pub stored_table : RoutingTable
unfolding table_of new store_nodeinfo_multiple
stored_table = table_of (store_nodeinfo_multiple silent some_contacts fresh_table)

pub stored-IsTable : IsTable stored_table
unfolding stored_table new store_nodeinfo_multiple store_nodeinfo get_bucket_index
    Key.leading_zeros_in_distance Key.count_zeros Key.distance Key.xor_bytes
    rust_p2p_filesystem.Key.Byte.clz8 KBucket.add_nodeinfo Key.key_beq
    rust_p2p_filesystem.Base.list_beq
stored-IsTable =
    (store_nodeinfo_multiple-IsTable silent some_contacts fresh_table
      (
        key_of-IsKey 128 (omega arith),
        (key_of-IsKey 129 (omega arith), (key_of-IsKey 64 (omega arith), tt)),
      )
      fresh-IsTable).0

stored_id : stored_table.id ≡ key_of 0
unfolding stored_table store_nodeinfo get_bucket_index Key.leading_zeros_in_distance Key.count_zeros
    Key.distance Key.xor_bytes rust_p2p_filesystem.Key.Byte.clz8 KBucket.add_nodeinfo Key.key_beq
    rust_p2p_filesystem.Base.list_beq
stored_id = refl

abbrev first_byte : Key → ℕ
first_byte k = elim k.value [ [] ↦ 0 | b ∷ bs ↦ b ]

other_key : key_of 130 ≢ stored_table.id
other_key e = absurd (omega (arith, ap first_byte (e ∙ stored_id)))

get_n_closest_lem_example :
    ((get_all_nodeinfos stored_table ≡ [])
      × (get_n_closest stored_table (key_of 130) 2 ≡ done (err empty)))
    ⊎ ((out : List NodeInfo) × (get_n_closest stored_table (key_of 130) 2 ≡ done (ok out))
        × (0 < length out)
        × IsSelection (key_of 130) 2 (get_all_nodeinfos stored_table) out)
get_n_closest_lem_example =
    get_n_closest_lem stored_table (key_of 130) 2 stored-IsTable (key_of-IsKey 130 (omega arith))
      other_key (omega arith)

stored_bucket : get_bucket_index stored_table (key_of 130) ≡ ok 159
unfolding stored_table get_bucket_index Key.leading_zeros_in_distance Key.count_zeros Key.distance
    Key.xor_bytes store_nodeinfo rust_p2p_filesystem.Key.Byte.clz8 KBucket.add_nodeinfo Key.key_beq
    rust_p2p_filesystem.Base.list_beq
stored_bucket = refl

two_in_bucket : 2 ≤ length (nodes_at stored_table.buckets 159)
unfolding stored_table nodes_at store_nodeinfo get_bucket_index Key.leading_zeros_in_distance
    Key.count_zeros Key.distance Key.xor_bytes rust_p2p_filesystem.Key.Byte.clz8
    KBucket.add_nodeinfo Key.key_beq rust_p2p_filesystem.Base.list_beq
two_in_bucket = omega arith

get_n_closest-eq-slow_example :
    get_n_closest stored_table (key_of 130) 2
    ≡ done (get_n_closest_slow stored_table (key_of 130) 2)
get_n_closest-eq-slow_example =
    get_n_closest-eq-slow stored_table (key_of 130) 2 159 stored-IsTable
      (key_of-IsKey 130 (omega arith)) stored_bucket (omega arith) two_in_bucket
