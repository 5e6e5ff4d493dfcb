-- ===== src/Tests/Handlers.antt =====
-- The theorems about the request handler at concrete requests.
use rust_p2p_filesystem.Base.{
  ℕ, ◌*◌, ◌≤◌, ◌<◌, ◌≡◌, ◌≢◌, refl, ap, ◌∙◌, Bool, true, false, List, [], ◌∷◌, Option, none, some,
  arith, length, get_elem?, set, ◌==◌,
}
use rust_p2p_filesystem.Base
use rust_p2p_filesystem.Base.Outcome.{ok, done, blocked}
use rust_p2p_filesystem.Key.{Key, key_eq, IsKey}
use rust_p2p_filesystem.Key
use rust_p2p_filesystem.Key.Byte
use rust_p2p_filesystem.Networking.NodeInfo.{NodeInfo}
use rust_p2p_filesystem.Networking.Messages.{RequestType, Request}
use rust_p2p_filesystem.Networking.RequestMap
use rust_p2p_filesystem.Routing.KBucket.{KBucket}
use rust_p2p_filesystem.Routing.KBucket
use rust_p2p_filesystem.Routing.KBucket.Laws.{erase}
use rust_p2p_filesystem.Routing.Table.{
  RoutingTable, new, get_bucket_index, store_nodeinfo_multiple, get_all_nodeinfos,
}
use rust_p2p_filesystem.Routing.Table
use rust_p2p_filesystem.Routing.Table.Invariant.{IsTable}
use rust_p2p_filesystem.Routing.Table.Store.{store_nodeinfo_multiple-IsTable}
use rust_p2p_filesystem.Storage.Shards.{is_chunk_already_stored, path_of}
use rust_p2p_filesystem.Storage.Shards
use rust_p2p_filesystem.Handler.{
  NodeState, Handled, handle_received_request, handle_get_value, uploaded, handle_find_node_message,
  handle_find_value_message,
}
use rust_p2p_filesystem.Handler.Replies.{AllAnswer, handle_received_request-Answers}
use rust_p2p_filesystem.Handler.Progress.{
  handle_received_request-returns, handle_received_request-blocks,
}
use rust_p2p_filesystem.Handler.Unanswered.{own_key_unanswered, many_contacts_unanswered, IsJson}
use rust_p2p_filesystem.Tests.Data.{
  contact, silent, key_of, key_of-IsKey, memory, env, request, json_length,
}
use rust_p2p_filesystem.Tests.Tables.{fresh_table, fresh-IsTable, table_of}

-- A node with the given table, nothing pending and nothing stored.
unfoldable pub state : RoutingTable → NodeState memory env
unfolding memory
state t = record {
  info = contact 0;
  table = t;
  pending = RequestMap.new;
  storage = Shards.new;
  disk = [];
}

handle_received_request-Answers_example :
    AllAnswer memory env (contact 0) (request RequestType.ping) (
      handle_received_request memory env 0
        (some 9000)
        tt
        (request RequestType.ping)
        (state fresh_table))
unfolding state
handle_received_request-Answers_example =
    handle_received_request-Answers memory env 0 (some 9000) tt (request RequestType.ping)
      (state fresh_table)

abbrev misdirected : Request
misdirected = record (request RequestType.ping) { receiver = contact 1 }

abbrev first_byte : Key → ℕ
first_byte k = elim k.value [ [] ↦ 0 | b ∷ bs ↦ b ]

not_ours : misdirected.receiver.id ≢ (state fresh_table).info.id
unfolding state
not_ours e = absurd (omega (arith, ap first_byte e))

abbrev find : Request
find = request (RequestType.find_node (key_of 200))

state-IsTable : IsTable (state fresh_table).table
unfolding state
state-IsTable = fresh-IsTable

sender_bucket : get_bucket_index (state fresh_table).table find.sender.id ≡ ok 159
unfolding state get_bucket_index Key.leading_zeros_in_distance Key.count_zeros Key.distance
    Key.xor_bytes new Byte.clz8
sender_bucket = refl

empty_bucket : get_elem? (state fresh_table).table.buckets 159 ≡ some (KBucket.new 0)
unfolding state new
empty_bucket = refl

bucket_room : length (erase find.sender.id (KBucket.new 0).nodes) < (KBucket.new 0).capacity
unfolding KBucket.new erase
bucket_room = omega arith

-- A node that has the data of the chunk 77, and a request for them.
unfoldable serving : NodeState memory env
unfolding state memory
serving = record (state fresh_table) { disk = (path_of (key_of 77), 10 ∷ 20 ∷ []) ∷ [] }

abbrev get : Request
get = request (RequestType.get_value (key_of 77) 9000)

get-uploaded :
    handle_get_value memory env (key_of 77) 9000 serving get
    ≡ done (serving, uploaded 1 9000 (10 ∷ 20 ∷ []) ∷ [])
unfolding serving handle_get_value memory Base.list_beq Key.to_hex_string Key.hex_digit
get-uploaded = refl

ours_serving : get.receiver.id ≡ serving.info.id
unfolding serving
ours_serving = refl

serving-IsTable : IsTable serving.table
unfolding serving
serving-IsTable = state-IsTable

serving_bucket : get_bucket_index serving.table get.sender.id ≡ ok 159
unfolding serving
serving_bucket = sender_bucket

serving_empty : get_elem? serving.table.buckets 159 ≡ some (KBucket.new 0)
unfolding serving
serving_empty = empty_bucket

handle_received_request-returns_example :
    (h : Handled memory env) × (handle_received_request memory env 0 (some 9000) tt get serving
      ≡ done h)
handle_received_request-returns_example =
    handle_received_request-returns memory env 0 (some 9000) tt get serving ours_serving 159
      (KBucket.new 0) serving-IsTable (key_of-IsKey 128 (omega arith)) (λ bytes h. (true, refl))
      serving_bucket serving_empty bucket_room

-- The bucket of the sender is full with two nodes.
abbrev full_bucket : KBucket
full_bucket = record { nodes = contact 129 ∷ contact 130 ∷ []; capacity = 2; last_lookup_at = 0 }

unfoldable full_table : RoutingTable
unfolding new
full_table = record fresh_table { buckets = set fresh_table.buckets 159 full_bucket }

ours_too : find.receiver.id ≡ (state full_table).info.id
unfolding state
ours_too = refl

full_index : get_bucket_index (state full_table).table find.sender.id ≡ ok 159
unfolding state get_bucket_index Key.leading_zeros_in_distance Key.count_zeros Key.distance
    Key.xor_bytes full_table Byte.clz8
full_index = refl

full_there : get_elem? (state full_table).table.buckets 159 ≡ some full_bucket
unfolding state full_table
full_there = refl

sender_unknown : KBucket.get_nodeinfo find.sender.id full_bucket ≡ none
unfolding KBucket.get_nodeinfo Key.key_beq Base.list_beq
sender_unknown = refl

handle_received_request-blocks_example :
    handle_received_request memory env 0 (some 9000) tt find (state full_table) ≡ blocked
handle_received_request-blocks_example =
    handle_received_request-blocks memory env 0 (some 9000) tt find (state full_table) ours_too 159
      full_bucket (contact 129) (contact 130 ∷ []) full_index full_there refl (omega arith)
      sender_unknown

own-IsKey : IsKey (state fresh_table).table.id
unfolding state new
own-IsKey = key_of-IsKey 0 (omega arith)

own_unstored :
    is_chunk_already_stored (state fresh_table).table.id (state fresh_table).storage ≡ false
unfolding state is_chunk_already_stored Shards.new
own_unstored = refl

own_key_unanswered_example :
    (handle_find_node_message memory env (state fresh_table).table.id (state fresh_table) find
      ≡ done (state fresh_table, []))
    × (handle_find_value_message memory env (state fresh_table).table.id (state fresh_table) find
        ≡ done (state fresh_table, []))
own_key_unanswered_example =
    own_key_unanswered memory env (state fresh_table) find own-IsKey own_unstored

abbrev nineteen : List NodeInfo
nineteen =
    contact 128
    ∷ contact 129
    ∷ contact 130
    ∷ contact 131
    ∷ contact 132
    ∷ contact 133
    ∷ contact 134
    ∷ contact 135
    ∷ contact 136
    ∷ contact 137
    ∷ contact 138
    ∷ contact 139
    ∷ contact 140
    ∷ contact 141
    ∷ contact 142
    ∷ contact 143
    ∷ contact 144
    ∷ contact 145
    ∷ contact 146
    ∷ []

unfoldable crowded_table : RoutingTable
unfolding new store_nodeinfo_multiple table_of
crowded_table = table_of (store_nodeinfo_multiple silent nineteen fresh_table)

crowded-IsTable : IsTable (state crowded_table).table
unfolding crowded_table new table_of state store_nodeinfo_multiple Table.store_nodeinfo
    Table.put_back get_bucket_index Key.leading_zeros_in_distance Key.count_zeros Key.distance
    Key.xor_bytes Byte.clz8 KBucket.new KBucket.add_nodeinfo KBucket.remove_nodeinfo Key.key_beq
    Base.list_beq
crowded-IsTable =
    (store_nodeinfo_multiple-IsTable silent nineteen fresh_table
      (
        key_of-IsKey 128 (omega arith),
        (
          key_of-IsKey 129 (omega arith),
          (
            key_of-IsKey 130 (omega arith),
            (
              key_of-IsKey 131 (omega arith),
              (
                key_of-IsKey 132 (omega arith),
                (
                  key_of-IsKey 133 (omega arith),
                  (
                    key_of-IsKey 134 (omega arith),
                    (
                      key_of-IsKey 135 (omega arith),
                      (
                        key_of-IsKey 136 (omega arith),
                        (
                          key_of-IsKey 137 (omega arith),
                          (
                            key_of-IsKey 138 (omega arith),
                            (
                              key_of-IsKey 139 (omega arith),
                              (
                                key_of-IsKey 140 (omega arith),
                                (
                                  key_of-IsKey 141 (omega arith),
                                  (
                                    key_of-IsKey 142 (omega arith),
                                    (
                                      key_of-IsKey 143 (omega arith),
                                      (
                                        key_of-IsKey 144 (omega arith),
                                        (
                                          key_of-IsKey 145 (omega arith),
                                          (key_of-IsKey 146 (omega arith), tt),
                                        ),
                                      ),
                                    ),
                                  ),
                                ),
                              ),
                            ),
                          ),
                        ),
                      ),
                    ),
                  ),
                ),
              ),
            ),
          ),
        ),
      )
      fresh-IsTable).0

crowded : 19 ≤ length (get_all_nodeinfos (state crowded_table).table)
unfolding crowded_table get_all_nodeinfos state rust_p2p_filesystem.Routing.Table.store_nodeinfo
    get_bucket_index Key.leading_zeros_in_distance Key.count_zeros Key.distance Key.xor_bytes
    Byte.clz8 KBucket.add_nodeinfo Key.key_beq Base.list_beq
crowded = omega arith

env-IsJson : IsJson memory env
env-IsJson r ns len is_nodes has_length = ground (arith, ap (json_length) is_nodes)

many_contacts_unanswered_example :
    handle_find_node_message memory env (key_of 200) (state crowded_table) find
    ≡ done (state crowded_table, [])
many_contacts_unanswered_example =
    many_contacts_unanswered memory env (key_of 200) (state crowded_table) find env-IsJson
      crowded-IsTable (key_of-IsKey 200 (omega arith)) crowded
