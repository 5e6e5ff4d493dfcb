-- ===== src/Tests/App.antt =====
-- The theorems about the start of a node and about its workers.
use rust_p2p_filesystem.Base.{
  ℕ, ◌≡◌, refl, ap, Bool, true, false, List, [], ◌∷◌, Option, none, some, arith, subst,
}
use rust_p2p_filesystem.Base.Outcome.{ok, Task, done}
use rust_p2p_filesystem.Key.{Key, IsKey}
use rust_p2p_filesystem.Networking.Messages.{Request, Response, RequestType, ResponseType}
use rust_p2p_filesystem.App.Config.{Config, ConfigFiles, parse_from_file, loopback_ip}
use rust_p2p_filesystem.App.Complete.{IsComplete, parse_from_file-IsComplete}
use rust_p2p_filesystem.Handler.{NodeState, Handled, Effect}
use rust_p2p_filesystem.Handler.Worker.{Parser, Moment, process_queue}
use rust_p2p_filesystem.Handler.Worker.Invariant.{IsKept, process_queue-IsKept}
use rust_p2p_filesystem.Tests.Data.{contact, key_of, key_of-IsKey, memory, env, request}
use rust_p2p_filesystem.Tests.Tables.{fresh_table, fresh-IsTable}
use rust_p2p_filesystem.Tests.Handlers.{state}

abbrev stored_config : Config
stored_config = record {
  beacon_node_address = some (contact 4).address;
  beacon_node_key = some (key_of 4);
  node_port = none;
  ip_address_type = loopback_ip;
  cache_file_path = none;
  storage_path = 5 ∷ [];
}

abbrev config_files : ConfigFiles
config_files = record {
  open_file = λ path. some path;
  from_reader = λ text. some stored_config;
  exists = λ path. false;
  create_dir_all = λ path. true;
}

parsed :
    parse_from_file config_files (7 ∷ []) false none
    ≡ ok (record stored_config { node_port = some 0 })
unfolding parse_from_file
parsed = refl

parse_from_file-IsComplete_example : IsComplete false (record stored_config { node_port = some 0 })
parse_from_file-IsComplete_example =
    parse_from_file-IsComplete config_files (7 ∷ []) false none
      (record stored_config { node_port = some 0 }) parsed

-- A byte is a request of a node, and no byte is a response.
abbrev request_read : List ℕ → Option Request
request_read [] = none
request_read (b ∷ bytes) = some (request RequestType.ping)

abbrev response_read : List ℕ → Option Response
response_read (b ∷ bytes) = none
response_read [] = some (record {
  response_type = ResponseType.pong;
  sender = contact 128;
  receiver = contact 0;
  request_id = 5;
})

abbrev parser : Parser
parser = record { response_of = response_read; request_of = request_read }

request_of : Request → Option Request → Request
request_of d (some r) = r
request_of d none = d

parser-IsKey :
    (message : List ℕ) (r : Request) → parser.request_of message ≡ some r → IsKey r.sender.id
unfolding request_of
parser-IsKey [] r h = absurd (cc)
parser-IsKey (b ∷ bytes) r h =
    subst (λ (q : Request). IsKey q.sender.id) (ap (request_of r) h)
      (key_of-IsKey 128 (omega arith))

abbrev queue : List (Moment (Unit {0}) × List ℕ)
queue =
    (record { now = 7; listener = none; world = tt }, 1 ∷ [])
    ∷ (record { now = 8; listener = none; world = tt }, [])
    ∷ []

abbrev run : Task (Handled memory env)
run = process_queue memory env parser queue (state fresh_table)

abbrev state_after : Task (Handled memory env) → NodeState memory env
state_after (done (s, effects)) = s
state_after _ = state fresh_table

abbrev effects_after : Task (Handled memory env) → List Effect
effects_after (done (s, effects)) = effects
effects_after _ = []

run_done : run ≡ done (state_after run, effects_after run)
unfolding process_queue rust_p2p_filesystem.Base.list_beq rust_p2p_filesystem.Key.Byte.clz8
    rust_p2p_filesystem.Key.count_zeros rust_p2p_filesystem.Key.distance
    rust_p2p_filesystem.Key.key_beq rust_p2p_filesystem.Key.leading_zeros_in_distance
    rust_p2p_filesystem.Key.xor_bytes rust_p2p_filesystem.Routing.KBucket.add_nodeinfo
    rust_p2p_filesystem.Routing.Table.get_bucket_index rust_p2p_filesystem.Routing.Table.new state
run_done = refl

process_queue-IsKept_example : IsKept memory env (state fresh_table) (state_after run)
unfolding state
process_queue-IsKept_example =
    process_queue-IsKept memory env parser parser-IsKey queue (state fresh_table) (state_after run)
      (effects_after run) fresh-IsTable run_done
