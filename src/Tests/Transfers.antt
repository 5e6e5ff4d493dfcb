-- ===== src/Tests/Transfers.antt =====
-- The theorems about uploads and downloads: a file of six bytes in chunks of four, and a network in
-- which every node takes what it is sent.
use rust_p2p_filesystem.Base.{
  ℕ, zero, suc, ◌+◌, ◌<◌, ◌≤◌, ◌≡◌, ◌≢◌, refl, sym, ap, ◌⊎◌, Bool, true, false, List, [], ◌∷◌, ◌++◌,
  Option, none, some, arith, length, All, if◌then◌else◌, list_beq, nat_eq, ◌==◌, Bool-cases, inl,
  inr,
}
use rust_p2p_filesystem.Base
use rust_p2p_filesystem.Base.Outcome.{Result, ok, err, Task, done}
use rust_p2p_filesystem.Key
use rust_p2p_filesystem.Key.{Key, key_eq, to_hex_string}
use rust_p2p_filesystem.Networking.NodeInfo.{NodeInfo}
use rust_p2p_filesystem.Networking.Messages.{Response, RequestType, ResponseType}
use rust_p2p_filesystem.Routing.KBucket.{NodeError}
use rust_p2p_filesystem.Routing.Table.{RoutingTable, store_nodeinfo}
use rust_p2p_filesystem.Routing.Table
use rust_p2p_filesystem.Storage.Files.{FileManager}
use rust_p2p_filesystem.Storage.Files
use rust_p2p_filesystem.Storage.FileSystem.{FileSystem}
use rust_p2p_filesystem.Sharding.Metadata.{io}
use rust_p2p_filesystem.Sharding.Uploader
use rust_p2p_filesystem.Sharding.Downloader.{FileDownloader}
use rust_p2p_filesystem.Node.Uploads.{Left, upload_chunk, resolve_alpha_closest_nodes_to_key}
use rust_p2p_filesystem.Node.Lookups.{find_batches}
use rust_p2p_filesystem.Node.Uploads.Chosen.{IsChosen, resolve_alpha_closest_nodes_to_key-IsChosen}
use rust_p2p_filesystem.Node.Uploads.Refused.{upload_chunk_refused}
use rust_p2p_filesystem.Node.Uploads.File.{Network, Uploaded, upload_file, upload_chunks}
use rust_p2p_filesystem.Node.Uploads.File.Loop.{Spent, upload_chunks_end}
use rust_p2p_filesystem.Node.Uploads.File.Success.{IsUploaded, upload_file-IsUploaded}
use rust_p2p_filesystem.Node.Downloads.{
  chunk_keys, download_chunk_from_storer, sharding_failed, download_file,
}
use rust_p2p_filesystem.Node.Downloads.Whole.{Serve, download_file-Cuts}
use rust_p2p_filesystem.Tests.Data.{silent}
use rust_p2p_filesystem.Routing.KBucket.{KBucket}
use rust_p2p_filesystem.Tests.Sharding.{
  file_reader, file_reader-IsReader, file_writer, file_writer-IsWriter, written, on_disk, Written,
  dirs, dirs_empty, near_key, plain, plain-IsCipher, paths, random, sha1, draw, content, first,
  last, first-new, chunks, content-Cuts, downloader, downloader-new, metadata-last, given,
  next_chunk, second,
}

abbrev near : ℕ → NodeInfo
near b = record { id = near_key b; address = record { ip = 1; port = 8000 + b } }

abbrev answer : RequestType → ResponseType
answer (RequestType.store k) = ResponseType.store_ok
answer (RequestType.get_port k) = ResponseType.port_ok 9000
answer (RequestType.find_node k) = ResponseType.nodes (near 10 ∷ [])
answer _ = ResponseType.pong

abbrev response : ResponseType → NodeInfo → Response
response t node = record { response_type = t; sender = node; receiver = near 8; request_id = 5 }

abbrev net : Network ℕ
net = record {
  ask = λ node request w. (ok (response (answer request) node), suc w);
  connect = λ ip port bytes w. (true, suc w);
  draw = λ w. draw;
  ping = silent;
}

abbrev bucket_of : List NodeInfo → KBucket
bucket_of ns = record { nodes = ns; capacity = 20; last_lookup_at = 0 }

-- A table with one contact, of the four buckets that the keys of the test lie in.
abbrev table : RoutingTable
table = record {
  id = near_key 8;
  buckets = bucket_of [] ∷ bucket_of (near 10 ∷ []) ∷ bucket_of [] ∷ bucket_of [] ∷ [];
}

abbrev run : Task (Uploaded net file_reader plain sha1 4 10 7 (near 8))
run =
    upload_file net file_reader plain sha1 4 10 7 (near 8) 5 paths random (7 ∷ []) Files.new table 0

abbrev files_of : Task (Uploaded net file_reader plain sha1 4 10 7 (near 8)) → FileManager
files_of (done (some (f, t, r, w))) = f
files_of _ = Files.new

abbrev left_table : Task (Uploaded net file_reader plain sha1 4 10 7 (near 8)) → RoutingTable
left_table (done (some (f, t, r, w))) = t
left_table _ = table

abbrev world_of : Task (Uploaded net file_reader plain sha1 4 10 7 (near 8)) → ℕ
world_of (done (some (f, t, r, w))) = w
world_of _ = 0

run_lem : run ≡ done (some (files_of run, left_table run, ok last.file_metadata, world_of run))
unfolding upload_file Base.drop Key.count_zeros Key.distance Key.key_beq
    Key.leading_zeros_in_distance Key.xor_bytes Table.get_bucket_index Table.nodes_at
    rust_p2p_filesystem.Base.Sort.insert rust_p2p_filesystem.Key.Byte.clz8
    rust_p2p_filesystem.Networking.NodeInfo.addr_beq
    rust_p2p_filesystem.Networking.NodeInfo.node_beq
    rust_p2p_filesystem.Routing.KBucket.add_nodeinfo
    rust_p2p_filesystem.Routing.KBucket.set_last_lookup_now
run_lem = refl

upload_file-IsUploaded_example :
    IsUploaded net file_reader plain sha1 4 10 7
      (near 8)
      paths
      random
      (7 ∷ [])
      Files.new
      (files_of run)
      last.file_metadata
upload_file-IsUploaded_example =
    upload_file-IsUploaded net file_reader plain sha1 4 10 7 (near 8) 5 paths random (7 ∷ [])
      Files.new (files_of run) table (left_table run) 0 (world_of run) last.file_metadata run_lem

-- Every node that is asked gives the data of the chunk with the key.
abbrev request : Key → NodeInfo → ℕ → Option (List ℕ) × ℕ
request k node w = elim (Key.key_beq k (given (next_chunk first)).hash) [
  | true ↦ (some (given (next_chunk first)).chunk_data, suc w)
  | false ↦ (some (given (next_chunk second)).chunk_data, suc w)
]

abbrev find_storer : Key → ℕ → Option NodeInfo × ℕ
find_storer k w = (some (near 10), suc w)

abbrev chosen : Task (Left net.ask (List Response))
chosen = resolve_alpha_closest_nodes_to_key net.ask 10 7 silent (near 8) (near_key 11) table 0

abbrev ready : Task (Left net.ask (List Response)) → List Response
ready (done (some (t, ok rs, w))) = rs
ready _ = []

abbrev chosen_table : Task (Left net.ask (List Response)) → RoutingTable
chosen_table (done (some (t, r, w))) = t
chosen_table _ = table

abbrev chosen_world : Task (Left net.ask (List Response)) → ℕ
chosen_world (done (some (t, r, w))) = w
chosen_world _ = 0

chosen_lem : chosen ≡ done (some (chosen_table chosen, ok (ready chosen), chosen_world chosen))
unfolding resolve_alpha_closest_nodes_to_key Key.count_zeros Key.distance Key.key_beq
    Key.leading_zeros_in_distance Key.xor_bytes Table.get_bucket_index Table.nodes_at
    rust_p2p_filesystem.Base.Sort.insert rust_p2p_filesystem.Key.Byte.clz8
    rust_p2p_filesystem.Networking.NodeInfo.addr_beq
    rust_p2p_filesystem.Networking.NodeInfo.node_beq
    rust_p2p_filesystem.Routing.KBucket.add_nodeinfo
    rust_p2p_filesystem.Routing.KBucket.set_last_lookup_now
chosen_lem = refl

resolve_alpha_closest_nodes_to_key-IsChosen_example : IsChosen net.ask (near_key 11) (ready chosen)
resolve_alpha_closest_nodes_to_key-IsChosen_example =
    resolve_alpha_closest_nodes_to_key-IsChosen net.ask 10 7 silent (near 8) (near_key 11) table
      (chosen_table chosen) 0 (chosen_world chosen) (ready chosen) chosen_lem

-- In this network every node has every chunk already.
abbrev full : NodeInfo → RequestType → ℕ → Result NodeError Response × ℕ
full node (RequestType.store k) w = (ok (response ResponseType.store_chunk_updated node), suc w)
full node request w = (ok (response (answer request) node), suc w)

response_of : Result NodeError Response → Response → Response
response_of (ok r) d = r
response_of (err e) d = d

upload_chunk_refused_example :
    upload_chunk full net.connect 10 7 silent (near 8) (given (next_chunk first)) table 0
    ≢ done (some (table, ok tt, 0))
unfolding response_of
upload_chunk_refused_example =
    upload_chunk_refused full net.connect 10 7 silent (near 8) (given (next_chunk first)) table
      table 0 0 (λ node w r e. sym (ap (λ a. (response_of a r).response_type) e))

-- Lookups with no fuel.
spent : upload_chunks net file_reader plain sha1 4 0 7 (near 8) 9 first table 0 ≡ done none
unfolding upload_chunks Key.count_zeros Key.distance Key.leading_zeros_in_distance Key.xor_bytes
    Table.get_bucket_index Table.nodes_at rust_p2p_filesystem.Base.Sort.insert
    rust_p2p_filesystem.Key.Byte.clz8 rust_p2p_filesystem.Routing.KBucket.set_last_lookup_now
    rust_p2p_filesystem.Sharding.Encryption.generate_key
spent = refl

upload_chunks_end_example : Spent net file_reader plain sha1 4 0 7 (near 8)
upload_chunks_end_example =
    upload_chunks_end net file_reader plain sha1 4 0 7 (near 8) (λ s. s) file_reader-IsReader
      (omega arith) 9 first table 0 (omega arith) spent

abbrev storers : List (Key × NodeInfo)
storers = (near_key 11, near 10) ∷ (near_key 15, near 10) ∷ []

found :
    find_batches find_storer
      (length (chunk_keys last.file_metadata))
      (chunk_keys last.file_metadata)
      0
    ≡ (some storers, 2)
unfolding find_batches Uploader.get_next_chunk_encrypt chunk_keys
    rust_p2p_filesystem.Sharding.Encryption.generate_key
found = refl

-- The disk of the node that downloads has no chunk.
unfoldable cabinet : FileSystem
cabinet = record {
  Disk = Unit {0};
  exists = λ p d. false;
  create = λ p d. (d, true);
  write_all = λ p bytes d. (d, true);
  read = λ p d. none;
  remove_file = λ p d. (d, true);
}

unfoldable disk : cabinet.Disk
unfolding cabinet
disk = tt

-- The storers give the chunks, one after the other.
served : Serve cabinet request (near 8) disk chunks storers 2
unfolding download_chunk_from_storer Base.drop Base.take Key.hex_digit Key.key_beq
    Uploader.get_next_chunk_encrypt cabinet list_beq
    rust_p2p_filesystem.Sharding.Encryption.generate_key
served = (refl, (refl, tt))

download_file-Cuts_example :
    ((w' : ℕ) × (download_file cabinet request
          (near 8)
          disk
          file_writer
          plain
          4
          find_storer
          dirs
          last.file_metadata
          (8 ∷ [])
          0
        ≡ done (err (sharding_failed io), w')))
    ⊎ ((d' : FileDownloader Written) × (w' : ℕ) × (download_file cabinet request
            (near 8)
            disk
            file_writer
            plain
            4
            find_storer
            dirs
            last.file_metadata
            (8 ∷ [])
            0
          ≡ done (ok d', w'))
        × (on_disk d'.file_writer ≡ content))
download_file-Cuts_example =
    download_file-Cuts file_reader (λ s. s) file_reader-IsReader file_writer written on_disk
      file_writer-IsWriter plain plain-IsCipher sha1 4 (omega arith) (omega arith) dirs dirs_empty
      cabinet request (near 8) disk find_storer paths random (7 ∷ []) 1 first last chunks
      last.file_metadata (8 ∷ []) downloader 0 2 storers first-new content-Cuts metadata-last
      downloader-new found served
