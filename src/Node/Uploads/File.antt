-- ===== src/Node/Uploads/File.antt =====
-- The loop of `upload_file` of src/core/node.rs over the chunks of a file, and the call as a whole.
-- The size of a chunk is a parameter, as for the uploader; fuel bounds the rounds.
pub mod Loop
pub mod Success
use rust_p2p_filesystem.Base.{ℕ, zero, suc, Bool, not, List, Option, none, some, if◌then◌else◌}
use rust_p2p_filesystem.Base.Outcome.{Result, ok, err, Task, done, panicked, blocked, ◌>>=◌}
use rust_p2p_filesystem.Key.{Key}
use rust_p2p_filesystem.Networking.NodeInfo.{NodeInfo}
use rust_p2p_filesystem.Networking.Messages.{Response, RequestType}
use rust_p2p_filesystem.Routing.KBucket.{NodeError}
use rust_p2p_filesystem.Routing.Table.{RoutingTable, Ping}
use rust_p2p_filesystem.Storage.Files.{FileManager, add_file_uploaded_entry}
use rust_p2p_filesystem.Sharding.Encryption.{Cipher}
use rust_p2p_filesystem.Sharding.Metadata.{ShardingError, Chunk, FileMetadata}
use rust_p2p_filesystem.Sharding.Uploader
use rust_p2p_filesystem.Sharding.Uploader.{
  Reader, Paths, FileUploader, Draw, Next, get_next_chunk_encrypt, get_metadata,
}
use rust_p2p_filesystem.Node.Uploads.{
  UploadError, nonexistent_file, sharding_failed, Left, upload_chunk,
}

-- What the calls of a node rely on: answers of other nodes, TCP connections, random bytes, and the
-- ping of the routing table.
pub record Network (W : Type 0) : Type 0 where
  pub ask : NodeInfo → RequestType → W → Result NodeError Response × W
  pub connect : ℕ → ℕ → List ℕ → W → Bool × W
  pub draw : W → Draw
  pub ping : Ping

module _ {R W : Type 0} (net : Network W) (reader : Reader R) (cipher : Cipher)
    (sha1 : List ℕ → List ℕ) (padded_size lookup_fuel now : ℕ) (this_node : NodeInfo) where
  abbrev pub Uploading : Type 0
  Uploading = Task (Left net.ask (FileUploader R))

  -- After the upload of a chunk.
  unfoldable pub go_on :
      (FileUploader R → RoutingTable → W → Uploading)
      → FileUploader R
      → Left net.ask Unit
      → Uploading
  go_on next_round u none = done none
  go_on next_round u (some (t, err e, w)) = done (some (t, err e, w))
  go_on next_round u (some (t, ok _, w)) = next_round u t w

  -- A round of the loop, from the next chunk on.
  unfoldable pub upload_next :
      (FileUploader R → RoutingTable → W → Uploading) → RoutingTable → W → Next R → Uploading
  unfolding upload_chunk go_on
  upload_next next_round t w (err e, u) = done (some (t, err (sharding_failed e), w))
  upload_next next_round t w (ok none, u) = done (some (t, ok u, w))
  upload_next next_round t w (ok (some chunk), u) = do
    left ← upload_chunk net.ask net.connect lookup_fuel now net.ping this_node chunk t w
    go_on next_round u left

  unfoldable pub upload_chunks : ℕ → FileUploader R → RoutingTable → W → Uploading
  unfolding get_next_chunk_encrypt upload_next
  upload_chunks zero u t w = done none
  upload_chunks (suc fuel) u t w = do
    next ← get_next_chunk_encrypt cipher sha1 padded_size reader (net.draw w) u
    upload_next (upload_chunks fuel) t w next

  -- The manager of the uploaded files, the table, the result and the world.
  abbrev pub Uploaded : Type 0
  Uploaded = Option (FileManager × RoutingTable × Result UploadError FileMetadata × W)

  unfoldable pub shown : Result ShardingError FileMetadata → Result UploadError FileMetadata
  shown (err e) = err (sharding_failed e)
  shown (ok metadata) = ok metadata

  -- After the loop.
  unfoldable pub finish_upload : List ℕ → FileManager → Left net.ask (FileUploader R) → Uploaded
  unfolding add_file_uploaded_entry get_metadata shown
  finish_upload file_path files none = none
  finish_upload file_path files (some (t, err e, w)) = some (files, t, err e, w)
  finish_upload file_path files (some (t, ok u, w)) =
      some (add_file_uploaded_entry now file_path files, t, shown (get_metadata reader u), w)

  unfoldable pub upload_from :
      ℕ
      → List ℕ
      → FileManager
      → RoutingTable
      → W
      → Result ShardingError (FileUploader R)
      → Task Uploaded
  unfolding upload_chunks finish_upload
  upload_from fuel file_path files t w (err e) = done (some (files, t, err (sharding_failed e), w))
  upload_from fuel file_path files t w (ok u) = do
    left ← upload_chunks fuel u t w
    done (finish_upload file_path files left)

  -- `random` generates the key of the file.
  unfoldable pub upload_file :
      ℕ → Paths R → (ℕ → ℕ) → List ℕ → FileManager → RoutingTable → W → Task Uploaded
  unfolding Uploader.new upload_from
  upload_file fuel paths random file_path files t w =
      if not (paths.exists file_path) then done (some (files, t, err nonexistent_file, w)) else (do
        uploader ← Uploader.new paths random file_path
        upload_from fuel file_path files t w uploader)
