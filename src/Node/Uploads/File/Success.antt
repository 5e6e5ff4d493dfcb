-- ===== src/Node/Uploads/File/Success.antt =====
-- What a successful call of `upload_file` of src/core/node.rs has done.
use rust_p2p_filesystem.Base.{ℕ, ◌≡◌, refl, sym, ap, inl, inr, List, none, some, Bool-cases}
use rust_p2p_filesystem.Base.Outcome.{Result, ok, err, Task, done, panicked, blocked, ◌>>=◌}
use rust_p2p_filesystem.Constants.{max_file_size_mb}
use rust_p2p_filesystem.Networking.NodeInfo.{NodeInfo}
use rust_p2p_filesystem.Routing.Table.{RoutingTable}
use rust_p2p_filesystem.Storage.Files.{FileManager, add_file_uploaded_entry}
use rust_p2p_filesystem.Sharding.Encryption.{Cipher}
use rust_p2p_filesystem.Sharding.Metadata.{ShardingError, FileMetadata}
use rust_p2p_filesystem.Sharding.Uploader
use rust_p2p_filesystem.Sharding.Uploader.{
  Reader, Paths, FileUploader, new_with_max_file_size, get_metadata,
}
use rust_p2p_filesystem.Node.Uploads.{Left, UploadError}
use rust_p2p_filesystem.Node.Uploads.File.{
  Network, Uploaded, shown, finish_upload, upload_from, upload_file, upload_chunks,
}
use rust_p2p_filesystem.Node.Uploads.File.Loop.{AllSent, upload_chunks-AllSent}

module _ {R W : Type 0} (net : Network W) (reader : Reader R) (cipher : Cipher)
    (sha1 : List ℕ → List ℕ) (size lookup_fuel now : ℕ) (this_node : NodeInfo) where
  -- The uploader from its start to its end, the chunks that were sent, and what is returned.
  pub record IsUploaded (paths : Paths R) (random : ℕ → ℕ) (path : List ℕ)
      (files files' : FileManager) (metadata : FileMetadata) : Type 0 where
    pub start : FileUploader R
    pub end : FileUploader R
    pub made : new_with_max_file_size paths random path max_file_size_mb ≡ done (ok start)
    pub all_sent : AllSent net reader cipher sha1 size lookup_fuel now this_node start end
    pub handed_out : get_metadata reader end ≡ ok metadata
    pub recorded : files' ≡ add_file_uploaded_entry now path files

  module _ (fuel : ℕ) (paths : Paths R) (random : ℕ → ℕ) (path : List ℕ)
      (files files' : FileManager) (t t' : RoutingTable) (w w' : W) (metadata : FileMetadata) where
    abbrev Goal : Type 0
    Goal = IsUploaded paths random path files files' metadata

    abbrev finished :
        Left net.ask (FileUploader R)
        → Uploaded {R = R} net reader cipher sha1 size lookup_fuel now this_node
    finished = finish_upload net reader cipher sha1 size lookup_fuel now this_node path files

    abbrev files_of :
        Task (Uploaded {R = R} net reader cipher sha1 size lookup_fuel now this_node) → FileManager
    files_of (done (some (f, t, r, w))) = f
    files_of _ = files'

    abbrev result_of :
        Task (Uploaded {R = R} net reader cipher sha1 size lookup_fuel now this_node)
        → Result UploadError FileMetadata
    result_of (done (some (f, t, r, w))) = r
    result_of _ = ok metadata

    shown_ok :
        (r : Result ShardingError FileMetadata)
        → shown {R = R} net reader cipher sha1 size lookup_fuel now this_node r ≡ ok metadata
        → r ≡ ok metadata
    unfolding shown
    shown_ok (ok m) h = ap (λ x. elim x [ ok y ↦ ok y | err e ↦ ok metadata ]) h
    shown_ok (err e) h = absurd (cc)

    finish_upload-IsUploaded :
        (u : FileUploader R)
        → new_with_max_file_size paths random path max_file_size_mb ≡ done (ok u)
        → (left : Task (Left net.ask (FileUploader R)))
        → upload_chunks net reader cipher sha1 size lookup_fuel now this_node fuel u t w ≡ left
        → (do l ← left; done (finished l)) ≡ done (some (files', t', ok metadata, w'))
        → Goal
    unfolding finish_upload
    finish_upload-IsUploaded u made panicked e h = absurd (cc)
    finish_upload-IsUploaded u made blocked e h = absurd (cc)
    finish_upload-IsUploaded u made (done none) e h = absurd (cc)
    finish_upload-IsUploaded u made (done (some (t₁, err r, w₁))) e h = absurd (cc)
    finish_upload-IsUploaded u made (done (some (t₁, ok v, w₁))) e h = record {
      start = u;
      end = v;
      made = made;
      all_sent =
          upload_chunks-AllSent net reader cipher sha1 size lookup_fuel now this_node fuel u v t t₁
            w w₁ e;
      handed_out = shown_ok (get_metadata reader v) (ap result_of h);
      recorded = sym (ap files_of h);
    }

    upload_from-IsUploaded :
        (made : Task (Result ShardingError (FileUploader R)))
        → new_with_max_file_size paths random path max_file_size_mb ≡ made
        → (do
          m ← made
          upload_from net reader cipher sha1 size lookup_fuel now this_node fuel path files t w m)
          ≡ done (some (files', t', ok metadata, w'))
        → Goal
    unfolding upload_from
    upload_from-IsUploaded panicked e h = absurd (cc)
    upload_from-IsUploaded blocked e h = absurd (cc)
    upload_from-IsUploaded (done (err r)) e h = absurd (cc)
    upload_from-IsUploaded (done (ok u)) e h = finish_upload-IsUploaded u e _ refl h

    -- If `upload_file` returns metadata, then an uploader was made for the file, it was read to its
    -- end in a run of chunks, every one of them was taken by a TCP connection at some moment, the
    -- metadata is that of the uploader at its end, and the file is recorded as uploaded now.
    pub upload_file-IsUploaded :
        upload_file net reader cipher sha1 size lookup_fuel now this_node fuel paths random path
            files t w
          ≡ done (some (files', t', ok metadata, w'))
        → Goal
    unfolding upload_file Uploader.new
    upload_file-IsUploaded h = elim (Bool-cases (paths.exists path)) [
      | inl there ↦ upload_from-IsUploaded _ refl (rw there at h)
      | inr missing ↦ absurd (cc (rw missing at h))
    ]
