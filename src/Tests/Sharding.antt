-- ===== src/Tests/Sharding.antt =====
-- The theorems about sharding for a file of six bytes in chunks of four.
use rust_p2p_filesystem.Base.{
  ℕ, zero, suc, ◌<◌, ◌≡◌, refl, sym, ap, ap₂, ◌∙◌, ◌⊎◌, true, List, [], ◌∷◌, ◌++◌, Option, none,
  some, arith, length, take, drop, replicate, take-append-drop, length-take, length-append, nat_eq,
}
use rust_p2p_filesystem.Base.Outcome.{ok, err, Task, done}
use rust_p2p_filesystem.Key.{Key}
use rust_p2p_filesystem.Sharding.Encryption.{Cipher, IsCipher}
use rust_p2p_filesystem.Sharding.Encryption
use rust_p2p_filesystem.Sharding.Metadata.{io, empty_chunk, Chunk}
use rust_p2p_filesystem.Sharding.Uploader.{
  Reader, Paths, FileUploader, Draw, Next, get_next_chunk_encrypt, get_metadata,
  new_with_max_file_size,
}
use rust_p2p_filesystem.Sharding.Uploader
use rust_p2p_filesystem.Sharding.Uploader.Laws.{IsReader}
use rust_p2p_filesystem.Sharding.Downloader.{
  Writer, Directories, FileDownloader, store_next_chunk_decrypt,
}
use rust_p2p_filesystem.Sharding.Downloader
use rust_p2p_filesystem.Sharding.Downloader.Laws.{IsWriter, store_next_chunk_decrypt_failed}
use rust_p2p_filesystem.Sharding.Reassembly.{Cuts, cut_end, cut_more, store_chunks, download-upload}

abbrev pub file_reader : Reader (List ℕ)
file_reader = record { read = λ n s. (some (take n s), drop n s); fill_buf = λ s. some s }

take_end : (n : ℕ) (s : List ℕ) → 0 < n → take n s ≡ [] → s ≡ []
unfolding take
take_end zero s h e = absurd (omega arith)
take_end (suc n) [] h e = refl
take_end (suc n) (x ∷ xs) h e = absurd (cc)

abbrev part : Option (List ℕ) × List ℕ → List ℕ
part (some bytes, s) = bytes
part (none, s) = []

pub file_reader-IsReader : IsReader file_reader (λ s. s)
file_reader-IsReader = record {
  reads = λ n s s' bytes h e.
      let took : take n s ≡ bytes = ap part e in
      let left : drop n s ≡ s' = ap (λ p. p.1) e in
      (
        sym (take-append-drop n s) ∙ ap₂ ◌++◌ took left,
        omega (arith, length-take n s, ap length took),
      );
  ends = λ n s s' h e. take_end n s h (ap part e);
}

abbrev pub tag : List ℕ
tag = replicate 16 0

-- A cipher that only puts a tag in front.
abbrev pub plain : Cipher
plain = record {
  encrypt = λ key nonce text. some (tag ++ text);
  decrypt = λ key nonce sealed. some (drop 16 sealed);
}

abbrev bytes_of : Option (List ℕ) → List ℕ
bytes_of (some bytes) = bytes
bytes_of none = []

pub plain-IsCipher : IsCipher plain
unfolding replicate drop
plain-IsCipher = record {
  decrypts = λ key nonce text sealed e. ap (λ l. some (drop 16 (bytes_of l))) (sym e);
  tagged = λ key nonce text sealed e.
      let same : tag ++ text ≡ sealed = ap bytes_of e in
      omega (arith, ap length same, length-append tag text);
}

-- What was written, and what is on the disk.
abbrev pub Written : Type 0
Written = List ℕ × List ℕ

abbrev pub file_writer : Writer Written
file_writer = record {
  write_all = λ bytes f. some (f.0 ++ bytes, f.1);
  flush = λ f. some (f.0, f.0);
}

abbrev pub written : Written → List ℕ
written f = f.0

abbrev pub on_disk : Written → List ℕ
on_disk f = f.1

abbrev file_of : Written → Option Written → Written
file_of f (some g) = g
file_of f none = f

pub file_writer-IsWriter : IsWriter file_writer written on_disk
file_writer-IsWriter = record {
  writes = λ bytes f f' e. ap (λ o. written (file_of f o)) (sym e);
  flushes =
      λ f f' e. (ap (λ o. written (file_of f o)) (sym e), ap (λ o. on_disk (file_of f o)) (sym e));
}

abbrev pub dirs : Directories Written
dirs = record {
  create_dir_all = λ dir. true;
  create = λ name. some ([], []);
  join = λ dir name. dir ++ name;
}

pub dirs_empty :
    (name : List ℕ) (f : Written) → dirs.create name ≡ some f → (written f ≡ []) × (on_disk f ≡ [])
dirs_empty name f e =
    (ap (λ o. written (file_of f o)) (sym e), ap (λ o. on_disk (file_of f o)) (sym e))

abbrev pub content : List ℕ
content = 11 ∷ 12 ∷ 13 ∷ 14 ∷ 15 ∷ 16 ∷ []

abbrev pub paths : Paths (List ℕ)
paths = record {
  exists = λ p. true;
  open_file = λ p. some content;
  create = λ p. some [];
  file_len = λ s. some (length s);
  file_name = λ p. some p;
}

abbrev pub random : ℕ → ℕ
random n = n

-- A key of zeros but for its last byte.
abbrev pub near_key : ℕ → Key
near_key b = record {
  value = 0 ∷ 0 ∷ 0 ∷ 0 ∷ 0 ∷ 0 ∷ 0 ∷ 0 ∷ 0 ∷ 0 ∷ 0 ∷ 0 ∷ 0 ∷ 0 ∷ 0 ∷ 0 ∷ 0 ∷ 0 ∷ 0 ∷ b ∷ [];
}

-- The first byte stands for the input.
abbrev pub sha1 : List ℕ → List ℕ
sha1 (b ∷ bytes) = (near_key b).value
sha1 [] = (near_key 0).value

abbrev pub draw : Draw
draw = record { random = random; nonce = random }

abbrev pub first : FileUploader (List ℕ)
first = record {
  file_reader = content;
  file_metadata = record {
    name = 7 ∷ [];
    encryption_key = Encryption.generate_key random;
    chunks_metadata = [];
  };
  encryption_key = Encryption.generate_key random;
}

pub first-new : new_with_max_file_size paths random (7 ∷ []) 1 ≡ done (ok first)
unfolding new_with_max_file_size Uploader.named
first-new = refl

abbrev pub next_chunk : FileUploader (List ℕ) → Task (Next (List ℕ))
next_chunk u = get_next_chunk_encrypt plain sha1 4 file_reader draw u

abbrev pub left : Task (Next (List ℕ)) → FileUploader (List ℕ)
left (done (r, u)) = u
left _ = first

abbrev pub given : Task (Next (List ℕ)) → Chunk
given (done (ok (some chunk), u)) = chunk
given _ = record { chunk_data = []; hash = record { value = [] } }

abbrev pub second : FileUploader (List ℕ)
second = left (next_chunk first)

abbrev pub third : FileUploader (List ℕ)
third = left (next_chunk second)

abbrev pub last : FileUploader (List ℕ)
last = left (next_chunk third)

abbrev pub chunks : List Chunk
chunks = given (next_chunk first) ∷ given (next_chunk second) ∷ []

first-next : next_chunk first ≡ done (ok (some (given (next_chunk first))), second)
unfolding get_next_chunk_encrypt take Encryption.generate_key
first-next = refl

second-next : next_chunk second ≡ done (ok (some (given (next_chunk second))), third)
unfolding get_next_chunk_encrypt take Encryption.generate_key drop
second-next = refl

third-next : next_chunk third ≡ done (ok none, last)
unfolding get_next_chunk_encrypt take Encryption.generate_key drop
third-next = refl

pub content-Cuts : Cuts plain sha1 4 file_reader first chunks last
content-Cuts = cut_more draw first-next (cut_more draw second-next (cut_end draw third-next))

abbrev pub downloader : FileDownloader Written
downloader = record {
  file_writer = ([], []);
  file_metadata = last.file_metadata;
  chunk_index = 0;
  output_file_path = 8 ∷ 7 ∷ [];
}

pub metadata-last : get_metadata file_reader last ≡ ok last.file_metadata
unfolding get_metadata get_next_chunk_encrypt take Encryption.generate_key drop
metadata-last = refl

pub downloader-new : Downloader.new dirs last.file_metadata (8 ∷ []) ≡ ok downloader
unfolding Downloader.new get_next_chunk_encrypt take Encryption.generate_key drop
downloader-new = refl

download-upload_example :
    ((d' : FileDownloader Written) × (store_chunks file_writer plain 4 chunks downloader
        ≡ done (err io, d')))
    ⊎ ((d' : FileDownloader Written) × (store_chunks file_writer plain 4 chunks downloader
          ≡ done (ok tt, d'))
        × (on_disk d'.file_writer ≡ content))
download-upload_example =
    download-upload file_reader (λ s. s) file_reader-IsReader file_writer plain plain-IsCipher sha1
      4 (omega arith) (omega arith) written on_disk file_writer-IsWriter paths random (7 ∷ []) 1
      first last chunks last.file_metadata dirs (8 ∷ []) downloader dirs_empty first-new
      content-Cuts metadata-last downloader-new

abbrev no_data : Chunk
no_data = record { chunk_data = []; hash = record { value = [] } }

store_next_chunk_decrypt_failed_example : downloader ≡ downloader
unfolding store_next_chunk_decrypt
store_next_chunk_decrypt_failed_example =
    store_next_chunk_decrypt_failed file_writer 4 plain no_data downloader downloader empty_chunk
      (λ e. cc) refl
