-- ===== src/Node/Uploads/File/Loop.antt =====
-- The loop of `upload_file` of src/core/node.rs: how it ends, and what it has done then.
use rust_p2p_filesystem.Base.{
  ℕ, zero, suc, ◌<◌, ◌≡◌, refl, ap, ◌∙◌, length-append, List, [], ◌∷◌, none, some, arith, All,
  length,
}
use rust_p2p_filesystem.Base.Outcome.{ok, err, Task, done, panicked, blocked, ◌>>=◌}
use rust_p2p_filesystem.Networking.NodeInfo.{NodeInfo}
use rust_p2p_filesystem.Routing.Table.{RoutingTable}
use rust_p2p_filesystem.Sharding.Encryption.{Cipher}
use rust_p2p_filesystem.Sharding.Metadata.{Chunk}
use rust_p2p_filesystem.Sharding.Uploader.{Reader, FileUploader, Next, get_next_chunk_encrypt}
use rust_p2p_filesystem.Sharding.Uploader.Laws.{IsReader, get_next_chunk_encrypt-Cut}
use rust_p2p_filesystem.Sharding.Reassembly.{Cuts, cut_end, cut_more}
use rust_p2p_filesystem.Node.Uploads.{Left, upload_chunk}
use rust_p2p_filesystem.Node.Uploads.Sent.{IsSent, upload_chunk-IsSent}
use rust_p2p_filesystem.Node.Uploads.File.{Network, go_on, upload_next, upload_chunks}

module _ {R W : Type 0} (net : Network W) (reader : Reader R) (cipher : Cipher)
    (sha1 : List ℕ → List ℕ) (size lookup_fuel now : ℕ) (this_node : NodeInfo) where
  -- The chunks of a loop from one uploader to another, each of which was sent.
  abbrev pub AllSent : FileUploader R → FileUploader R → Type 0
  AllSent u u' =
      (chunks : List Chunk) × Cuts cipher sha1 size reader u chunks u'
      × All (IsSent net.ask net.connect) chunks

  abbrev uploader_of : FileUploader R → Task (Left net.ask (FileUploader R)) → FileUploader R
  uploader_of u (done (some (t, ok v, w))) = v
  uploader_of u _ = u

  -- The upload of a chunk, with its lookup, ran out of fuel.
  abbrev pub Spent : Type 0
  Spent =
      (chunk : Chunk) × (t : RoutingTable) × (w : W) × (upload_chunk net.ask net.connect lookup_fuel
          now net.ping this_node chunk t w
        ≡ done none)

  -- A round whose next rounds are those of `k`.
  module _ (k : FileUploader R → RoutingTable → W → Task (Left net.ask (FileUploader R)))
      (u : FileUploader R) (t : RoutingTable) (w : W) where
    abbrev Round : Next R → Task (Left net.ask (FileUploader R))
    Round n = upload_next net reader cipher sha1 size lookup_fuel now this_node k t w n

    abbrev After : FileUploader R → Left net.ask Unit → Task (Left net.ask (FileUploader R))
    After v left = go_on net reader cipher sha1 size lookup_fuel now this_node k v left

    abbrev upload : Chunk → Task (Left net.ask Unit)
    upload chunk = upload_chunk net.ask net.connect lookup_fuel now net.ping this_node chunk t w

    abbrev next : Task (Next R)
    next = get_next_chunk_encrypt cipher sha1 size reader (net.draw w) u

    module _ {u' : FileUploader R} {t' : RoutingTable} {w' : W}
        (ih : (v : FileUploader R) (t₁ : RoutingTable) (w₁ : W)
          → k v t₁ w₁ ≡ done (some (t', ok u', w'))
          → AllSent v u') where
      go_on-AllSent :
          (chunk : Chunk) (v : FileUploader R) (left : Task (Left net.ask Unit))
          → upload chunk ≡ left
          → next ≡ done (ok (some chunk), v)
          → (do l ← left; After v l) ≡ done (some (t', ok u', w'))
          → AllSent u u'
      unfolding go_on
      go_on-AllSent chunk v panicked e g q = absurd (cc)
      go_on-AllSent chunk v blocked e g q = absurd (cc)
      go_on-AllSent chunk v (done none) e g q = absurd (cc)
      go_on-AllSent chunk v (done (some (t₁, err r, w₁))) e g q = absurd (cc)
      go_on-AllSent chunk v (done (some (t₁, ok x, w₁))) e g q =
          let (chunks, cuts, sent) = ih v t₁ w₁ q in
          (
            chunk ∷ chunks,
            cut_more (net.draw w) g cuts,
            (
              upload_chunk-IsSent net.ask net.connect lookup_fuel now net.ping this_node chunk t t₁
                  w w₁ e,
              sent,
            ),
          )

      upload_next-AllSent :
          (n : Task (Next R))
          → next ≡ n
          → (do m ← n; Round m) ≡ done (some (t', ok u', w'))
          → AllSent u u'
      unfolding upload_next
      upload_next-AllSent panicked e q = absurd (cc)
      upload_next-AllSent blocked e q = absurd (cc)
      upload_next-AllSent (done (err r, v)) e q = absurd (cc)
      upload_next-AllSent (done (ok none, v)) e q =
          ([], cut_end (net.draw w) (e ∙ ap (λ x. done (ok none, x)) (ap (uploader_of u) q)), tt)
      upload_next-AllSent (done (ok (some chunk), v)) e q = go_on-AllSent chunk v _ refl e q

    go_on_end :
        (chunk : Chunk) (v : FileUploader R) (left : Task (Left net.ask Unit))
        → upload chunk ≡ left
        → ((t₁ : RoutingTable) (w₁ : W) → k v t₁ w₁ ≡ done none → Spent)
        → (do l ← left; After v l) ≡ done none
        → Spent
    unfolding go_on
    go_on_end chunk v panicked e ih q = absurd (cc)
    go_on_end chunk v blocked e ih q = absurd (cc)
    go_on_end chunk v (done none) e ih q = (chunk, t, w, e)
    go_on_end chunk v (done (some (t₁, err r, w₁))) e ih q = absurd (cc)
    go_on_end chunk v (done (some (t₁, ok x, w₁))) e ih q = ih t₁ w₁ q

    upload_next_end :
        (n : Task (Next R))
        → ((chunk : Chunk) (v : FileUploader R)
            → n ≡ done (ok (some chunk), v)
            → (t₁ : RoutingTable) (w₁ : W) → k v t₁ w₁ ≡ done none
            → Spent)
        → (do m ← n; Round m) ≡ done none
        → Spent
    unfolding upload_next
    upload_next_end panicked ih q = absurd (cc)
    upload_next_end blocked ih q = absurd (cc)
    upload_next_end (done (err r, v)) ih q = absurd (cc)
    upload_next_end (done (ok none, v)) ih q = absurd (cc)
    upload_next_end (done (ok (some chunk), v)) ih q =
        go_on_end chunk v (upload chunk) refl (ih chunk v refl) q

  pub upload_chunks-AllSent :
      (fuel : ℕ) (u u' : FileUploader R) (t t' : RoutingTable) (w w' : W)
      → upload_chunks net reader cipher sha1 size lookup_fuel now this_node fuel u t w
        ≡ done (some (t', ok u', w'))
      → AllSent u u'
  unfolding upload_chunks
  upload_chunks-AllSent zero u u' t t' w w' h = absurd (cc)
  upload_chunks-AllSent (suc fuel) u u' t t' w w' h =
      upload_next-AllSent _ u t w (λ v t₁ w₁ q. upload_chunks-AllSent fuel v u' t₁ t' w₁ w' q) _
        refl h

  -- With a reader that keeps what is documented of it and fuel for more rounds than the file has
  -- bytes left, the loop of `upload_file` runs out of fuel only if the lookup for some chunk ran
  -- out of its own.
  pub upload_chunks_end :
      (rest : R → List ℕ)
      → IsReader reader rest
      → 0 < size
      → (fuel : ℕ) (u : FileUploader R) (t : RoutingTable) (w : W)
      → length (rest u.file_reader) < fuel
      → upload_chunks net reader cipher sha1 size lookup_fuel now this_node fuel u t w ≡ done none
      → Spent
  unfolding upload_chunks
  upload_chunks_end rest reads positive zero u t w h q = absurd (omega arith)
  upload_chunks_end rest reads positive (suc fuel) u t w h q =
      upload_next_end _ u t w _
        (λ chunk v e.
          let cut = get_next_chunk_encrypt-Cut reader cipher sha1 size (net.draw w) u v chunk e in
          let read =
            (reads.reads size u.file_reader v.file_reader cut.bytes positive cut.was_read).0 in
          let longer = ap length read ∙ length-append cut.bytes (rest v.file_reader) in
          let some_read = cut.some_read in
          λ t₁ w₁. upload_chunks_end rest reads positive fuel v t₁ w₁ (omega arith))
        q
