-- ===== src/Sharding/Encryption.antt =====
-- src/sharding/encryption.rs. The cipher (crate aes_gcm) is a parameter; a fresh nonce is an
-- argument (what the generator gives). A key or a nonce of a wrong length panics in `from_slice`.
use rust_p2p_filesystem.Base.{
  ℕ, zero, suc, ◌+◌, ◌≡◌, refl, ap, ◌&&◌, List, [], ◌∷◌, Option, none, some, if◌then◌else◌, length,
  nat_beq,
}
use rust_p2p_filesystem.Base.Outcome.{Result, ok, err, Task, done, panicked}
use rust_p2p_filesystem.Constants.{aes_gcm_auth_tag_size_b}

pub data EncryptionError : Type 0 where
  encryption : EncryptionError

-- Key, nonce and text; none where the crate reports an error.
pub record Cipher : Type 0 where
  pub encrypt : List ℕ → List ℕ → List ℕ → Option (List ℕ)
  pub decrypt : List ℕ → List ℕ → List ℕ → Option (List ℕ)

-- What is documented of AES-GCM: with its key and nonce a ciphertext is decrypted to the text, and
-- it is longer by the tag.
pub record IsCipher (c : Cipher) : Type 0 where
  pub decrypts :
      (key nonce text sealed : List ℕ)
      → c.encrypt key nonce text ≡ some sealed
      → c.decrypt key nonce sealed ≡ some text
  pub tagged :
      (key nonce text sealed : List ℕ)
      → c.encrypt key nonce text ≡ some sealed
      → length sealed ≡ length text + aes_gcm_auth_tag_size_b

-- The lengths that the types of AES-256-GCM have.
abbrev pub key_size_b : ℕ
key_size_b = 32

abbrev pub nonce_size_b : ℕ
nonce_size_b = 12

-- So many bytes from a generator.
unfoldable pub random_bytes : (ℕ → ℕ) → ℕ → List ℕ
random_bytes random zero = []
random_bytes random (suc n) = random n ∷ random_bytes random n

unfoldable pub generate_key : (ℕ → ℕ) → List ℕ
unfolding random_bytes
generate_key random = random_bytes random key_size_b

pub length-random_bytes : (random : ℕ → ℕ) (n : ℕ) → length (random_bytes random n) ≡ n
unfolding random_bytes
length-random_bytes random zero = refl
length-random_bytes random (suc n) = ap suc (length-random_bytes random n)

abbrev pub sealed_with : List ℕ → Option (List ℕ) → Result EncryptionError (List ℕ × List ℕ)
sealed_with nonce none = err encryption
sealed_with nonce (some sealed) = ok (nonce, sealed)

-- The nonce, and the ciphertext.
unfoldable pub encrypt_payload :
    Cipher → (ℕ → ℕ) → List ℕ → List ℕ → Task (Result EncryptionError (List ℕ × List ℕ))
unfolding random_bytes
encrypt_payload c random payload key =
    let nonce = random_bytes random nonce_size_b in
    if nat_beq (length key) key_size_b
    then done (sealed_with nonce (c.encrypt key nonce payload))
    else panicked

abbrev pub opened : Option (List ℕ) → Result EncryptionError (List ℕ)
opened none = err encryption
opened (some text) = ok text

unfoldable pub decrypt_payload :
    Cipher → List ℕ → List ℕ → List ℕ → Task (Result EncryptionError (List ℕ))
decrypt_payload c encrypted_payload key nonce =
    if nat_beq (length key) key_size_b && nat_beq (length nonce) nonce_size_b
    then done (opened (c.decrypt key nonce encrypted_payload))
    else panicked

-- With a key and a nonce of the right lengths there is no panic.
pub decrypt_payload_lem :
    (c : Cipher) (enc key nonce : List ℕ)
    → length key ≡ key_size_b
    → length nonce ≡ nonce_size_b
    → decrypt_payload c enc key nonce ≡ done (opened (c.decrypt key nonce enc))
unfolding decrypt_payload
decrypt_payload_lem c enc key nonce h k = rw (h, k) refl
