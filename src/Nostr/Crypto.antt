-- ===== src/Nostr/Crypto.antt =====
-- nostr/crypto.go: files that are encrypted for a message, and decrypted by its tags.
--
-- AES-GCM, SHA-256 and hexadecimal text are parameters. A text is here its bytes.
use opencrow.Prelude.{ℕ, not, ◌&&◌, ◌||◌, List, [], ◌∷◌, ◌++◌, length, ◌==◌, if◌then◌else◌}
use opencrow.Prelude.Text.{Text, codes, text_eq, is_empty}
use opencrow.Prelude.Fallible.{Fallible, value, error, ◌>>=◌, wrap, Done}
use opencrow.Nostr.Rumors.{Tag, tag_value}

pub record Aes : Type 0 where
  pub seal : Text → Text → Text → Fallible Text  -- for a key, a nonce and the plaintext
  pub unseal : Text → Text → Text → Fallible Text  -- `decryptAESGCM`
  pub sha256_hex : Text → Text
  pub encode : Text → Text  -- `hex.EncodeToString`
  pub decode : Text → Fallible Text
  pub decimal : ℕ → Text
  pub quote : Text → Text

pub record EncryptedFile : Type 0 where
  pub ciphertext : Text
  pub key_hex : Text
  pub nonce_hex : Text
  pub ox_hex : Text

-- With the key and the nonce that `rand.Read` gives.
unfoldable pub encrypt_file_for_upload :
    Aes → Fallible Text → Fallible Text → Text → Fallible EncryptedFile
encrypt_file_for_upload aes random_key random_nonce plaintext =
    wrap (◌++◌ (codes "generating AES key: ")) random_key >>= λ key.
    wrap (◌++◌ (codes "generating nonce: ")) random_nonce >>= λ nonce.
    aes.seal key nonce plaintext >>= λ ciphertext. value (record {
      ciphertext = ciphertext;
      key_hex = aes.encode key;
      nonce_hex = aes.encode nonce;
      ox_hex = aes.sha256_hex plaintext;
    })

unfoldable pub checked_key : Aes → Text → Fallible Text
checked_key aes key =
    if length key == 16 || length key == 32
    then value key
    else error (
        codes "decryption key must be 16 or 32 bytes (AES-128/256), got "
        ++ aes.decimal (length key))

-- The key and the nonce.
unfoldable pub parse_decryption_params : Aes → List Tag → Fallible (Text × Text)
unfolding tag_value checked_key
parse_decryption_params aes tags =
    if is_empty (tag_value tags (codes "decryption-key"))
      || is_empty (tag_value tags (codes "decryption-nonce"))
    then error (codes "missing decryption-key or decryption-nonce tags")
    else (wrap (◌++◌ (codes "decoding decryption key: "))
          (aes.decode (tag_value tags (codes "decryption-key")))
        >>= checked_key aes
        >>= λ key.
            wrap (◌++◌ (codes "decoding decryption nonce: "))
              (aes.decode (tag_value tags (codes "decryption-nonce")))
            >>= λ nonce. value (key, nonce))

-- The plaintext, if it has the hash that the tags give.
unfoldable pub verified : Aes → Text → Text → Fallible Text
verified aes ox_hex plaintext =
    if not (is_empty ox_hex) && not (text_eq (aes.sha256_hex plaintext) ox_hex)
    then error (codes "SHA-256 mismatch after decryption")
    else value plaintext

-- The plaintext by the tags, given what reading the file returns.
unfoldable pub decrypted : Aes → List Tag → Fallible Text → Fallible Text
unfolding tag_value parse_decryption_params verified
decrypted aes tags read =
    if not (text_eq (tag_value tags (codes "encryption-algorithm")) (codes "aes-gcm"))
    then error (
        codes "unsupported encryption algorithm: "
        ++ aes.quote (tag_value tags (codes "encryption-algorithm")))
    else (parse_decryption_params aes tags >>= λ (key, nonce).
        wrap (◌++◌ (codes "reading encrypted file: ")) read >>= λ ciphertext.
        aes.unseal key nonce ciphertext >>= verified aes (tag_value tags (codes "ox")))

unfoldable pub decrypt_file_in_place : Aes → List Tag → Fallible Text → (Text → Done) → Done
unfolding decrypted
decrypt_file_in_place aes tags read write = decrypted aes tags read >>= λ plaintext.
    wrap (◌++◌ (codes "writing decrypted file: ")) (write plaintext)

-- The tags of `SendFile`, with the type of the file and the hash of the ciphertext.
unfoldable pub file_tags : Text → Text → EncryptedFile → List Tag
file_tags mime_type x_hex enc =
    (codes "file-type" ∷ mime_type ∷ [])
    ∷ (codes "encryption-algorithm" ∷ codes "aes-gcm" ∷ [])
    ∷ (codes "decryption-key" ∷ enc.key_hex ∷ [])
    ∷ (codes "decryption-nonce" ∷ enc.nonce_hex ∷ [])
    ∷ (codes "x" ∷ x_hex ∷ [])
    ∷ (codes "ox" ∷ enc.ox_hex ∷ [])
    ∷ []
