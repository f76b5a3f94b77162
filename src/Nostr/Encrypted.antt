-- ===== src/Nostr/Encrypted.antt =====
-- A file of nostr/crypto.go, encrypted for a message and decrypted by the tags of the message.
use opencrow.Prelude.{ℕ, ◌≡◌, refl, subst, suc, false, inl, inr, [], ◌∷◌, length, arith}
use opencrow.Prelude.Text.{Text, codes, text_eq, text_eq_refl, is_empty}
use opencrow.Prelude.Fallible.{value, error, Fallible-cases, value_eq}
use opencrow.Nostr.Rumors.{tag_value}
use opencrow.Nostr.Crypto.{
  Aes, EncryptedFile, encrypt_file_for_upload, checked_key, parse_decryption_params, verified,
  decrypted, file_tags,
}

-- Hexadecimal text reads back and is empty for no bytes alone.
abbrev pub IsHex : Aes → Type 0
IsHex aes =
    (t : Text) → (aes.decode (aes.encode t) ≡ value t) × (is_empty (aes.encode t) ≡ is_empty t)

-- AES-GCM opens what it sealed.
abbrev pub Opens : Aes → Type 0
Opens aes =
    (key nonce plaintext ciphertext : Text)
    → aes.seal key nonce plaintext ≡ value ciphertext
    → aes.unseal key nonce ciphertext ≡ value plaintext

verified_self :
    (aes : Aes) (plaintext : Text)
    → verified aes (aes.sha256_hex plaintext) plaintext ≡ value plaintext
unfolding verified
verified_self aes plaintext = ground (arith, text_eq_refl (aes.sha256_hex plaintext))

nonempty_of : (n : ℕ) (t : Text) → length t ≡ suc n → is_empty t ≡ false
nonempty_of n [] h = absurd (omega arith)
nonempty_of n (c ∷ t) h = refl

abbrev uploaded : Aes → Text → Text → Text → Text → EncryptedFile
uploaded aes key nonce plaintext ciphertext = record {
  ciphertext = ciphertext;
  key_hex = aes.encode key;
  nonce_hex = aes.encode nonce;
  ox_hex = aes.sha256_hex plaintext;
}

checked_key_32 : (aes : Aes) (key : Text) → length key ≡ 32 → checked_key aes key ≡ value key
unfolding checked_key
checked_key_32 aes key k = rw k refl

decrypted-uploaded :
    (aes : Aes) (key nonce plaintext mime_type x_hex recipient ciphertext : Text)
    → IsHex aes
    → Opens aes
    → length key ≡ 32
    → length nonce ≡ 12
    → aes.seal key nonce plaintext ≡ value ciphertext
    → decrypted aes
        ((codes "p" ∷ recipient ∷ [])
          ∷ file_tags mime_type x_hex (uploaded aes key nonce plaintext ciphertext))
        (value ciphertext)
      ≡ value plaintext
unfolding decrypted parse_decryption_params file_tags tag_value text_eq
decrypted-uploaded aes key nonce plaintext mime_type x_hex recipient ciphertext hex opens k n eq =
    rw
      (
        (hex key).1,
        nonempty_of 31 key k,
        (hex nonce).1,
        nonempty_of 11 nonce n,
        (hex key).0,
        checked_key_32 aes key k,
        (hex nonce).0,
        opens key nonce plaintext ciphertext eq,
      )
      (verified_self aes plaintext)

-- If AES-GCM opens what it sealed and hexadecimal text reads back, a file that is encrypted with a
-- key of 32 bytes and a nonce of 12 is decrypted to itself by the tags of its message, behind the
-- tag for the recipient.
pub decrypted-encrypt_file_for_upload :
    (aes : Aes) (key nonce plaintext mime_type x_hex recipient : Text) (enc : EncryptedFile)
    → IsHex aes
    → Opens aes
    → length key ≡ 32
    → length nonce ≡ 12
    → encrypt_file_for_upload aes (value key) (value nonce) plaintext ≡ value enc
    → decrypted aes
        ((codes "p" ∷ recipient ∷ []) ∷ file_tags mime_type x_hex enc)
        (value enc.ciphertext)
      ≡ value plaintext
unfolding encrypt_file_for_upload
decrypted-encrypt_file_for_upload aes key nonce plaintext mime_type x_hex recipient enc hex opens k
      n made =
    elim (Fallible-cases (aes.seal key nonce plaintext)) [
      | inr (e, eq) ↦ let failed : error e ≡ value enc = rw eq at made in cc
      | inl (ciphertext, eq) ↦
          let same : value (uploaded aes key nonce plaintext ciphertext) ≡ value enc =
            rw eq at made in
          subst
            (λ (f : EncryptedFile).
              decrypted aes ((codes "p" ∷ recipient ∷ []) ∷ file_tags mime_type x_hex f)
                (value f.ciphertext)
              ≡ value plaintext)
            (value_eq same)
            (decrypted-uploaded aes key nonce plaintext mime_type x_hex recipient ciphertext hex
              opens k n eq)
    ]
