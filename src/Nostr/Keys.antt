-- ===== src/Nostr/Keys.antt =====
-- nostr/keys.go: secret and public keys as text.
--
-- The library gonostr is a parameter, the types of its keys included.
use opencrow.Prelude.{◌++◌, if◌then◌else◌}
use opencrow.Prelude.Text.{Text, codes, text_eq, is_empty}
use opencrow.Prelude.Strings.{has_prefix}
use opencrow.Prelude.Fallible.{Fallible, value, error, ◌>>=◌, wrap}

-- What `nip19.Decode` gives as `any`.
pub data Decoded (SecretKey PubKey : Type 0) : Type 0 where
  secret : SecretKey → Decoded SecretKey PubKey
  public : PubKey → Decoded SecretKey PubKey
  other_value : Text → Decoded SecretKey PubKey  -- by the name of its type

pub record Gonostr : Type 1 where
  pub SecretKey : Type 0
  pub PubKey : Type 0
  pub secret_key_from_hex : Text → Fallible SecretKey
  pub pub_key_from_hex : Text → Fallible PubKey
  pub secret_hex : SecretKey → Text
  pub public_hex : PubKey → Text
  pub public_of : SecretKey → PubKey
  pub decode : Text → Fallible (Text × Decoded SecretKey PubKey)
  pub type_name : Decoded SecretKey PubKey → Text
  pub quote : Text → Text

module _ (lib : Gonostr) where
  pub record Keys : Type 0 where
    pub sk : lib.SecretKey
    pub pk : lib.PubKey

  abbrev pub Value : Type 0
  Value = Decoded lib.SecretKey lib.PubKey

  abbrev pub secret_of : Text × Value → Fallible lib.SecretKey
  secret_of (prefix, v) =
      if text_eq prefix (codes "nsec")
      then elim v [
        | secret sk ↦ value sk
        | other ↦ error (codes "nsec decoded to unexpected type " ++ lib.type_name other)
      ]
      else error (codes "expected nsec prefix, got " ++ prefix)

  unfoldable pub parse_secret_key : Text → Fallible lib.SecretKey
  parse_secret_key raw =
      if has_prefix raw (codes "nsec")
      then wrap (λ e. codes "decoding nsec: " ++ e) (lib.decode raw) >>= secret_of
      else wrap (λ e. codes "parsing hex secret key: " ++ e) (lib.secret_key_from_hex raw)

  unfoldable pub load_keys : Text → Fallible Keys
  unfolding parse_secret_key
  load_keys raw =
      if is_empty raw
      then error (codes "empty private key")
      else parse_secret_key raw >>= λ sk. value (record { sk = sk; pk = lib.public_of sk })

  unfoldable pub decode_nsec_to_hex : Text → Fallible Text
  unfolding parse_secret_key
  decode_nsec_to_hex raw = parse_secret_key raw >>= λ sk. value (lib.secret_hex sk)

  abbrev pub public_hex_of : Text × Value → Fallible Text
  public_hex_of (prefix, v) =
      if text_eq prefix (codes "npub")
      then elim v [
        | public pk ↦ value (lib.public_hex pk)
        | other ↦ error (codes "npub decoded to unexpected type " ++ lib.type_name other)
      ]
      else error (codes "expected npub prefix, got " ++ prefix)

  unfoldable pub decode_npub_to_hex : Text → Fallible Text
  decode_npub_to_hex raw =
      if has_prefix raw (codes "npub")
      then wrap (λ e. codes "decoding npub " ++ (lib.quote raw ++ (codes ": " ++ e)))
          (lib.decode raw)
        >>= public_hex_of
      else wrap (λ e. codes "parsing hex public key: " ++ e) (lib.pub_key_from_hex raw) >>= λ _.
          value raw
