-- ===== src/Matrix/Crypto.antt =====
-- matrix/backend.go: the start of the encryption, on what the calls of mautrix return.
use opencrow.Prelude.{Bool, not, ◌&&◌, ◌++◌, Option, none, some, if◌then◌else◌}
use opencrow.Prelude.Text.{Text, codes, is_empty}
use opencrow.Prelude.Strings.{contains}
use opencrow.Prelude.Fallible.{Fallible, value, error, ◌>>=◌, wrap, Done}

-- The device id that the client has, or else the server's.
unfoldable pub resolve_device_id : Text → Fallible Text → Fallible Text
resolve_device_id device_id whoami =
    if not (is_empty device_id)
    then value device_id
    else (wrap (◌++◌ (codes "fetching device ID from server: ")) whoami >>= λ server_id.
        if is_empty server_id
        then error (codes "server did not return a device ID; set OPENCROW_MATRIX_DEVICE_ID")
        else value server_id)

-- Whether the device was verified already, the recovery key of the setup where it was not.
unfoldable pub ensure_cross_signing :
    Fallible (Bool × Bool) → Fallible Text → Fallible (Option Text)
ensure_cross_signing status generated =
    wrap (◌++◌ (codes "checking verification status: ")) status >>= λ (has_keys, is_verified).
    if has_keys && is_verified
    then value none
    else (wrap (◌++◌ (codes "generating cross-signing keys: ")) generated >>= λ recovery_key.
        value (some recovery_key))

abbrev pub not_shared : Text
not_shared = codes "olm account is not marked as shared"

-- What the calls of `initCryptoHelper` return, the second two after the flag was fixed.
pub record CryptoCalls : Type 0 where
  pub create : Done
  pub init : Done
  pub fix : Done
  pub create_again : Done
  pub init_again : Done

-- The second try, with the flag set in the database.
unfoldable pub init_after_fix : CryptoCalls → Done
init_after_fix c = wrap (◌++◌ (codes "fixing shared flag in crypto database: ")) c.fix >>= λ _.
    wrap (◌++◌ (codes "creating crypto helper after flag fix: ")) c.create_again >>= λ _.
    wrap (◌++◌ (codes "initializing crypto after flag fix: ")) c.init_again

abbrev pub on_init : CryptoCalls → Done → Done
on_init c (value _) = value tt
on_init c (error e) =
    if not (contains e not_shared)
    then error (codes "initializing crypto: " ++ e)
    else init_after_fix c

-- Whether there is a helper in the end, with one more try after a mismatch of the flag.
unfoldable pub init_crypto_helper : CryptoCalls → Done
unfolding init_after_fix
init_crypto_helper c =
    wrap (◌++◌ (codes "creating crypto helper: ")) c.create >>= λ _. on_init c c.init
