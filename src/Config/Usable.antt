-- ===== src/Config/Usable.antt =====
-- What a configuration that `loadConfig` of config.go returns has.
use opencrow.Prelude.{
  ◌≡◌, refl, sym, subst, ◌⊎◌, inl, inr, true, false, List, arith, if_keeps, Bool-cases,
}
use opencrow.Prelude.Text.{Text, codes, text_eq, text_eq_sound, is_empty}
use opencrow.Prelude.Fallible.{
  Fallible, value, error, wrap, Holds, held, failed, Holds-value, Holds-map, >>=-Holds, Holds-any,
}
use opencrow.Conversation.{is_nil}
use opencrow.Nostr.Keys.{Gonostr, decode_nsec_to_hex}
use opencrow.Config.{
  load_config, with_idle_timeout, default_idle_timeout, config_with, validate_backend, is_backend,
}
use opencrow.Config.Errors.{HasText, joined_errors-Holds, matrix_errors-nil, signal_errors-nil}
use opencrow.Config.Types.{Duration, nanoseconds, Config, PiConfig}
use opencrow.Config.Reader.{System, env_str, env_or, or_fallback, env_list, env_duration}
use opencrow.Config.Load.{
  backend_matrix, backend_nostr, backend_signal, backend_socket, decoded_key, private_key_file,
  load_nostr_config, load_nostr_private_key, parse_nostr_allowed_users, load_matrix_password,
}

module _ (lib : Gonostr) where
  -- What the backend of the configuration cannot do without.
  pub data HasBackend (cfg : Config) : Type 0 where
    matrix :
        cfg.backend_type ≡ backend_matrix
        → HasText cfg.matrix.homeserver
        → HasText cfg.matrix.user_id
        → HasText cfg.matrix.access_token ⊎ HasText cfg.matrix.password
        → HasBackend cfg
    nostr :
        cfg.backend_type ≡ backend_nostr
        → is_nil cfg.nostr.relays ≡ false
        → (nsec : Text) → decode_nsec_to_hex lib nsec ≡ value cfg.nostr.private_key
        → HasBackend cfg
    signal :
        cfg.backend_type ≡ backend_signal
        → HasText cfg.signal.account
        → HasText cfg.signal.binary_path
        → HasText cfg.signal.socket_path
        → HasBackend cfg
    socket : cfg.backend_type ≡ backend_socket → HasBackend cfg

  module _ (system : System) where
    abbrev HasKey : Text → Type 0
    HasKey hex = (nsec : Text) × (decode_nsec_to_hex lib nsec ≡ value hex)

    wrap-HasKey :
        (f : Text → Text) (nsec : Text) (r : Fallible Text)
        → decode_nsec_to_hex lib nsec ≡ r
        → Holds HasKey (wrap f r)
    wrap-HasKey f nsec (value hex) h = held hex (nsec, h)
    wrap-HasKey f nsec (error e) h = failed (f e)

    decoded_key-HasKey : (raw : Text) → Holds HasKey (decoded_key lib system raw)
    decoded_key-HasKey raw =
        if_keeps {A = Fallible Text} (Holds HasKey) (is_empty raw) (failed _)
          (wrap-HasKey _ raw (decode_nsec_to_hex lib raw) refl)

    load_nostr_private_key-HasKey : Holds HasKey (load_nostr_private_key lib system)
    unfolding load_nostr_private_key
    load_nostr_private_key-HasKey =
        >>=-Holds {A = Text} (λ _. Unit {0}) HasKey
          (private_key_file lib system (env_str system (codes "OPENCROW_NOSTR_PRIVATE_KEY_FILE")))
          (λ raw.
            decoded_key lib system
              (or_fallback raw (env_str system (codes "OPENCROW_NOSTR_PRIVATE_KEY"))))
          (Holds-any _)
          (λ raw _.
            decoded_key-HasKey
              (or_fallback raw (env_str system (codes "OPENCROW_NOSTR_PRIVATE_KEY"))))

    load_nostr_config-Holds :
        Holds (λ c. (is_nil c.relays ≡ false) × HasKey c.private_key) (load_nostr_config lib system)
    unfolding load_nostr_config
    load_nostr_config-Holds =
        >>=-Holds HasKey (λ c. (is_nil c.relays ≡ false) × HasKey c.private_key)
          (load_nostr_private_key lib system) _ load_nostr_private_key-HasKey
          (λ hex key. elim (Bool-cases (is_nil (env_list system (codes "OPENCROW_NOSTR_RELAYS")))) [
            | inl e ↦ rw e (failed _)
            | inr e ↦ rw e (
                >>=-Holds {A = List Text} (λ _. Unit {0}) _
                  (parse_nostr_allowed_users lib system
                    (env_list system (codes "OPENCROW_NOSTR_ALLOWED_USERS")))
                  _ (Holds-any _) (λ users _. held _ (e, key)))
          ])

    -- Every backend but the socket is checked.
    validate_backend-HasBackend :
        (cfg : Config)
        → is_backend cfg.backend_type ≡ true
        → Holds (λ c. HasBackend c × (c.pi ≡ cfg.pi)) (validate_backend lib system cfg)
    unfolding validate_backend
    validate_backend-HasBackend cfg h =
        elim (Bool-cases (text_eq cfg.backend_type backend_matrix)) [
          | inl m ↦ rw m (
              >>=-Holds {A = Text} (λ _. Unit {0}) _ (load_matrix_password lib system) _
                (Holds-any _)
                (λ password _. joined_errors-Holds _ _ _ (λ e.
                  let (homeserver, user_id, secret) =
                    matrix_errors-nil (record cfg.matrix { password = password }) e in
                  (matrix (text_eq_sound _ _ m) homeserver user_id secret, refl))))
          | inr m ↦ elim (Bool-cases (text_eq cfg.backend_type backend_nostr)) [
            | inl n ↦
                rw (m, n)
                  (>>=-Holds _ _ (load_nostr_config lib system) _ load_nostr_config-Holds
                    (λ c k. held _ (nostr (text_eq_sound _ _ n) k.0 k.1.0 k.1.1, refl)))
            | inr n ↦ elim (Bool-cases (text_eq cfg.backend_type backend_signal)) [
              | inl s ↦
                  rw (m, n, s)
                    (joined_errors-Holds _ _ _ (λ e.
                      let (account, binary_path, socket_path) = signal_errors-nil cfg.signal e in
                      (signal (text_eq_sound _ _ s) account binary_path socket_path, refl)))
              | inr s ↦ rw (m, n, s) (held _ (socket (text_eq_sound _ _ (ground arith)), refl))
            ]
          ]
        ]

    -- pi has a program to run, and directories to run it in.
    abbrev pub HasPi : PiConfig → Type 0
    HasPi pi = HasText pi.binary_path × HasText pi.session_dir × HasText pi.working_dir

    env_or-HasText : (key fallback : Text) → HasText fallback → HasText (env_or system key fallback)
    unfolding env_or
    env_or-HasText key fallback h = elim (Bool-cases (is_empty (system.getenv key))) [
      | inl e ↦ rw e h
      | inr e ↦ rw e e
    ]

    config_with-HasPi : (t : Text) (d e : Duration) → HasPi (config_with lib system t d e).pi
    unfolding config_with
    config_with-HasPi t d e = (
      env_or-HasText (codes "OPENCROW_PI_BINARY") (codes "omp") refl,
      env_or-HasText (codes "OPENCROW_PI_SESSION_DIR") (codes "/var/lib/opencrow/sessions") refl,
      env_or-HasText (codes "OPENCROW_PI_WORKING_DIR") (codes "/var/lib/opencrow") refl,
    )

    validate_backend-Holds :
        (cfg : Config)
        → is_backend cfg.backend_type ≡ true
        → HasPi cfg.pi
        → Holds (λ c. HasBackend c × HasPi c.pi) (validate_backend lib system cfg)
    validate_backend-Holds cfg b p =
        Holds-map (λ c k. (k.0, subst HasPi (sym k.1) p)) (validate_backend-HasBackend cfg b)

    with_idle_timeout-Holds :
        (backend_type : Text) (idle : Duration)
        → is_backend backend_type ≡ true
        → Holds (λ c. HasBackend c × HasPi c.pi) (with_idle_timeout lib system backend_type idle)
    unfolding config_with
    with_idle_timeout-Holds backend_type idle b =
        >>=-Holds {A = Duration} (λ _. Unit {0}) (λ c. HasBackend c × HasPi c.pi)
          (env_duration system (codes "OPENCROW_HEARTBEAT_INTERVAL") (nanoseconds 0))
          (λ interval.
            validate_backend lib system (config_with lib system backend_type idle interval))
          (Holds-any _)
          (λ interval _.
            validate_backend-Holds (config_with lib system backend_type idle interval) b
              (config_with-HasPi backend_type idle interval))

    load_config-Holds : Holds (λ c. HasBackend c × HasPi c.pi) (load_config lib system)
    unfolding load_config
    load_config-Holds =
        let backend_type = env_or system (codes "OPENCROW_BACKEND") backend_matrix in
        elim (Bool-cases (is_backend backend_type)) [
          | inl b ↦ rw b (
              >>=-Holds {A = Duration} (λ _. Unit {0}) (λ c. HasBackend c × HasPi c.pi)
                (env_duration system (codes "OPENCROW_PI_IDLE_TIMEOUT") default_idle_timeout)
                (with_idle_timeout lib system backend_type) (Holds-any _)
                (λ idle _. with_idle_timeout-Holds backend_type idle b))
          | inr b ↦ rw b (failed _)
        ]

    -- A configuration that is loaded is complete, whatever the environment: its backend is one of the
    -- four and has what it cannot do without (for matrix a homeserver, a user and a token or password,
    -- for nostr a relay and a private key that was decoded, for signal an account, a program and a
    -- socket), and pi has a program, a session directory and a working directory.
    pub load_config-HasBackend :
        (cfg : Config) → load_config lib system ≡ value cfg → HasBackend cfg × HasPi cfg.pi
    load_config-HasBackend cfg h = Holds-value cfg (subst (Holds _) h load_config-Holds)
