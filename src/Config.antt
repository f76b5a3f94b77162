-- ===== src/Config.antt =====
-- config.go: the configuration that the program starts with, from its environment.
pub mod Types
pub mod Reader
pub mod Load
pub mod Errors
pub mod Usable
use opencrow.Prelude.{Bool, ◌||◌, List, [], ◌∷◌, ◌++◌, if◌then◌else◌}
use opencrow.Prelude.Text.{Text, codes, text_eq}
use opencrow.Prelude.Fallible.{Fallible, value, error, ◌>>=◌}
use opencrow.Nostr.Keys.{Gonostr}
use opencrow.Config.Types.{Duration, nanoseconds, NostrConfig, MatrixConfig, Config}
use opencrow.Config.Reader.{System, env_str, env_or, env_list, env_bool, env_duration}
use opencrow.Config.Load.{
  backend_matrix, backend_nostr, backend_signal, backend_socket, default_heartbeat_prompt,
  joined_errors, matrix_errors, signal_errors, parse_allowed_users, parse_skills, load_soul,
  load_matrix_password, load_signal_config, load_nostr_config,
}

abbrev pub is_backend : Text → Bool
is_backend t =
    text_eq t backend_matrix
    || text_eq t backend_nostr
    || text_eq t backend_signal
    || text_eq t backend_socket

-- The zero value.
abbrev pub no_nostr : NostrConfig
no_nostr = record {
  private_key = [];
  relays = [];
  dm_relays = [];
  blossom_servers = [];
  allowed_users = [];
  name = [];
  display_name = [];
  about = [];
  picture = [];
}

-- 30*time.Minute
abbrev pub default_idle_timeout : Duration
default_idle_timeout = nanoseconds 1800000000000

module _ (lib : Gonostr) (system : System) where
  unfoldable pub matrix_config : Text → List Text → MatrixConfig
  matrix_config working_dir allowed_users = record {
    homeserver = env_str system (codes "OPENCROW_MATRIX_HOMESERVER");
    user_id = env_str system (codes "OPENCROW_MATRIX_USER_ID");
    access_token = env_str system (codes "OPENCROW_MATRIX_ACCESS_TOKEN");
    password = [];
    device_id = env_str system (codes "OPENCROW_MATRIX_DEVICE_ID");
    allowed_users = allowed_users;
    pickle_key =
        env_or system (codes "OPENCROW_MATRIX_PICKLE_KEY") (codes "opencrow-default-pickle-key");
    crypto_db_path =
        env_or system (codes "OPENCROW_MATRIX_CRYPTO_DB")
          (system.join_path (working_dir ∷ codes "crypto.db" ∷ []));
  }

  -- The literal of `loadConfig`.
  unfoldable pub config_with : Text → Duration → Duration → Config
  unfolding matrix_config
  config_with backend_type idle_timeout heartbeat_interval =
      let allowed_users = parse_allowed_users (env_list system (codes "OPENCROW_ALLOWED_USERS")) in
      let working_dir =
        env_or system (codes "OPENCROW_PI_WORKING_DIR") (codes "/var/lib/opencrow") in
      record {
        backend_type = backend_type;
        matrix = matrix_config working_dir allowed_users;
        nostr = no_nostr;
        signal = load_signal_config lib system working_dir allowed_users;
        socket = record {
          socket_path =
              env_or system (codes "OPENCROW_SOCKET_PATH")
                (system.join_path (working_dir ∷ codes "sessions" ∷ codes "chat.sock" ∷ []));
          name = env_or system (codes "OPENCROW_SOCKET_NAME") (codes "OpenCrow");
        };
        pi = record {
          binary_path = env_or system (codes "OPENCROW_PI_BINARY") (codes "omp");
          binary_args = [];
          session_dir =
              env_or system (codes "OPENCROW_PI_SESSION_DIR") (codes "/var/lib/opencrow/sessions");
          provider = env_or system (codes "OPENCROW_PI_PROVIDER") (codes "anthropic");
          model = env_or system (codes "OPENCROW_PI_MODEL") (codes "claude-opus-4-6");
          working_dir = working_dir;
          idle_timeout = idle_timeout;
          system_prompt = load_soul lib system;
          skills = parse_skills lib system;
          extensions = env_list system (codes "OPENCROW_PI_EXTENSIONS");
          show_tool_calls = env_bool system (codes "OPENCROW_SHOW_TOOL_CALLS");
          debug_timing = env_bool system (codes "OPENCROW_DEBUG_TIMING");
        };
        heartbeat = record {
          interval = heartbeat_interval;
          prompt = env_or system (codes "OPENCROW_HEARTBEAT_PROMPT") default_heartbeat_prompt;
        };
      }

  abbrev pub validate_matrix : Config → Fallible Config
  validate_matrix cfg = load_matrix_password lib system >>= λ password.
      let m = record cfg.matrix { password = password } in
      joined_errors (record cfg { matrix = m }) (matrix_errors m)

  unfoldable pub validate_backend : Config → Fallible Config
  validate_backend cfg =
      if text_eq cfg.backend_type backend_matrix
      then validate_matrix cfg
      else if text_eq cfg.backend_type backend_nostr
      then (load_nostr_config lib system >>= λ nostr. value (record cfg { nostr = nostr }))
      else if text_eq cfg.backend_type backend_signal
      then joined_errors cfg (signal_errors cfg.signal)
      else value cfg

  abbrev pub with_idle_timeout : Text → Duration → Fallible Config
  with_idle_timeout backend_type idle_timeout =
      env_duration system (codes "OPENCROW_HEARTBEAT_INTERVAL") (nanoseconds 0) >>= λ interval.
      validate_backend (config_with backend_type idle_timeout interval)

  unfoldable pub load_config : Fallible Config
  unfolding config_with validate_backend
  load_config =
      let backend_type = env_or system (codes "OPENCROW_BACKEND") backend_matrix in
      if is_backend backend_type
      then (env_duration system (codes "OPENCROW_PI_IDLE_TIMEOUT") default_idle_timeout
          >>= with_idle_timeout backend_type)
      else error (
          codes "OPENCROW_BACKEND="
          ++ (system.quote backend_type
              ++ codes " is not supported (valid: matrix, nostr, signal, socket)"))
