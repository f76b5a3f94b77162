-- ===== src/Config/Load.antt =====
-- `loadConfig` of config.go with the functions that it calls.
use mathlib.Core.List.{reverse}
use opencrow.Prelude.{◌==◌, ◌||◌, ◌&&◌, List, [], ◌∷◌, ◌++◌, none, some, if◌then◌else◌}
use opencrow.Prelude.Text.{Text, codes, is_empty, newline}
use opencrow.Prelude.Strings.{join, trim_space}
use opencrow.Prelude.Fallible.{Fallible, value, error, ◌>>=◌, wrap}
use opencrow.Conversation.{is_member, is_nil}
use opencrow.Nostr.Keys.{Gonostr, decode_nsec_to_hex, decode_npub_to_hex}
use opencrow.Config.Types.{MatrixConfig, SignalConfig, NostrConfig}
use opencrow.Config.Reader.{System, or_fallback, env_str, env_or, env_list}

abbrev pub backend_matrix : Text
backend_matrix = codes "matrix"

abbrev pub backend_nostr : Text
backend_nostr = codes "nostr"

abbrev pub backend_signal : Text
backend_signal = codes "signal"

abbrev pub backend_socket : Text
backend_socket = codes "socket"

abbrev pub default_soul : Text
default_soul =
    codes "You are OpenCrow, an AI assistant communicating via a messaging platform.\n\n"
    ++ (codes
          "Be genuinely helpful, not performatively helpful. Skip the filler words — just help.\n"
        ++ (codes "Have opinions. Be resourceful before asking. Earn trust through competence.\n"
            ++ (codes
                  "Be concise when needed, thorough when it matters. Not a corporate drone. Not a sycophant. Just good.\n"
                ++ codes
                    "When using tools, prefer standard Unix tools. Check output before proceeding. Break complex tasks into steps and execute them.")))

abbrev pub default_heartbeat_prompt : Text
default_heartbeat_prompt =
    codes "Run through the standing checks below.\n"
    ++ codes "If nothing needs attention, reply with exactly: HEARTBEAT_OK"

-- The message of `requireField`, where the field is empty.
abbrev pub require_field : Text → Text → List Text
require_field v name = if is_empty v then (name ++ codes " is required") ∷ [] else []

-- `errors.Join` of the errors with these messages: none where there are none.
abbrev pub joined_errors : {A : Type 0} → A → List Text → Fallible A
joined_errors a [] = value a
joined_errors a (e ∷ es) = error (join (newline ∷ []) (e ∷ es))

unfoldable pub matrix_errors : MatrixConfig → List Text
matrix_errors m =
    require_field m.homeserver (codes "OPENCROW_MATRIX_HOMESERVER")
    ++ (require_field m.user_id (codes "OPENCROW_MATRIX_USER_ID")
        ++ (if is_empty m.access_token && is_empty m.password
            then codes "OPENCROW_MATRIX_ACCESS_TOKEN or OPENCROW_MATRIX_PASSWORD is required" ∷ []
            else []))

unfoldable pub signal_errors : SignalConfig → List Text
signal_errors s =
    require_field s.account (codes "OPENCROW_SIGNAL_ACCOUNT")
    ++ (require_field s.binary_path (codes "OPENCROW_SIGNAL_CLI_BINARY")
        ++ require_field s.socket_path (codes "OPENCROW_SIGNAL_SOCKET_PATH"))

-- A set of texts, from a list of its members.
unfoldable pub parse_allowed_users : List Text → List Text
parse_allowed_users [] = []
parse_allowed_users (u ∷ us) =
    let rest = parse_allowed_users us in if is_member u rest then rest else u ∷ rest

unfoldable pub skip_line_ends : Text → Text
skip_line_ends [] = []
skip_line_ends (ch ∷ s) =
    let rest = skip_line_ends s in if ch == newline || ch == 13 then rest else ch ∷ s

-- `strings.TrimRight(s, "\r\n")`
abbrev pub trim_line_ends : Text → Text
trim_line_ends s = reverse (skip_line_ends (reverse s))

module _ (lib : Gonostr) (system : System) where
  -- The subdirectories with a SKILL.md.
  unfoldable pub skills_in : Text → List Text → List Text
  skills_in dir [] = []
  skills_in dir (name ∷ names) =
      let rest = skills_in dir names in
      let skill_path = system.join_path (dir ∷ name ∷ []) in
      if system.is_there (system.join_path (skill_path ∷ codes "SKILL.md" ∷ []))
      then skill_path ∷ rest
      else rest

  unfoldable pub discover_skills : Text → List Text
  unfolding skills_in
  discover_skills dir = elim (system.read_dir dir) [ none ↦ [] | some names ↦ skills_in dir names ]

  unfoldable pub parse_skills : List Text
  unfolding discover_skills
  parse_skills =
      let dir = env_str system (codes "OPENCROW_PI_SKILLS_DIR") in
      let skills = env_list system (codes "OPENCROW_PI_SKILLS") in
      if is_empty dir then skills else skills ++ discover_skills dir

  unfoldable pub load_soul : Text
  load_soul =
      let path = env_str system (codes "OPENCROW_SOUL_FILE") in
      let fallback = env_or system (codes "OPENCROW_PI_SYSTEM_PROMPT") default_soul in
      if is_empty path
      then fallback
      else elim (system.read_file path) [ value text ↦ text | error e ↦ fallback ]

  unfoldable pub load_matrix_password : Fallible Text
  load_matrix_password =
      let path = env_str system (codes "OPENCROW_MATRIX_PASSWORD_FILE") in
      if is_empty path
      then value (env_str system (codes "OPENCROW_MATRIX_PASSWORD"))
      else wrap (λ e. codes "reading OPENCROW_MATRIX_PASSWORD_FILE: " ++ e) (system.read_file path)
        >>= λ text. value (trim_line_ends text)

  unfoldable pub load_signal_config : Text → List Text → SignalConfig
  load_signal_config working_dir allowed_users = record {
    account = env_str system (codes "OPENCROW_SIGNAL_ACCOUNT");
    binary_path = env_or system (codes "OPENCROW_SIGNAL_CLI_BINARY") (codes "signal-cli");
    config_dir =
        env_or system (codes "OPENCROW_SIGNAL_CONFIG_DIR")
          (system.join_path (working_dir ∷ codes "signal-cli" ∷ []));
    socket_path =
        env_or system (codes "OPENCROW_SIGNAL_SOCKET_PATH") (
          system.join_path (working_dir ∷ codes "signal-cli" ∷ codes "opencrow-jsonrpc.sock" ∷ []));
    allowed_users = allowed_users;
  }

  abbrev pub decoded_key : Text → Fallible Text
  decoded_key raw =
      if is_empty raw
      then error (codes "OPENCROW_NOSTR_PRIVATE_KEY or OPENCROW_NOSTR_PRIVATE_KEY_FILE is required")
      else wrap (λ e. codes "decoding nostr private key: " ++ e) (decode_nsec_to_hex lib raw)

  abbrev pub private_key_file : Text → Fallible Text
  private_key_file path =
      if is_empty path
      then value []
      else (wrap (λ e. codes "reading OPENCROW_NOSTR_PRIVATE_KEY_FILE: " ++ e)
            (system.read_file path)
          >>= λ text. value (trim_space text))

  unfoldable pub load_nostr_private_key : Fallible Text
  load_nostr_private_key =
      private_key_file (env_str system (codes "OPENCROW_NOSTR_PRIVATE_KEY_FILE")) >>= λ raw.
      decoded_key (or_fallback raw (env_str system (codes "OPENCROW_NOSTR_PRIVATE_KEY")))

  unfoldable pub parse_nostr_allowed_users : List Text → Fallible (List Text)
  parse_nostr_allowed_users [] = value []
  parse_nostr_allowed_users (u ∷ us) =
      wrap (λ e. codes "decoding nostr allowed user: " ++ e) (decode_npub_to_hex lib u) >>= λ hex.
      parse_nostr_allowed_users us >>= λ users.
      value (if is_member hex users then users else hex ∷ users)

  unfoldable pub load_nostr_config : Fallible NostrConfig
  unfolding load_nostr_private_key
  load_nostr_config = load_nostr_private_key >>= λ private_key.
      let relays = env_list system (codes "OPENCROW_NOSTR_RELAYS") in
      (if is_nil relays
        then error (codes "OPENCROW_NOSTR_RELAYS is required (comma-separated relay URLs)")
        else parse_nostr_allowed_users (env_list system (codes "OPENCROW_NOSTR_ALLOWED_USERS")))
      >>= λ allowed_users. value (record {
        private_key = private_key;
        relays = relays;
        dm_relays = env_list system (codes "OPENCROW_NOSTR_DM_RELAYS");
        blossom_servers = env_list system (codes "OPENCROW_NOSTR_BLOSSOM_SERVERS");
        allowed_users = allowed_users;
        name = env_str system (codes "OPENCROW_NOSTR_NAME");
        display_name = env_str system (codes "OPENCROW_NOSTR_DISPLAY_NAME");
        about = env_str system (codes "OPENCROW_NOSTR_ABOUT");
        picture = env_str system (codes "OPENCROW_NOSTR_PICTURE");
      })
