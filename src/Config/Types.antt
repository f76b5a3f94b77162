-- ===== src/Config/Types.antt =====
-- The configuration records of config.go. Sets are the lists of their keys.
use opencrow.Prelude.{ℕ, Bool, List}
use opencrow.Prelude.Text.{Text}

-- A `time.Duration`.
pub data Duration : Type 0 where
  nanoseconds minus_nanoseconds : ℕ → Duration

pub record SocketConfig : Type 0 where
  pub socket_path : Text
  pub name : Text

pub record HeartbeatConfig : Type 0 where
  pub interval : Duration
  pub prompt : Text

pub record MatrixConfig : Type 0 where
  pub homeserver : Text
  pub user_id : Text
  pub access_token : Text
  pub password : Text
  pub device_id : Text
  pub allowed_users : List Text
  pub pickle_key : Text
  pub crypto_db_path : Text

pub record SignalConfig : Type 0 where
  pub account : Text
  pub binary_path : Text
  pub config_dir : Text
  pub socket_path : Text
  pub allowed_users : List Text

pub record NostrConfig : Type 0 where
  pub private_key : Text
  pub relays : List Text
  pub dm_relays : List Text
  pub blossom_servers : List Text
  pub allowed_users : List Text
  pub name : Text
  pub display_name : Text
  pub about : Text
  pub picture : Text

pub record PiConfig : Type 0 where
  pub binary_path : Text
  pub binary_args : List Text
  pub session_dir : Text
  pub provider : Text
  pub model : Text
  pub working_dir : Text
  pub idle_timeout : Duration
  pub system_prompt : Text
  pub skills : List Text
  pub extensions : List Text
  pub show_tool_calls : Bool
  pub debug_timing : Bool

pub record Config : Type 0 where
  pub backend_type : Text
  pub matrix : MatrixConfig
  pub nostr : NostrConfig
  pub signal : SignalConfig
  pub socket : SocketConfig
  pub pi : PiConfig
  pub heartbeat : HeartbeatConfig
