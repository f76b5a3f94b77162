-- ===== src/Tests/Config.antt =====
-- The configuration of a socket backend.
use opencrow.Prelude.{◌≡◌, refl, [], ◌∷◌, none, false, if◌then◌else◌}
use opencrow.Prelude.Text.{Text, codes, text_eq, is_empty}
use opencrow.Prelude.Strings.{trim_space}
use opencrow.Prelude.Fallible.{value, error}
use opencrow.Nostr.Keys.{Gonostr}
use opencrow.Config.{load_config, config_with}
use opencrow.Config.Types.{Config, nanoseconds}
use opencrow.Config.Reader.{System, env_or, env_duration, parse_comma_separated}
use opencrow.Config.Usable.{HasBackend, HasPi, load_config-HasBackend}

abbrev gonostr : Gonostr
gonostr = record {
  SecretKey = Text;
  PubKey = Text;
  secret_key_from_hex = λ t. if is_empty t then error (codes "empty") else value t;
  pub_key_from_hex = λ t. if is_empty t then error (codes "empty") else value t;
  secret_hex = λ t. t;
  public_hex = λ t. t;
  public_of = λ t. t;
  decode = λ t. error (codes "checksum");
  type_name = λ v. codes "string";
  quote = λ t. t;
}

-- Two variables are set.
abbrev variable : Text → Text
variable key =
    if text_eq key (codes "OPENCROW_BACKEND")
    then codes "socket"
    else if text_eq key (codes "OPENCROW_ALLOWED_USERS")
    then codes " alice, ,bob"
    else []

abbrev system : System
system = record {
  getenv = variable;
  read_file = λ path. error (codes "no such file");
  read_dir = λ path. none;
  is_there = λ path. false;
  join_path = λ parts. codes "/var/lib/opencrow/chat.sock";
  parse_duration = λ t. error (codes "bad duration");
  to_lower = λ t. t;
  quote = λ t. t;
}

parse_comma_separated_test :
    parse_comma_separated (codes " alice, ,bob,") ≡ codes "alice" ∷ codes "bob" ∷ []
unfolding parse_comma_separated trim_space
parse_comma_separated_test = refl

abbrev loaded : Config
loaded = config_with gonostr system (codes "socket") (nanoseconds 1800000000000) (nanoseconds 0)

loads : load_config gonostr system ≡ value loaded
unfolding load_config env_or env_duration text_eq
loads = refl

load_config-HasBackend_example : HasBackend gonostr loaded × HasPi gonostr system loaded.pi
load_config-HasBackend_example = load_config-HasBackend gonostr system loaded loads
