-- ===== src/Config/Reader.antt =====
-- `envReader` of config.go, `parseCommaSeparated`, and what the code calls of the system and of the
-- standard library.
use opencrow.Prelude.{ℕ, Bool, ◌||◌, List, [], ◌∷◌, ◌++◌, Option, if◌then◌else◌}
use opencrow.Prelude.Text.{Text, codes, text_eq, is_empty}
use opencrow.Prelude.Strings.{split, trim_space}
use opencrow.Prelude.Fallible.{Fallible, value, wrap}
use opencrow.Config.Types.{Duration}

pub record System : Type 0 where
  pub getenv : Text → Text
  pub read_file : Text → Fallible Text
  pub read_dir : Text → Option (List Text)  -- the names of the entries, in the order of `os.ReadDir`
  pub is_there : Text → Bool  -- `os.Stat` has no error
  pub join_path : List Text → Text
  pub parse_duration : Text → Fallible Duration
  pub to_lower : Text → Text
  pub quote : Text → Text

abbrev pub comma : ℕ
comma = 44

unfoldable pub trimmed_parts : List Text → List Text
trimmed_parts [] = []
trimmed_parts (part ∷ parts) =
    let rest = trimmed_parts parts in
    if is_empty (trim_space part) then rest else trim_space part ∷ rest

unfoldable pub parse_comma_separated : Text → List Text
unfolding trimmed_parts split
parse_comma_separated s = if is_empty s then [] else trimmed_parts (split comma s)

abbrev pub or_fallback : Text → Text → Text
or_fallback v fallback = if is_empty v then fallback else v

module _ (system : System) where
  unfoldable pub env_str : Text → Text
  env_str key = system.getenv key

  unfoldable pub env_or : Text → Text → Text
  env_or key fallback = or_fallback (system.getenv key) fallback

  unfoldable pub env_list : Text → List Text
  env_list key = parse_comma_separated (system.getenv key)

  unfoldable pub env_bool : Text → Bool
  env_bool key =
      let v = system.to_lower (system.getenv key) in
      text_eq v (codes "1") || text_eq v (codes "true") || text_eq v (codes "yes")

  unfoldable pub env_duration : Text → Duration → Fallible Duration
  env_duration key def =
      let v = system.getenv key in
      if is_empty v
      then value def
      else wrap (λ e. codes "parsing " ++ (key ++ (codes ": " ++ e))) (system.parse_duration v)
