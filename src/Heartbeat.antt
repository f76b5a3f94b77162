-- ===== src/Heartbeat.antt =====
-- heartbeat.go: the standing checks of HEARTBEAT.md, the heartbeat prompt, and which replies are
-- kept from the user.
use opencrow.Prelude.{
  Bool, true, false, ◌&&◌, ◌||◌, List, [], ◌∷◌, ◌++◌, Option, none, some, if◌then◌else◌,
}
use opencrow.Prelude.Text.{Text, codes, is_empty, newline}
use opencrow.Prelude.Strings.{trim_space, cut_prefix, has_prefix, contains, split}
use opencrow.Database.{Source}

abbrev pub bullet : Text
bullet = codes "- "

abbrev pub paused : Text
paused = codes "[paused]"

-- What one line of the file adds to the items.
unfoldable pub check_of : Option Text → List Text
unfolding trim_space has_prefix
check_of none = []
check_of (some rest) =
    let text = trim_space rest in if is_empty text || has_prefix text paused then [] else text ∷ []

unfoldable pub check_lines : List Text → List Text
unfolding check_of trim_space cut_prefix
check_lines [] = []
check_lines (line ∷ lines) = check_of (cut_prefix (trim_space line) bullet) ++ check_lines lines

unfoldable pub parse_heartbeat_items : Text → List Text
unfolding check_lines split
parse_heartbeat_items content = check_lines (split newline content)

unfoldable pub item_lines : List Text → Text
item_lines [] = []
item_lines (it ∷ items) = bullet ++ (it ++ (newline ∷ item_lines items))

unfoldable pub build_heartbeat_prompt : Text → List Text → Text
unfolding item_lines
build_heartbeat_prompt base_prompt items =
    base_prompt ++ (codes "\n\nStanding checks:\n" ++ item_lines items)

abbrev pub heartbeat_ok : Text
heartbeat_ok = codes "HEARTBEAT_OK"

abbrev pub is_heartbeat_source : Source → Bool
is_heartbeat_source Source.heartbeat = true
is_heartbeat_source _ = false

unfoldable pub should_suppress_reply : Text → Source → Bool
unfolding contains
should_suppress_reply reply source =
    if is_heartbeat_source source && contains reply heartbeat_ok then true else is_empty reply
