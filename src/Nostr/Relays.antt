-- ===== src/Nostr/Relays.antt =====
-- nostr/backend.go: the relays to subscribe to, the bot's own and those of its users.
use mathlib.Core.List.{reverse}
use opencrow.Prelude.{List, [], ◌∷◌, ◌++◌, Option, none, some, ◌==◌, if◌then◌else◌}
use opencrow.Prelude.Text.{Text, codes}
use opencrow.Prelude.Fallible.{value, error}
use opencrow.Conversation.{is_member}
use opencrow.Nostr.Keys.{Gonostr}
use opencrow.Nostr.Rumors.{Tag, value_of}

unfoldable pub drop_slashes : Text → Text
drop_slashes [] = []
drop_slashes (c ∷ s) = let rest = drop_slashes s in if c == b'/' then rest else c ∷ s

-- `strings.TrimRight(r, "/")`
unfoldable pub normalized : Text → Text
unfolding drop_slashes
normalized r = reverse (drop_slashes (reverse r))

-- The keys of the map `seen`, and the relays so far.
pub record Relays : Type 0 where
  pub seen : List Text
  pub relays : List Text

unfoldable pub add_relay : Text → Relays → Relays
unfolding is_member normalized
add_relay r s =
    if is_member (normalized r) s.seen
    then s
    else record { seen = s.seen ++ normalized r ∷ []; relays = s.relays ++ r ∷ [] }

unfoldable pub add_relays : List Text → Relays → Relays
unfolding add_relay
add_relays [] s = s
add_relays (r ∷ rs) s = add_relays rs (add_relay r s)

-- The relays that an event of kind 10050 names.
unfoldable pub relays_in : List Tag → List Text
relays_in [] = []
relays_in (tag ∷ tags) =
    let rest = relays_in tags in
    elim (value_of (codes "relay") tag) [ none ↦ rest | some r ↦ r ∷ rest ]

module _ (lib : Gonostr) where
  -- The tags that a user has published, where the query finds them.
  unfoldable pub user_relays : (lib.PubKey → Option (List Tag)) → Text → List Text
  unfolding relays_in
  user_relays query_single user = elim (lib.pub_key_from_hex user) [
    | error e ↦ []
    | value pk ↦ elim (query_single pk) [ none ↦ [] | some tags ↦ relays_in tags ]
  ]

  unfoldable pub discover_user_dm_relays :
      (lib.PubKey → Option (List Tag)) → List Text → Relays → Relays
  unfolding add_relays user_relays
  discover_user_dm_relays query_single [] s = s
  discover_user_dm_relays query_single (user ∷ users) s =
      discover_user_dm_relays query_single users (add_relays (user_relays query_single user) s)

  -- The allowed users come in the order in which the loop takes them.
  unfoldable pub discover_subscription_relays :
      (lib.PubKey → Option (List Tag)) → List Text → List Text → List Text → List Text
  unfolding add_relays discover_user_dm_relays
  discover_subscription_relays query_single relays dm_relays users =
      (discover_user_dm_relays query_single users
        (add_relays (relays ++ dm_relays) (record { seen = []; relays = [] }))).relays
