-- ===== src/Nostr/Rumors.antt =====
-- nostr/dm.go and nostr/crypto.go: rumors, the unsigned events of a direct message, and their tags.
--
-- The protocol, NIP-59 included, is a parameter; an id is a text of hexadecimal digits.
use opencrow.Prelude.{ℕ, List, [], ◌∷◌, Option, none, some, if◌then◌else◌}
use opencrow.Prelude.Text.{Text, codes, text_eq}
use opencrow.Prelude.Fallible.{Fallible}
use opencrow.Nostr.Keys.{Gonostr}

abbrev pub Tag : Type 0
Tag = List Text

abbrev pub kind_chat : ℕ
kind_chat = 14

abbrev pub kind_file : ℕ
kind_file = 15

abbrev pub kind_reaction : ℕ
kind_reaction = 7

-- The value of a tag with the key, if it has one.
abbrev pub value_of : Text → Tag → Option Text
value_of key [] = none
value_of key (k ∷ []) = none
value_of key (k ∷ v ∷ more) = if text_eq k key then some v else none

abbrev pub or_next : Option Text → Text → Text
or_next (some v) rest = v
or_next none rest = rest

unfoldable pub tag_value : List Tag → Text → Text
tag_value [] key = []
tag_value (tag ∷ tags) key = or_next (value_of key tag) (tag_value tags key)

module _ (lib : Gonostr) where
  -- `gonostr.Event` as a rumor.
  pub record Rumor : Type 0 where
    pub id : Text
    pub pub_key : lib.PubKey
    pub kind : ℕ
    pub content : Text
    pub tags : List Tag
    pub created_at : ℕ

  -- The functions of the protocol, with the keyer of a secret key.
  pub record Protocol : Type 1 where
    pub Event : Type 0  -- a signed event
    pub get_id : Rumor → Text
    pub gift_wrap : lib.SecretKey → Rumor → lib.PubKey → Fallible Event
    pub gift_unwrap : lib.SecretKey → Event → Fallible Rumor
    pub marshal : Event → Option Text
    pub sign : lib.SecretKey → Rumor → Fallible Event
    pub sha256 : Text → Text  -- in hexadecimal digits

  module _ (nip : Protocol) where
    abbrev pub with_id : Rumor → Rumor
    with_id r = record r { id = nip.get_id r }

    -- The rumor of `kind` for a recipient, from the owner of the key `ours`.
    unfoldable pub build_rumor : lib.PubKey → ℕ → ℕ → Text → lib.PubKey → List Tag → Rumor
    build_rumor ours now kind content recipient extra_tags = with_id (record {
      id = [];
      pub_key = ours;
      kind = kind;
      content = content;
      tags = (codes "p" ∷ lib.public_hex recipient ∷ []) ∷ extra_tags;
      created_at = now;
    })

-- The first "e" tag: the message that is replied to.
unfoldable pub rumor_reply_target : List Tag → Text
unfolding tag_value
rumor_reply_target tags = tag_value tags (codes "e")
