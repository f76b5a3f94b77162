-- ===== src/Tests/NostrDm.antt =====
-- Two backends of nostr, one of which writes to the other, and a file that is encrypted. A key is a
-- text, and what is wrapped is the rumor itself.
use opencrow.Prelude.{
  arith, ℕ, zero, suc, ◌≡◌, refl, sym, ap, subst, true, false, List, [], ◌∷◌, ◌++◌, some, All, map,
  ltb, ◌&&◌, if◌then◌else◌, ◌-◌, ◌*◌, ◌/◌,
}
use opencrow.Prelude.Text.{Text, codes, text_eq}
use opencrow.Prelude.Fallible.{value, error, value_eq}
use opencrow.Conversation.{is_allowed, claim}
use opencrow.Nostr.Keys.{Gonostr, public}
use opencrow.Nostr.Rumors.{Rumor, Protocol}
use opencrow.Nostr.Crypto.{Aes, encrypt_file_for_upload, EncryptedFile, decrypted, file_tags}
use opencrow.Nostr.Encrypted.{IsHex, Opens, decrypted-encrypt_file_for_upload}
use opencrow.Nostr.Media.{Media}
use opencrow.Nostr.Breaker.{second, new_breaker}
use opencrow.Nostr.PublishQueue.{PublishQueue}
use opencrow.Nostr.LastSeen.{check_and_mark_seen}
use opencrow.Nostr.Backend.{Backend, World, Event, received, reset_of, send_message, on_events}
use opencrow.Nostr.Delivered.{IsDelivered, Admits, OpensFor, send_message-IsDelivered}
use opencrow.Nostr.Marks.{AreDistinct}
use opencrow.Nostr.Once.{IsAccepted, on_events-AreDistinct}
use opencrow.Nostr.FileNames.{sanitize_filename}
use opencrow.Nostr.SafeNames.{Named, sanitize_filename-Named}
use opencrow.Nostr.Metadata.{
  kind_dm_relay_list, Publisher, publish, published, metadata_refresh_interval,
}
use opencrow.Nostr.Refresh.{Publication, published_all, publish-published}

abbrev lib : Gonostr
lib = record {
  SecretKey = Text;
  PubKey = Text;
  secret_key_from_hex = λ t. value t;
  pub_key_from_hex = λ t. value t;
  secret_hex = λ t. t;
  public_hex = λ t. t;
  public_of = λ t. t;
  decode = λ t. value (codes "npub", public t);
  type_name = λ d. codes "string";
  quote = λ t. t;
}

abbrev nip : Protocol lib
nip = record {
  Event = Rumor lib;
  get_id = λ r. codes "id of " ++ r.content;
  gift_wrap = λ sk r pk. value r;
  gift_unwrap = λ sk evt. value evt;
  marshal = λ evt. some evt.content;
  sign = λ sk r. value r;
  sha256 = λ t. t;
}

-- A cipher that puts a byte in front.
abbrev aes : Aes
aes = record {
  seal = λ key nonce t. value (7 ∷ t);
  unseal = λ key nonce t. elim t [ [] ↦ error (codes "too short") | (c ∷ s) ↦ value s ];
  sha256_hex = λ t. t;
  encode = λ t. t;
  decode = λ t. value t;
  decimal = λ n. [];
  quote = λ t. t;
}

abbrev media : Media
media = record {
  find_urls = λ t. [];
  download = λ url dir. error (codes "no network");
  aes = aes;
  read_file = λ path. error (codes "no file");
  write_file = λ path t. value tt;
  file_ext = λ path. [];
  extensions_by_type = λ t. value [];
  rename = λ s t. value tt;
}

abbrev world : World lib nip
world = record { now = 1000; media = media; get_dm_relays = λ pk. codes "wss://a" ∷ [] }

abbrev queue : PublishQueue (Rumor lib)
queue = record {
  items = [];
  next_address = 1;
  breakers = λ relay. new_breaker;
  attempt_gen = 0;
  wake = false;
  rows = [];
  rows_seq = 1;
  faults = [];
  now = 0;
  cancelled = false;
  connects = [];
  publishes = [];
}

abbrev backend : Text → Backend lib nip
backend key = record {
  keys = record { sk = key; pk = key };
  relays = codes "wss://a" ∷ [];
  dm_relays = codes "wss://b" ∷ [];
  allowed_users = [];
  connected = true;
  seen = record { rumors = []; faults = [] };
  active = [];
  queue = queue;
  handled = [];
}

abbrev ann : Backend lib nip
ann = backend (codes "ann")

abbrev bot : Backend lib nip
bot = backend (codes "bot")

ann-OpensFor : OpensFor lib nip ann bot
ann-OpensFor rumor evt h = ap value (value_eq (sym h))

bot-Admits : Admits lib nip bot (codes "ann")
unfolding text_eq is_allowed claim
bot-Admits = record { other = refl; allowed = refl; claims = refl }

send_message-IsDelivered_example :
    IsDelivered lib nip world world ann bot
      (codes "hi")
      (codes "0a")
      (send_message lib nip world (codes "bot") (codes "hi") (codes "0a") ann)
unfolding send_message check_and_mark_seen
send_message-IsDelivered_example =
    send_message-IsDelivered lib nip world world ann bot (codes "bot") (codes "hi") (codes "0a")
      refl ann-OpensFor bot-Admits refl refl refl

abbrev rumor : Rumor lib
rumor = record {
  id = codes "0b";
  pub_key = codes "ann";
  kind = 14;
  content = codes "hi";
  tags = [];
  created_at = 900;
}

-- The same rumor twice, with a reset between.
abbrev events : List (Event lib nip)
events = received world rumor ∷ reset_of (codes "ann") ∷ received world rumor ∷ []

on_events-AreDistinct_example :
    AreDistinct (on_events lib nip events bot).handled
    × All (IsAccepted lib nip bot) (on_events lib nip events bot).handled
on_events-AreDistinct_example = on_events-AreDistinct lib nip bot events refl refl

aes-IsHex : IsHex aes
aes-IsHex t = (refl, refl)

aes-Opens : Opens aes
aes-Opens key nonce plaintext ciphertext h =
    subst (λ t. aes.unseal key nonce t ≡ value plaintext) (value_eq h) refl

abbrev zeros : ℕ → Text
zeros zero = []
zeros (suc n) = 0 ∷ zeros n

abbrev enc : EncryptedFile
enc = record {
  ciphertext = 7 ∷ codes "cat";
  key_hex = zeros 32;
  nonce_hex = zeros 12;
  ox_hex = codes "cat";
}

decrypted-encrypt_file_for_upload_example :
    decrypted aes
      ((codes "p" ∷ codes "bot" ∷ []) ∷ file_tags (codes "image/png") (codes "00") enc)
      (value enc.ciphertext)
    ≡ value (codes "cat")
unfolding encrypt_file_for_upload
decrypted-encrypt_file_for_upload_example =
    decrypted-encrypt_file_for_upload aes (zeros 32) (zeros 12) (codes "cat") (codes "image/png")
      (codes "00") (codes "bot") enc aes-IsHex aes-Opens refl refl refl

-- An extension that is too long.
abbrev long_name : Text
long_name = codes "a." ++ map (λ c. b'x') (zeros 201)

sanitize_filename-Named_example : Named long_name (sanitize_filename long_name)
sanitize_filename-Named_example = sanitize_filename-Named long_name

abbrev publisher : Publisher lib nip
publisher = record { queue = queue; metadata = record { rows = []; faults = [] } }

-- Between the two profiles the list of relays is published.
abbrev relay_list : Publication lib nip
relay_list = record {
  kind = kind_dm_relay_list;
  hash = codes "r";
  relays = [];
  now = 2000;
  event = rumor;
}

abbrev with_relay_list : Publisher lib nip
with_relay_list =
    published_all lib nip (relay_list ∷ [])
      (published lib nip 0 (codes "h") [] 1000 rumor publisher)

publish-published_example : publish lib nip 0 (codes "h") [] 5000 (value rumor) with_relay_list ≡ (
    if text_eq (codes "h") (codes "h")
      && ltb (5000 - 1000 / second * second) metadata_refresh_interval
    then with_relay_list
    else published lib nip 0 (codes "h") [] 5000 rumor with_relay_list)
publish-published_example =
    publish-published lib nip 0 (codes "h") (codes "h") [] [] 1000 5000 rumor rumor
      (relay_list ∷ []) publisher refl ((λ e. omega (arith, e)), tt)
