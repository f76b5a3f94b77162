-- ===== src/Nostr/Metadata.antt =====
-- nostr/backend.go: the profile and the list of relays, published again when they change or get old,
-- with the queries of nostr/queries.sql_sqlc.go on `published_metadata`. Times are in nanoseconds.
use opencrow.Prelude.{
  ℕ, ◌-◌, ◌*◌, ◌/◌, Bool, false, ◌&&◌, List, [], ◌∷◌, ◌++◌, map, Option, none, some, ltb, ◌==◌,
  if◌then◌else◌,
}
use opencrow.Prelude.Text.{Text, codes, text_eq, is_empty, newline}
use opencrow.Prelude.Strings.{join}
use opencrow.Prelude.Fallible.{Fallible, value, error}
use opencrow.Database.{next_fault, later_faults}
use opencrow.Nostr.Breaker.{second}
use opencrow.Nostr.Keys.{Gonostr, Keys}
use opencrow.Nostr.Rumors.{Tag, Protocol}
use opencrow.Nostr.PublishQueue.{PublishQueue, enqueue}

abbrev pub metadata_refresh_interval : ℕ
metadata_refresh_interval = 24 * 60 * 60 * second

abbrev pub kind_profile : ℕ
kind_profile = 0

abbrev pub kind_dm_relay_list : ℕ
kind_dm_relay_list = 10050

-- A row of `published_metadata`; the time is in seconds.
pub record PublishedMetadata : Type 0 where
  pub kind : ℕ
  pub hash : Text
  pub published_at : ℕ

pub record MetadataDb : Type 0 where
  pub rows : List PublishedMetadata
  pub faults : List Bool

-- No row, or an error.
unfoldable pub find_row : ℕ → List PublishedMetadata → Option PublishedMetadata
find_row kind [] = none
find_row kind (r ∷ rs) = if r.kind == kind then some r else find_row kind rs

abbrev pub later : MetadataDb → MetadataDb
later db = record db { faults = later_faults db.faults }

unfoldable pub get_published_metadata : ℕ → MetadataDb → Option PublishedMetadata × MetadataDb
unfolding find_row
get_published_metadata kind db =
    (if next_fault db.faults then none else find_row kind db.rows, later db)

unfoldable pub upsert_row : PublishedMetadata → List PublishedMetadata → List PublishedMetadata
upsert_row row [] = row ∷ []
upsert_row row (r ∷ rs) =
    let rest = upsert_row row rs in if r.kind == row.kind then row ∷ rs else r ∷ rest

unfoldable pub upsert_published_metadata : PublishedMetadata → MetadataDb → MetadataDb
unfolding upsert_row
upsert_published_metadata row db =
    if next_fault db.faults then later db else record (later db) { rows = upsert_row row db.rows }

abbrev pub is_recent : Text → ℕ → Option PublishedMetadata → Bool
is_recent hash now none = false
is_recent hash now (some row) =
    text_eq row.hash hash && ltb (now - row.published_at * second) metadata_refresh_interval

unfoldable pub metadata_is_fresh : ℕ → Text → ℕ → MetadataDb → Bool × MetadataDb
unfolding get_published_metadata
metadata_is_fresh kind hash now db =
    let (row, db') = get_published_metadata kind db in (is_recent hash now row, db')

unfoldable pub mark_metadata_published : ℕ → Text → ℕ → MetadataDb → MetadataDb
unfolding upsert_published_metadata
mark_metadata_published kind hash now db =
    upsert_published_metadata (record { kind = kind; hash = hash; published_at = now / second }) db

abbrev pub ended_by_zero : List Text → Text
ended_by_zero [] = []
ended_by_zero (r ∷ rs) = r ++ (0 ∷ ended_by_zero rs)

pub record ProfileConfig : Type 0 where
  pub name : Text
  pub display_name : Text
  pub about : Text
  pub picture : Text

abbrev pub entry_if : Text → Text → List (Text × Text)
entry_if key v = if is_empty v then [] else (key, v) ∷ []

-- The map as the list of its entries.
unfoldable pub build_profile_meta : ProfileConfig → List (Text × Text)
build_profile_meta p =
    entry_if (codes "name") p.name
    ++ (entry_if (codes "display_name") p.display_name
        ++ (entry_if (codes "about") p.about ++ entry_if (codes "picture") p.picture))

module _ (lib : Gonostr) (nip : Protocol lib) where
  pub record Publisher : Type 0 where
    pub queue : PublishQueue nip.Event
    pub metadata : MetadataDb

  unfoldable pub hash_content : Text → List Text → Text
  hash_content content relays = nip.sha256 (content ++ (0 ∷ ended_by_zero relays))

  -- The event goes to the queue, and the publication on record.
  unfoldable pub published : ℕ → Text → List Text → ℕ → nip.Event → Publisher → Publisher
  unfolding mark_metadata_published
  published kind hash relays now evt p = record p {
    queue = enqueue nip.marshal evt relays p.queue;
    metadata = mark_metadata_published kind hash now p.metadata;
  }

  abbrev pub if_signed : ℕ → Text → List Text → ℕ → Fallible nip.Event → Publisher → Publisher
  if_signed kind hash relays now (error e) p = p
  if_signed kind hash relays now (value evt) p = published kind hash relays now evt p

  -- What both publications do with an event, once there is its hash.
  unfoldable pub publish : ℕ → Text → List Text → ℕ → Fallible nip.Event → Publisher → Publisher
  unfolding metadata_is_fresh published
  publish kind hash relays now signed p =
      let (fresh, db) = metadata_is_fresh kind hash now p.metadata in
      if fresh
      then record p { metadata = db }
      else if_signed kind hash relays now signed (record p { metadata = db })

  abbrev pub with_profile : Keys lib → List Text → ℕ → Fallible Text → Publisher → Publisher
  with_profile keys relays now (error e) p = p
  with_profile keys relays now (value content) p =
      publish kind_profile (hash_content content relays) relays now
        (nip.sign keys.sk (record {
          id = [];
          pub_key = keys.pk;
          kind = kind_profile;
          content = content;
          tags = [];
          created_at = now / second;
        }))
        p

  -- `marshal` is `json.Marshal`.
  unfoldable pub publish_profile :
      Keys lib
      → ProfileConfig
      → List Text
      → (List (Text × Text) → Fallible Text)
      → ℕ
      → Publisher
      → Publisher
  unfolding publish build_profile_meta hash_content
  publish_profile keys profile relays marshal now p =
      if is_empty profile.name
        && (is_empty profile.display_name && (is_empty profile.about && is_empty profile.picture))
      then p
      else with_profile keys relays now (marshal (build_profile_meta profile)) p

  abbrev pub relay_tag : Text → Tag
  relay_tag relay = codes "relay" ∷ relay ∷ []

  unfoldable pub publish_dm_relay_list :
      Keys lib → List Text → List Text → ℕ → Publisher → Publisher
  unfolding publish hash_content
  publish_dm_relay_list keys relays dm_relays now p =
      publish kind_dm_relay_list (hash_content (join (newline ∷ []) dm_relays) relays) relays now
        (nip.sign keys.sk (record {
          id = [];
          pub_key = keys.pk;
          kind = kind_dm_relay_list;
          content = [];
          tags = map relay_tag dm_relays;
          created_at = now / second;
        }))
        p
