-- ===== src/Nostr/Refresh.antt =====
-- When nostr/backend.go publishes its metadata again.
use opencrow.Prelude.{
  ℕ, ◌≡◌, ◌≢◌, ◌∙◌, Bool, All, refl, sym, subst, ◌-◌, ◌*◌, ◌/◌, ◌&&◌, List, [], ◌∷◌, some, ltb,
  ==_iff, arith, if◌then◌else◌,
}
use opencrow.Prelude.Text.{Text, text_eq}
use opencrow.Prelude.Fallible.{value}
use opencrow.Nostr.Breaker.{second}
use opencrow.Nostr.Keys.{Gonostr}
use opencrow.Nostr.Rumors.{Protocol}
use opencrow.Nostr.Metadata.{
  metadata_refresh_interval, PublishedMetadata, MetadataDb, find_row, upsert_row, metadata_is_fresh,
  get_published_metadata, upsert_published_metadata, mark_metadata_published, Publisher, published,
  publish,
}

find_row-upsert_row :
    (row : PublishedMetadata) (rs : List PublishedMetadata)
    → find_row row.kind (upsert_row row rs) ≡ some row
unfolding find_row upsert_row
find_row-upsert_row row [] = ground (arith, ==_iff row.kind row.kind)
find_row-upsert_row row (r ∷ rs) =
    ground (arith, ==_iff row.kind row.kind, find_row-upsert_row row rs)

find_row-upsert_row-other :
    (kind : ℕ) (row : PublishedMetadata) (rs : List PublishedMetadata)
    → row.kind ≢ kind
    → find_row kind (upsert_row row rs) ≡ find_row kind rs
unfolding find_row upsert_row
find_row-upsert_row-other kind row [] ne = ground (arith, ==_iff row.kind kind)
find_row-upsert_row-other kind row (r ∷ rs) ne =
    let rest = find_row-upsert_row-other kind row rs ne in
    ground (arith, ==_iff row.kind kind, ==_iff r.kind row.kind, ==_iff r.kind kind)

-- The queries answer, and the last publication of the kind is on record.
record Recorded (kind : ℕ) (hash : Text) (now : ℕ) (db : MetadataDb) : Type 0 where
  up : db.faults ≡ []
  row :
      find_row kind db.rows
      ≡ some (record { kind = kind; hash = hash; published_at = now / second })

abbrev up_db : List PublishedMetadata → List Bool → MetadataDb
up_db rows faults = record { rows = rows; faults = faults }

mark-Recorded :
    (kind : ℕ) (hash : Text) (now : ℕ) (db : MetadataDb)
    → db.faults ≡ []
    → Recorded kind hash now (mark_metadata_published kind hash now db)
unfolding mark_metadata_published upsert_published_metadata
mark-Recorded kind hash now db up =
    subst (λ fs. Recorded kind hash now (mark_metadata_published kind hash now (up_db db.rows fs)))
      (sym up)
      (record {
        up = refl;
        row =
            find_row-upsert_row (record { kind = kind; hash = hash; published_at = now / second })
              db.rows;
      })

mark-other-Recorded :
    (kind other : ℕ) (hash hash' : Text) (now now' : ℕ) (db : MetadataDb)
    → other ≢ kind
    → Recorded kind hash now db
    → Recorded kind hash now (mark_metadata_published other hash' now' db)
unfolding mark_metadata_published upsert_published_metadata
mark-other-Recorded kind other hash hash' now now' db ne k =
    subst
      (λ fs. Recorded kind hash now (mark_metadata_published other hash' now' (up_db db.rows fs)))
      (sym k.up)
      (record {
        up = refl;
        row =
            find_row-upsert_row-other kind
              (record { kind = other; hash = hash'; published_at = now' / second }) db.rows ne
            ∙ k.row;
      })

module _ (lib : Gonostr) (nip : Protocol lib) where
  -- A publication that went to the queue.
  pub record Publication : Type 0 where
    pub kind : ℕ
    pub hash : Text
    pub relays : List Text
    pub now : ℕ
    pub event : nip.Event

  abbrev pub published_all : List Publication → Publisher lib nip → Publisher lib nip
  published_all [] p = p
  published_all (o ∷ os) p =
      published_all os (published lib nip o.kind o.hash o.relays o.now o.event p)

  published_all-Recorded :
      (kind : ℕ) (hash : Text) (now : ℕ) (os : List Publication) (p : Publisher lib nip)
      → All (λ (o : Publication). o.kind ≢ kind) os
      → Recorded kind hash now p.metadata
      → Recorded kind hash now (published_all os p).metadata
  unfolding published
  published_all-Recorded kind hash now [] p ne k = k
  published_all-Recorded kind hash now (o ∷ os) p ne k =
      published_all-Recorded kind hash now os _ ne.1
        (mark-other-Recorded kind o.kind hash o.hash now o.now p.metadata ne.0 k)

  -- The equation below at one publisher.
  Republishes : ℕ → Text → Text → List Text → ℕ → ℕ → nip.Event → Publisher lib nip → Type 0
  Republishes kind hash hash' relays' now now' evt' p =
      publish lib nip kind hash' relays' now' (value evt') p ≡ (
        if text_eq hash hash' && ltb (now' - now / second * second) metadata_refresh_interval
        then p
        else published lib nip kind hash' relays' now' evt' p)

  Recorded-Republishes :
      (kind : ℕ) (hash hash' : Text) (relays' : List Text) (now now' : ℕ) (evt' : nip.Event)
      (p : Publisher lib nip)
      → Recorded kind hash now p.metadata
      → Republishes kind hash hash' relays' now now' evt' p
  unfolding Republishes publish published metadata_is_fresh mark_metadata_published
      get_published_metadata upsert_published_metadata
  Recorded-Republishes kind hash hash' relays' now now' evt' p k =
      subst
        (λ fs.
          Republishes kind hash hash' relays' now now' evt'
            (record { queue = p.queue; metadata = up_db p.metadata.rows fs }))
        (sym k.up) (rw k.row refl)

  -- If no query on this table fails: after an event of a kind was published, and then any events of
  -- other kinds, an event of the kind is published again exactly if its hash is another one, or 24
  -- hours are over since the second of that publication.
  pub publish-published :
      (kind : ℕ) (hash hash' : Text) (relays relays' : List Text) (now now' : ℕ)
      (evt evt' : nip.Event) (others : List Publication) (p : Publisher lib nip)
      → p.metadata.faults ≡ []
      → All (λ (o : Publication). o.kind ≢ kind) others
      → let q = published_all others (published lib nip kind hash relays now evt p) in
        publish lib nip kind hash' relays' now' (value evt') q ≡ (
          if text_eq hash hash' && ltb (now' - now / second * second) metadata_refresh_interval
          then q
          else published lib nip kind hash' relays' now' evt' q)
  unfolding Republishes published
  publish-published kind hash hash' relays relays' now now' evt evt' others p up ne =
      Recorded-Republishes kind hash hash' relays' now now' evt' _ (
        published_all-Recorded kind hash now others _ ne
          (mark-Recorded kind hash now p.metadata up))
