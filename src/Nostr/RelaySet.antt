-- ===== src/Nostr/RelaySet.antt =====
-- The relays that nostr/backend.go subscribes to, each of them once.
use opencrow.Prelude.{
  ◌≡◌, refl, sym, ap, ◌∙◌, subst, true, false, if_cases, or_split, List, [], ◌∷◌, ◌++◌, map, Option,
  All, All-append, All-map, if_keeps, arith,
}
use opencrow.Prelude.Text.{Text, text_eq, text_eq_refl}
use opencrow.Conversation.{is_member}
use opencrow.Nostr.Keys.{Gonostr}
use opencrow.Nostr.Rumors.{Tag}
use opencrow.Nostr.Relays.{
  normalized, Relays, add_relay, add_relays, user_relays, discover_user_dm_relays,
  discover_subscription_relays,
}

-- No two of the texts are the same.
abbrev pub AreApart : List Text → Type 0
AreApart [] = Unit {0}
AreApart (x ∷ xs) = All (λ y. text_eq x y ≡ false) xs × AreApart xs

AreApart-snoc :
    (xs : List Text) (n : Text) → AreApart xs → is_member n xs ≡ false → AreApart (xs ++ n ∷ [])
unfolding is_member
AreApart-snoc [] n a h = (tt, tt)
AreApart-snoc (x ∷ xs) n a h =
    let split = or_split (text_eq x n) (is_member n xs) h in
    (
      All-append (λ y. text_eq x y ≡ false) xs (n ∷ []) a.0 (split.0, tt),
      AreApart-snoc xs n a.1 split.1,
    )

map-snoc :
    (xs : List Text) (n : Text)
    → map normalized (xs ++ n ∷ []) ≡ map normalized xs ++ normalized n ∷ []
map-snoc [] n = refl
map-snoc (x ∷ xs) n = ap (◌∷◌ (normalized x)) (map-snoc xs n)

record IsUnrepeated (s : Relays) : Type 0 where
  seen : s.seen ≡ map normalized s.relays
  apart : AreApart s.seen

add_relay-IsUnrepeated : (r : Text) (s : Relays) → IsUnrepeated s → IsUnrepeated (add_relay r s)
unfolding add_relay
add_relay-IsUnrepeated r s k =
    if_cases IsUnrepeated (is_member (normalized r) s.seen) (λ _. k)
      (λ h. record {
        seen = ap (λ xs. xs ++ normalized r ∷ []) k.seen ∙ sym (map-snoc s.relays r);
        apart = AreApart-snoc s.seen (normalized r) k.apart h;
      })

add_relays-IsUnrepeated :
    (rs : List Text) (s : Relays) → IsUnrepeated s → IsUnrepeated (add_relays rs s)
unfolding add_relays
add_relays-IsUnrepeated [] s k = k
add_relays-IsUnrepeated (r ∷ rs) s k =
    add_relays-IsUnrepeated rs (add_relay r s) (add_relay-IsUnrepeated r s k)

is_member-append :
    (n : Text) (xs ys : List Text) → is_member n xs ≡ true → is_member n (xs ++ ys) ≡ true
unfolding is_member
is_member-append n [] ys h = cc
is_member-append n (x ∷ xs) ys h = ground (arith, is_member-append n xs ys)

is_member-last : (n : Text) (xs : List Text) → is_member n (xs ++ n ∷ []) ≡ true
unfolding is_member
is_member-last n [] = rw (text_eq_refl n) refl
is_member-last n (x ∷ xs) = ground (arith, is_member-last n xs)

add_relay-seen : (r : Text) (s : Relays) → is_member (normalized r) (add_relay r s).seen ≡ true
unfolding add_relay
add_relay-seen r s =
    if_cases (λ (s' : Relays). is_member (normalized r) s'.seen ≡ true)
      (is_member (normalized r) s.seen) (λ h. h) (λ _. is_member-last (normalized r) s.seen)

add_relay_keeps :
    (n r : Text) (s : Relays) → is_member n s.seen ≡ true → is_member n (add_relay r s).seen ≡ true
unfolding add_relay
add_relay_keeps n r s h =
    if_keeps (λ (s' : Relays). is_member n s'.seen ≡ true) (is_member (normalized r) s.seen) h
      (is_member-append n s.seen (normalized r ∷ []) h)

add_relays_keep :
    (n : Text) (rs : List Text) (s : Relays)
    → is_member n s.seen ≡ true
    → is_member n (add_relays rs s).seen ≡ true
unfolding add_relays
add_relays_keep n [] s h = h
add_relays_keep n (r ∷ rs) s h = add_relays_keep n rs (add_relay r s) (add_relay_keeps n r s h)

add_relays-seen :
    (rs : List Text) (s : Relays)
    → All (λ r. is_member (normalized r) (add_relays rs s).seen ≡ true) rs
unfolding add_relays
add_relays-seen [] s = tt
add_relays-seen (r ∷ rs) s = (
  add_relays_keep (normalized r) rs (add_relay r s) (add_relay-seen r s),
  add_relays-seen rs (add_relay r s),
)

module _ (lib : Gonostr) (query_single : lib.PubKey → Option (List Tag)) where
  discover_user_dm_relays-IsUnrepeated :
      (users : List Text) (s : Relays)
      → IsUnrepeated s
      → IsUnrepeated (discover_user_dm_relays lib query_single users s)
  unfolding discover_user_dm_relays
  discover_user_dm_relays-IsUnrepeated [] s k = k
  discover_user_dm_relays-IsUnrepeated (user ∷ users) s k =
      let found = user_relays lib query_single user in
      discover_user_dm_relays-IsUnrepeated users (add_relays found s)
        (add_relays-IsUnrepeated found s k)

  discover_user_dm_relays_keeps :
      (n : Text) (users : List Text) (s : Relays)
      → is_member n s.seen ≡ true
      → is_member n (discover_user_dm_relays lib query_single users s).seen ≡ true
  unfolding discover_user_dm_relays
  discover_user_dm_relays_keeps n [] s h = h
  discover_user_dm_relays_keeps n (user ∷ users) s h =
      let found = user_relays lib query_single user in
      discover_user_dm_relays_keeps n users (add_relays found s) (add_relays_keep n found s h)

  -- Of the relays to subscribe to no two are the same but for slashes at the end, and each relay of the
  -- configuration is one of them but for such slashes, whatever the users have published.
  pub discover_subscription_relays-AreApart :
      (relays dm_relays users : List Text)
      → let out = discover_subscription_relays lib query_single relays dm_relays users in
        AreApart (map normalized out)
        × All (λ r. is_member (normalized r) (map normalized out) ≡ true) (relays ++ dm_relays)
  unfolding discover_subscription_relays
  discover_subscription_relays-AreApart relays dm_relays users = (
    subst AreApart all.seen all.apart,
    All-map (relays ++ dm_relays)
        (λ r h.
          ap (is_member (normalized r)) (sym all.seen)
          ∙ discover_user_dm_relays_keeps (normalized r) users configured h)
        (add_relays-seen (relays ++ dm_relays) (record { seen = []; relays = [] })),
  )
    where
      configured : Relays
      configured = add_relays (relays ++ dm_relays) (record { seen = []; relays = [] })

      all : IsUnrepeated (discover_user_dm_relays lib query_single users configured)
      all = discover_user_dm_relays-IsUnrepeated users configured (
          add_relays-IsUnrepeated (relays ++ dm_relays) (record { seen = []; relays = [] })
            (record { seen = refl; apart = tt }))
