-- ===== src/Nostr/PublishQueue/Rejections.antt =====
-- `recordReject` of nostr/publish_queue.go, time after time.
use opencrow.Prelude.{
  ℕ, zero, suc, ◌+◌, ◌≡◌, refl, ap, ◌∙◌, true, false, ◌&&◌, List, [], ◌∷◌, arith, ltb,
}
use opencrow.Prelude.Text.{Text, text_eq, text_eq_iff, text_eq_refl}
use opencrow.Conversation.{is_member}
use opencrow.Nostr.PublishQueue.{PublishItem, record_reject, without_relay, reject_threshold}
use opencrow.Nostr.PublishQueue.Probes.{is_member-without_relay}

abbrev pub reject_times : {Event : Type 0} → ℕ → Text → PublishItem Event → PublishItem Event
reject_times zero relay x = x
reject_times (suc n) relay x = record_reject relay (reject_times n relay x)

is_member-without_relay_self :
    (relay : Text) (rs : List Text) → is_member relay (without_relay relay rs) ≡ false
unfolding is_member
is_member-without_relay_self relay [] = refl
is_member-without_relay_self relay (r ∷ rs) =
    ground (arith, is_member-without_relay_self relay rs, text_eq_iff r relay, text_eq_iff relay r)

module _ {Event : Type 0} where
  record_reject-few :
      (relay : Text) (x : PublishItem Event) (n : ℕ)
      → x.rejects relay ≡ n
      → ltb (n + 1) reject_threshold ≡ true
      → ((record_reject relay x).rejects relay ≡ n + 1)
        × ((record_reject relay x).pending ≡ x.pending)
  unfolding record_reject
  record_reject-few relay x n e h = ground (arith, text_eq_refl relay)

  record_reject-many :
      (relay : Text) (x : PublishItem Event)
      → x.rejects relay ≡ 2
      → is_member relay (record_reject relay x).pending ≡ false
  unfolding record_reject
  record_reject-many relay x e = ground (arith, is_member-without_relay_self relay x.pending)

  record_reject-gone :
      (relay : Text) (x : PublishItem Event)
      → is_member relay x.pending ≡ false
      → is_member relay (record_reject relay x).pending ≡ false
  unfolding record_reject
  record_reject-gone relay x h = ground (arith, is_member-without_relay_self relay x.pending)

  record_reject-other :
      (relay r : Text) (x : PublishItem Event)
      → text_eq relay r ≡ false
      → is_member r (record_reject relay x).pending ≡ is_member r x.pending
  unfolding record_reject
  record_reject-other relay r x ne = ground (arith, is_member-without_relay r relay x.pending ne)

  reject_times-other :
      (n : ℕ) (relay r : Text) (x : PublishItem Event)
      → text_eq relay r ≡ false
      → is_member r (reject_times n relay x).pending ≡ is_member r x.pending
  reject_times-other zero relay r x ne = refl
  reject_times-other (suc n) relay r x ne =
      record_reject-other relay r (reject_times n relay x) ne ∙ reject_times-other n relay r x ne

  reject_times-gone :
      (n : ℕ) (relay : Text) (x : PublishItem Event)
      → x.rejects relay ≡ 0
      → is_member relay (reject_times (suc (suc (suc n))) relay x).pending ≡ false
  reject_times-gone zero relay x e =
      let one = record_reject-few relay x 0 e refl in
      let two = record_reject-few relay (record_reject relay x) 1 one.0 refl in
      record_reject-many relay (record_reject relay (record_reject relay x)) two.0
  reject_times-gone (suc n) relay x e = record_reject-gone relay _ (reject_times-gone n relay x e)

  reject_times_self :
      (n : ℕ) (relay : Text) (x : PublishItem Event)
      → x.rejects relay ≡ 0
      → is_member relay (reject_times n relay x).pending
        ≡ (ltb n reject_threshold && is_member relay x.pending)
  reject_times_self zero relay x e = refl
  reject_times_self (suc zero) relay x e =
      ap (is_member relay) (record_reject-few relay x 0 e refl).1
  reject_times_self (suc (suc zero)) relay x e =
      let one = record_reject-few relay x 0 e refl in
      ap (is_member relay)
        ((record_reject-few relay (record_reject relay x) 1 one.0 refl).1 ∙ one.1)
  reject_times_self (suc (suc (suc n))) relay x e = ground (arith, reject_times-gone n relay x e)

  -- A relay that has not yet rejected an event stays among those that the event waits for through
  -- two rejections and is dropped for good at the third; the other relays stay as they were.
  reject_times-member :
      (n : ℕ) (relay r : Text) (x : PublishItem Event)
      → x.rejects relay ≡ 0
      → text_eq relay r ≡ false
      → (is_member relay (reject_times n relay x).pending
          ≡ (ltb n reject_threshold && is_member relay x.pending))
        × (is_member r (reject_times n relay x).pending ≡ is_member r x.pending)
  reject_times-member n relay r x e ne =
      (reject_times_self n relay x e, reject_times-other n relay r x ne)
