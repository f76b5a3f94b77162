-- ===== src/Worker/Grows.antt =====
-- worker.go: while pi works on an item, other goroutines append to the inbox and nothing is taken.
use opencrow.Prelude.{
  ◌≡◌, refl, sym, ap, ◌∙◌, subst, Bool, true, false, not, ◌||◌, if_keeps, List, [], ◌∷◌, ◌++◌,
  append-nil, append_assoc, Option, none, some,
}
use opencrow.Prelude.Text.{Text}
use opencrow.Database.{Inbox, Db, exec_cases}
use opencrow.Inbox.{enqueue, enqueue_inbox}
use opencrow.Worker.State.{
  Outcome, PiError, Arrival, Send, Config, World, is_alive, is_some, notify, notify_if, succeeded,
  arrive, arrive_all, stop_pi,
}
use opencrow.Worker.Prompt.{
  Sent, resolve_room_id, room_from, ensure_pi, started, send_and_wait, next_send, attempt,
  is_replied, send_with_retry,
}

-- The rows, and more behind them.
pub record Grows (rows rows' : List Inbox) : Type 0 where
  pub more : List Inbox
  pub appended : rows' ≡ rows ++ more

pub Grows-refl : (rows : List Inbox) → Grows rows rows
Grows-refl rows = record { more = []; appended = sym (append-nil rows) }

pub Grows-trans : {xs ys zs : List Inbox} → Grows xs ys → Grows ys zs → Grows xs zs
Grows-trans {xs} g h = record {
  more = g.more ++ h.more;
  appended = h.appended ∙ ap (λ ys. ys ++ h.more) g.appended ∙ append_assoc xs g.more h.more;
}

notify_if-inbox :
    (b : Bool) (priority : _) (w : World) → (notify_if b priority w).db.inbox ≡ w.db.inbox
unfolding notify
notify_if-inbox true priority w = refl
notify_if-inbox false priority w = refl

enqueue-Grows :
    (a : Arrival) (db : Db)
    → Grows db.inbox (enqueue a.priority a.source a.content a.reply_to db).1.inbox
unfolding enqueue enqueue_inbox
enqueue-Grows a db =
    exec_cases (λ r. Grows db.inbox r.1.inbox) _ db (λ _. Grows-refl db.inbox)
      (λ _. record { more = _; appended = refl })

arrive-Grows : (a : Arrival) (w : World) → Grows w.db.inbox (arrive a w).db.inbox
unfolding arrive
arrive-Grows a w =
    let (r, db') = enqueue a.priority a.source a.content a.reply_to w.db in
    subst (Grows w.db.inbox)
      (sym (notify_if-inbox (succeeded r) a.priority (record w { db = db' })))
      (enqueue-Grows a w.db)

arrive_all-Grows : (as' : List Arrival) (w : World) → Grows w.db.inbox (arrive_all as' w).db.inbox
unfolding arrive_all
arrive_all-Grows [] w = Grows-refl w.db.inbox
arrive_all-Grows (a ∷ as') w = Grows-trans (arrive-Grows a w) (arrive_all-Grows as' (arrive a w))

next_send-Grows : (ss : List Send) (w : World) → Grows w.db.inbox (next_send ss w).1.db.inbox
next_send-Grows [] w = Grows-refl w.db.inbox
next_send-Grows (s ∷ ss) w = arrive_all-Grows s.arrivals (record w { sends = ss })

pub send_and_wait-Grows :
    (prompt : Text) (w : World) → Grows w.db.inbox (send_and_wait prompt w).1.db.inbox
unfolding send_and_wait
send_and_wait-Grows prompt w =
    if_keeps (λ (r : Outcome × World). Grows w.db.inbox r.1.db.inbox) (is_alive w.pi)
      (next_send-Grows w.sends _) (Grows-refl w.db.inbox)

-- The kill of pi touches neither the operation nor the inbox.
pub stop_pi_keeps :
    (w : World) → ((stop_pi w).cancelled ≡ w.cancelled) × ((stop_pi w).db.inbox ≡ w.db.inbox)
unfolding stop_pi
stop_pi_keeps w =
    if_keeps (λ (v : World). (v.cancelled ≡ w.cancelled) × (v.db.inbox ≡ w.db.inbox)) (is_some w.pi)
      (refl, refl) (refl, refl)

room_from-db : (file : Option Text) (w : World) → (room_from file w).1.db ≡ w.db
room_from-db none w = refl
room_from-db (some t) w = refl

resolve_room_id-db : (c : Config) (w : World) → (resolve_room_id c w).1.db ≡ w.db
unfolding resolve_room_id
resolve_room_id-db c w =
    if_keeps (λ (r : Text × World). r.1.db ≡ w.db) _ (room_from-db c.room_file w) refl

started-db :
    (ss : List (Option PiError)) (room : Text) (fresh : Bool) (w : World)
    → (started ss room fresh w).1.db ≡ w.db
started-db [] room fresh w = refl
started-db (none ∷ ss) room fresh w = refl
started-db (some e ∷ ss) room fresh w = refl

ensure_pi-db : (c : Config) (w : World) → (ensure_pi c w).1.db ≡ w.db
unfolding ensure_pi
ensure_pi-db c w =
    let (room, w') = resolve_room_id c (record w { fresh_start = false }) in
    let same = resolve_room_id-db c (record w { fresh_start = false }) in
    if_keeps (λ (r : Option PiError × World). r.1.db ≡ w.db) (is_alive w.pi) refl
      (if_keeps (λ (r : Option PiError × World). r.1.db ≡ w.db) w'.cancelled same
        (started-db w'.starts room w.fresh_start w' ∙ same))

attempt-Grows :
    (prompt : Text) (r : Option PiError × World) → Grows r.1.db.inbox (attempt prompt r).1.db.inbox
attempt-Grows prompt (some e, w) = Grows-refl w.db.inbox
attempt-Grows prompt (none, w) = send_and_wait-Grows prompt w

ensured-Grows :
    (c : Config) (prompt : Text) (w : World)
    → Grows w.db.inbox (attempt prompt (ensure_pi c w)).1.db.inbox
ensured-Grows c prompt w =
    subst (λ (db : Db). Grows db.inbox (attempt prompt (ensure_pi c w)).1.db.inbox)
      (ensure_pi-db c w) (attempt-Grows prompt (ensure_pi c w))

pub send_with_retry-Grows :
    (c : Config) (prompt : Text) (w : World)
    → Grows w.db.inbox (send_with_retry c prompt w).1.db.inbox
unfolding send_with_retry
send_with_retry-Grows c prompt w =
    let (sent, w') = attempt prompt (ensure_pi c w) in
    let first = ensured-Grows c prompt w in
    if_keeps (λ (r : Sent × World). Grows w.db.inbox r.1.db.inbox)
      (is_replied sent.outcome || not sent.has_pi || w'.cancelled) first
      (Grows-trans first (
        subst (λ rows. Grows rows (attempt prompt (ensure_pi c (stop_pi w'))).1.db.inbox)
          (stop_pi_keeps w').1 (ensured-Grows c prompt (stop_pi w'))))
