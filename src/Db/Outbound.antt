-- ===== src/Db/Outbound.antt =====
-- The section `outbound queue` of db.py.
pub mod Claim
pub mod Chances
pub mod Keeps
pub mod Pauses
use meshcore_bbs.Db.{Db, Pause}
use meshcore_bbs.Models.{
  MsgKind, OutboundMessage, Status, cancelled, dropped, failed, is_pending, pending, sent,
}
use meshcore_bbs.Prelude.{
  Bool, List, Option, [], count_rows, filter, find_row, head?, if◌then◌else◌, leb, ltb, max, none,
  not, order_by, some, take, true, update_rows, ℕ, ◌&&◌, ◌*◌, ◌++◌, ◌+◌, ◌==◌, ◌||◌, ◌∷◌,
}
use meshcore_bbs.Text.{Text, str_eq}

abbrev pub has_id : ℕ → OutboundMessage → Bool
has_id msg_id m = m.id == msg_id

-- A row as the INSERT makes it.
abbrev pub new_message : ℕ → Text → Text → ℕ → ℕ → Option Text → MsgKind → OutboundMessage
new_message id to_pk body now priority trigger kind = record {
  id = id;
  to_pubkey = to_pk;
  body = body;
  enqueued_at = now;
  attempts = 0;
  next_attempt = now;
  status = pending;
  priority = priority;
  trigger_command = trigger;
  msg_kind = kind;
}

unfoldable pub enqueue_outbound : Db → Text → Text → ℕ → ℕ → Option Text → MsgKind → Db × ℕ
enqueue_outbound db to_pk body now priority trigger kind = (
  record db {
    outbound_queue =
        db.outbound_queue ++ new_message db.next_outbound to_pk body now priority trigger kind ∷ [];
    next_outbound = db.next_outbound + 1;
  },
  db.next_outbound,
)

-- `ORDER BY priority DESC, enqueued_at ASC`.
abbrev pub sent_before : OutboundMessage → OutboundMessage → Bool
sent_before a b =
    ltb b.priority a.priority || (a.priority == b.priority && leb a.enqueued_at b.enqueued_at)

abbrev pub is_ready : ℕ → OutboundMessage → Bool
is_ready now m = is_pending m && leb m.next_attempt now

unfoldable pub claim_next_outbound : Db → ℕ → Option OutboundMessage
claim_next_outbound db now = head? (order_by sent_before (filter (is_ready now) db.outbound_queue))

abbrev pub set_status : Status → OutboundMessage → OutboundMessage
set_status s m = record m { status = s }

unfoldable pub mark_outbound_sent : Db → ℕ → Db
mark_outbound_sent db msg_id = record db {
  outbound_queue = update_rows (has_id msg_id) (set_status sent) db.outbound_queue;
}

unfoldable pub mark_outbound_failed : Db → ℕ → Db
mark_outbound_failed db msg_id = record db {
  outbound_queue = update_rows (has_id msg_id) (set_status failed) db.outbound_queue;
}

-- `COALESCE(MAX(enqueued_at), 0)` over the pending rows.
unfoldable pub max_enqueued : List OutboundMessage → ℕ
max_enqueued [] = 0
max_enqueued (m ∷ ms) =
    let rest = max_enqueued ms in if is_pending m then max m.enqueued_at rest else rest

-- `clock` is what `time.time()` reads in the method.
unfoldable pub reschedule_outbound : Db → ℕ → ℕ → ℕ → ℕ → Bool → Db
unfolding max_enqueued
reschedule_outbound db clock msg_id next_attempt attempts requeue_to_back =
    let back_at = max clock (max_enqueued db.outbound_queue) + 1 in
    record db {
      outbound_queue =
          update_rows (has_id msg_id)
            (λ m.
              if requeue_to_back
              then record m {
                next_attempt = next_attempt;
                attempts = attempts;
                enqueued_at = back_at;
              }
              else record m { next_attempt = next_attempt; attempts = attempts })
            db.outbound_queue;
    }

abbrev pub is_stale : ℕ → OutboundMessage → Bool
is_stale before_ts m = is_pending m && ltb m.enqueued_at before_ts

unfoldable pub drop_stale_outbound : Db → ℕ → Db × ℕ
drop_stale_outbound db before_ts = (
  record db {
    outbound_queue = update_rows (is_stale before_ts) (set_status dropped) db.outbound_queue;
  },
  count_rows (is_stale before_ts) db.outbound_queue,
)

unfoldable pub outbound_pending_depth : Db → ℕ
outbound_pending_depth db = count_rows is_pending db.outbound_queue

unfoldable pub get_pending_outbound : Db → ℕ → Option OutboundMessage
get_pending_outbound db msg_id = find_row (λ m. has_id msg_id m && is_pending m) db.outbound_queue

unfoldable pub cancel_outbound : Db → ℕ → Db × Option OutboundMessage
cancel_outbound db msg_id = elim (get_pending_outbound db msg_id) [
  | none ↦ (db, none)
  | some m ↦ (
    record db {
      outbound_queue = update_rows (has_id msg_id) (set_status cancelled) db.outbound_queue;
    },
    some m,
  )
]

unfoldable pub move_outbound_to_back : Db → ℕ → ℕ → Db × Option OutboundMessage
move_outbound_to_back db clock msg_id = elim (get_pending_outbound db msg_id) [
  | none ↦ (db, none)
  | some m ↦ (reschedule_outbound db clock msg_id clock m.attempts true, some m)
]

abbrev pub is_pause : Text → Pause → Bool
is_pause pk p = str_eq p.pubkey pk

-- An expired pause is deleted when it is read.
unfoldable pub get_outbound_pause_until : Db → ℕ → Text → Db × Option ℕ
get_outbound_pause_until db clock pk = elim (find_row (is_pause pk) db.outbound_pause) [
  | none ↦ (db, none)
  | some p ↦
      if leb p.paused_until clock
      then (
        record db { outbound_pause = filter (λ p. not (is_pause pk p)) db.outbound_pause },
        none,
      )
      else (db, some p.paused_until)
]

unfoldable pub put_pause : Text → ℕ → List Pause → List Pause
put_pause pk until [] = record { pubkey = pk; paused_until = until } ∷ []
put_pause pk until (p ∷ ps) =
    if is_pause pk p then record p { paused_until = until } ∷ ps else p ∷ put_pause pk until ps

-- The loop over the rows that the SELECT returned.
unfoldable pub reschedule_paused : Db → ℕ → ℕ → List OutboundMessage → Db
unfolding reschedule_outbound
reschedule_paused db clock until [] = db
reschedule_paused db clock until (m ∷ ms) =
    reschedule_paused (reschedule_outbound db clock m.id (max m.next_attempt until) m.attempts true)
      clock until ms

abbrev pub outbound_pause_seconds : ℕ
outbound_pause_seconds = 30 * 60

unfoldable pub pause_outbound_recipient : Db → ℕ → Text → ℕ → Db × ℕ
unfolding put_pause reschedule_paused
pause_outbound_recipient db clock pk seconds =
    let until = clock + seconds in
    (
      reschedule_paused (record db { outbound_pause = put_pause pk until db.outbound_pause }) clock
          until (filter (λ m. is_pending m && str_eq m.to_pubkey pk) db.outbound_queue),
      until,
    )

-- `ORDER BY priority DESC, enqueued_at ASC, id ASC`.
abbrev listed_before : OutboundMessage → OutboundMessage → Bool
listed_before a b =
    ltb b.priority a.priority
    || (a.priority == b.priority
        && (ltb a.enqueued_at b.enqueued_at || (a.enqueued_at == b.enqueued_at && leb a.id b.id)))

unfoldable pub list_pending_outbound : Db → ℕ → List OutboundMessage
list_pending_outbound db limit =
    take limit (order_by listed_before (filter is_pending db.outbound_queue))
