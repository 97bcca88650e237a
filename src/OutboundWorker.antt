-- ===== src/OutboundWorker.antt =====
-- outbound.py. The worker's clock readings are numbers of milliseconds, `int(time.time())` of a
-- reading is `/ 1000`, and an interval in milliseconds is what the source divides by 1000.
pub mod Tick
pub mod Loop
pub mod Spacing
pub mod Retries
pub mod Limit
pub mod Fairness
pub mod Tables
use meshcore_bbs.Db.{Db}
use meshcore_bbs.Db.Audit.{audit}
use meshcore_bbs.Db.Outbound.{
  cancel_outbound, claim_next_outbound, drop_stale_outbound, enqueue_outbound,
  get_outbound_pause_until, mark_outbound_failed, mark_outbound_sent, move_outbound_to_back,
  pause_outbound_recipient, reschedule_outbound,
}
use meshcore_bbs.Models.{MsgKind, OutboundMessage}
use meshcore_bbs.Prelude.{
  Bool, List, Option, [], false, if◌then◌else◌, leb, ltb, min, none, not, some, take, true, ℕ, ◌&&◌,
  ◌*◌, ◌++◌, ◌+◌, ◌-◌, ◌/◌, ◌^◌, ◌∷◌,
}
use meshcore_bbs.Text.{Text, lit, str_eq}
use meshcore_bbs.Text.Decimal.{str}
use meshcore_bbs.Transport.{SendOutcome, delivered, outcome_value}

abbrev pub max_attempts : ℕ
max_attempts = 5

abbrev pub max_age_seconds : ℕ
max_age_seconds = 24 * 3600

abbrev pub backoff_base_seconds : ℕ
backoff_base_seconds = 30

pub record Worker : Type 0 where
  pub db : Db
  pub last_send_at : ℕ
  pub last_send_to : List (Text × ℕ)
  pub sends_attempted : ℕ
  pub sends_succeeded : ℕ
  pub sends_failed : ℕ

-- What one tick meets: its readings of the clock, in the order in which they are made, and the
-- answers of the transport.
pub record Surroundings : Type 0 where
  pub at_start : ℕ
  pub at_pause : ℕ
  pub at_throttle : ℕ
  pub at_deferral : ℕ
  pub after_send : ℕ
  pub at_audit : ℕ
  pub at_backoff : ℕ
  pub at_requeue : ℕ
  pub radio_available : Bool
  pub outcome : SendOutcome

-- The worker after a tick, what the tick returns, and the message that it handed to the radio.
pub record Ticked : Type 0 where
  pub worker : Worker
  pub sent_something : Bool
  pub handed : Option OutboundMessage

-- `self._last_send_to.get(pk, 0.0)` and the assignment to `self._last_send_to[pk]`.
unfoldable pub last_send : Text → List (Text × ℕ) → ℕ
last_send pk [] = 0
last_send pk ((k, t) ∷ rest) = if str_eq k pk then t else last_send pk rest

unfoldable pub put_last_send : Text → ℕ → List (Text × ℕ) → List (Text × ℕ)
put_last_send pk t [] = (pk, t) ∷ []
put_last_send pk t ((k, s) ∷ rest) =
    if str_eq k pk then (k, t) ∷ rest else (k, s) ∷ put_last_send pk t rest

abbrev is_delivered : SendOutcome → Bool
is_delivered delivered = true
is_delivered _ = false

module _ (recipient_gap_ms : ℕ) (s : Surroundings) where
  -- The end of the method, from the call of `send_msg` on.
  unfoldable pub send_claimed : Worker → OutboundMessage → Ticked
  send_claimed w msg =
      let sent_worker : Worker = record w {
        last_send_at = s.after_send;
        last_send_to = put_last_send msg.to_pubkey s.after_send w.last_send_to;
        sends_attempted = w.sends_attempted + 1;
      } in
      let attempts = msg.attempts + 1 in
      if is_delivered s.outcome
      then record {
        worker = record sent_worker {
          db = mark_outbound_sent w.db msg.id;
          sends_succeeded = w.sends_succeeded + 1;
        };
        sent_something = true;
        handed = some msg;
      }
      else if leb max_attempts attempts
      then record {
        worker = record sent_worker {
          db =
              audit (mark_outbound_failed w.db msg.id) (s.at_audit / 1000) none
                (lit "outbound_failed")
                (lit "to="
                  ++ (take 12 msg.to_pubkey
                      ++ (lit " outcome="
                          ++ (outcome_value s.outcome ++ (lit " attempts=" ++ str attempts)))));
          sends_failed = w.sends_failed + 1;
        };
        sent_something = true;
        handed = some msg;
      }
      else record {
        worker = record sent_worker {
          db =
              reschedule_outbound w.db (s.at_requeue / 1000) msg.id
                (s.at_backoff / 1000 + backoff_base_seconds * 2 ^ (attempts - 1)) attempts true;
        };
        sent_something = true;
        handed = some msg;
      }

  abbrev deferred : Worker → OutboundMessage → ℕ → Ticked
  deferred w msg next_attempt = record {
    worker = record w {
      db = reschedule_outbound w.db (s.at_requeue / 1000) msg.id next_attempt msg.attempts true;
    };
    sent_something = false;
    handed = none;
  }

  -- The throttle of the recipient and the state of the radio. A last send at 0 is no send.
  unfoldable pub tick_unpaused : Worker → OutboundMessage → Ticked
  tick_unpaused w msg =
      let last = last_send msg.to_pubkey w.last_send_to in
      if ltb 0 last && ltb s.at_throttle (last + recipient_gap_ms)
      then deferred w msg ((last + recipient_gap_ms) / 1000 + 1)
      else if not s.radio_available
      then deferred w msg (s.at_deferral / 1000 + min backoff_base_seconds 15)
      else send_claimed w msg

  -- With what `get_outbound_pause_until` returned.
  unfoldable pub tick_resumed : Option ℕ → Worker → OutboundMessage → Ticked
  tick_resumed none w msg = tick_unpaused w msg
  tick_resumed (some until) w msg =
      if ltb (s.at_start / 1000) until then deferred w msg until else tick_unpaused w msg

  unfoldable pub tick_claimed : Option OutboundMessage → Worker → Ticked
  tick_claimed none w = record { worker = w; sent_something = false; handed = none }
  tick_claimed (some msg) w =
      let (db, paused_until) = get_outbound_pause_until w.db (s.at_pause / 1000) msg.to_pubkey in
      tick_resumed paused_until (record w { db = db }) msg

  unfoldable pub tick : Worker → Ticked
  tick w =
      let now = s.at_start / 1000 in
      let db = (drop_stale_outbound w.db (now - max_age_seconds)).0 in
      tick_claimed (claim_next_outbound db now) (record w { db = db })

-- What happens to the queue, one thing at a time: a tick of the worker, a message of the
-- dispatcher, and what the dashboard does to a message or to a recipient.
pub data Event : Type 0 where
  ticks : Surroundings → Event
  enqueues : Text → Text → ℕ → ℕ → Option Text → MsgKind → Event
  cancels : ℕ → Event
  moves_to_back : ℕ → ℕ → Event
  pauses : ℕ → Text → ℕ → Event

unfoldable pub happen : ℕ → Event → Worker → Worker
happen gap (ticks s) w = (tick gap s w).worker
happen gap (enqueues to_pk body now priority trigger kind) w = record w {
  db = (enqueue_outbound w.db to_pk body now priority trigger kind).0;
}
happen gap (cancels msg_id) w = record w { db = (cancel_outbound w.db msg_id).0 }
happen gap (moves_to_back clock msg_id) w = record w {
  db = (move_outbound_to_back w.db clock msg_id).0;
}
happen gap (pauses clock pk seconds) w = record w {
  db = (pause_outbound_recipient w.db clock pk seconds).0;
}

-- The message that an event hands to the radio.
unfoldable pub handed_by : ℕ → Event → Worker → Option OutboundMessage
handed_by gap (ticks s) w = (tick gap s w).handed
handed_by gap _ w = none
