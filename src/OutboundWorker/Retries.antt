-- ===== src/OutboundWorker/Retries.antt =====
-- No message is handed to the radio more than five times.
use native.Mathlib.Nat.{le_trans}
use meshcore_bbs.Db.{Db}
use meshcore_bbs.Db.Outbound.{
  claim_next_outbound, drop_stale_outbound, get_outbound_pause_until, has_id, mark_outbound_failed,
  mark_outbound_sent, max_enqueued, reschedule_outbound, set_status,
}
use meshcore_bbs.Db.Outbound.Chances.{
  Ages, IsQueue, IsQueue-update, IsYoung, chances, chances_of-update, chances_of-update_lt,
}
use meshcore_bbs.Db.Outbound.Claim.{claim_next_outbound-some}
use meshcore_bbs.Db.Outbound.Keeps.{
  Calm, Calm-audit, Calm-cancel_outbound, Calm-drop_stale_outbound, Calm-enqueue_outbound,
  Calm-get_outbound_pause_until, Calm-move_outbound_to_back, Calm-refl, Calm-reschedule_outbound,
  chances_left, looked_up, rescheduled-Ages, set_status-All,
}
use meshcore_bbs.Db.Outbound.Pauses.{Calm-pause_outbound_recipient}
use meshcore_bbs.Models.{OutboundMessage, Status, failed, is_pending, pending, sent}
use meshcore_bbs.OutboundWorker.{
  Event, Surroundings, Worker, cancels, deferred, enqueues, handed_by, happen, is_delivered,
  last_send, max_age_seconds, max_attempts, moves_to_back, pauses, send_claimed, tick, tick_claimed,
  tick_resumed, tick_unpaused, ticks,
}
use meshcore_bbs.Prelude.{
  &&_left, ==_iff, All, All-map, All-of_map, Bool, Bool-cases, In, In-All, Option, arith,
  if◌then◌else◌, inl, inr, leb, ltb, max, none, refl, some, tests, true, update_rows, ℕ, ◌&&◌, ◌+◌,
  ◌-◌, ◌/◌, ◌<◌, ◌≡◌, ◌≢◌, ◌≤◌,
}
use meshcore_bbs.Text.{Text}

unfoldable pub cost : ℕ → Option OutboundMessage → ℕ
cost id none = 0
cost id (some m) = if has_id id m then 1 else 0

-- Something that keeps the invariant of the queue and pays for what it hands to the radio.
pub record Costs (db db' : Db) (handed : Option OutboundMessage) : Type 0 where
  pub queue : IsQueue db'
  pub paid : (id : ℕ) → cost id handed + chances_left id db' ≤ chances_left id db

pub Costs-none : {db db' : Db} → Calm db db' → Costs db db' none
unfolding cost
Costs-none c = record { queue = c.queue; paid = λ id. omega (arith, c.left id) }

Costs-after : {a b c : Db} {o : Option OutboundMessage} → Calm a b → Costs b c o → Costs a c o
Costs-after h k = record { queue = k.queue; paid = λ id. le_trans (k.paid id) (h.left id) }

Costs-then : {a b c : Db} {o : Option OutboundMessage} → Costs a b o → Calm b c → Costs a c o
Costs-then h k = record { queue = k.queue; paid = λ id. omega (arith, h.paid id, k.left id) }

-- An UPDATE that takes a send from the message that was handed over.
Costs-update :
    (p : OutboundMessage → Bool) (f : OutboundMessage → OutboundMessage) (db : Db)
    (m : OutboundMessage)
    → All (λ y. p y ≡ true → Ages y (f y)) db.outbound_queue
    → IsQueue db
    → In m db.outbound_queue
    → p m ≡ true
    → chances (f m) < chances m
    → Costs db (record db { outbound_queue = update_rows p f db.outbound_queue }) (some m)
unfolding cost chances_left
Costs-update p f db m h v i e lt = record {
  queue = IsQueue-update p f db h v;
  paid = λ id. ground (
    arith,
    chances_of-update p f id db.outbound_queue h,
    chances_of-update_lt p f id m db.outbound_queue h i,
    e,
    lt,
    In-All (λ k. k.id < db.next_outbound) m db.outbound_queue known_ids i,
  );
}
  where
    known_ids : All (λ k. k.id < db.next_outbound) db.outbound_queue
    known_ids = All-of_map (λ k. k.id) (λ k. k < db.next_outbound) db.outbound_queue v.known

has_own_id : (m : OutboundMessage) → has_id m.id m ≡ true
has_own_id m = (==_iff m.id m.id).1 refl

chances_done : (st : Status) (m : OutboundMessage) → st ≢ pending → chances (set_status st m) ≡ 0
unfolding chances
chances_done pending m h = absurd (h refl)
chances_done _ m h = refl

module _ (gap : ℕ) (s : Surroundings) (w : Worker) (m : OutboundMessage) (v : IsQueue w.db)
    (i : In m w.db.outbound_queue) (e : is_pending m ≡ true) where
  young : m.attempts < 5
  young = In-All IsYoung m w.db.outbound_queue v.young i e

  chances_some : 0 < chances m
  unfolding chances
  chances_some = ground (arith, young)

  Costs-status :
      (st : Status)
      → st ≢ pending
      → Costs w.db
          (record w.db {
            outbound_queue = update_rows (has_id m.id) (set_status st) w.db.outbound_queue;
          })
          (some m)
  Costs-status st h =
      Costs-update (has_id m.id) (set_status st) w.db m
        (set_status-All st (has_id m.id) w.db.outbound_queue h) v i (has_own_id m)
        (rw (chances_done st m h) chances_some)

  Costs-retry :
      (clock next_attempt : ℕ)
      → m.attempts + 1 < 5
      → Costs w.db (reschedule_outbound w.db clock m.id next_attempt (m.attempts + 1) true) (some m)
  unfolding reschedule_outbound
  Costs-retry clock next_attempt lt =
      Costs-update (has_id m.id) _ w.db m
        (rescheduled-Ages (max clock (max_enqueued w.db.outbound_queue) + 1) m.id next_attempt
          (m.attempts + 1) true w.db.outbound_queue
          (All-map _ _ w.db.outbound_queue (λ y k h. omega (arith, (looked_up w.db v m i e).1, k h))
            (looked_up w.db v m i e).0)
          lt)
        v i (has_own_id m) (unfold chances in ground arith)

  send_claimed-Costs : Costs w.db (send_claimed gap s w m).worker.db (send_claimed gap s w m).handed
  unfolding send_claimed mark_outbound_sent mark_outbound_failed
  send_claimed-Costs = elim (Bool-cases (is_delivered s.outcome)) [
    | inl done ↦ rw done (Costs-status sent (λ e. cc))
    | inr lost ↦ rw lost (elim (Bool-cases (leb max_attempts (m.attempts + 1))) [
      | inl last ↦ rw last (
          Costs-then (Costs-status failed (λ e. cc))
            (Calm-audit _ (Costs-status failed (λ e. cc)).queue _ _ _ _))
      | inr again ↦ rw again (Costs-retry _ _ (omega tests))
    ])
  ]

  deferred-Costs : (next_attempt : ℕ) → Costs w.db (deferred gap s w m next_attempt).worker.db none
  deferred-Costs next_attempt = Costs-none (
      Calm-reschedule_outbound w.db v (s.at_requeue / 1000) m.id next_attempt m.attempts true
        (looked_up w.db v m i e).0 young)

  tick_unpaused-Costs :
      Costs w.db (tick_unpaused gap s w m).worker.db (tick_unpaused gap s w m).handed
  unfolding tick_unpaused
  tick_unpaused-Costs =
      elim (Bool-cases (
        ltb 0 (last_send m.to_pubkey w.last_send_to)
        && ltb s.at_throttle (last_send m.to_pubkey w.last_send_to + gap))) [
          | inl soon ↦ rw soon (deferred-Costs _)
          | inr free ↦ rw free (elim (Bool-cases s.radio_available) [
            | inl up ↦ simp up send_claimed-Costs
            | inr down ↦ simp down (deferred-Costs _)
          ])
        ]

  tick_resumed-Costs :
      (paused : Option ℕ)
      → Costs w.db (tick_resumed gap s paused w m).worker.db (tick_resumed gap s paused w m).handed
  unfolding tick_resumed
  tick_resumed-Costs none = tick_unpaused-Costs
  tick_resumed-Costs (some until) = elim (Bool-cases (ltb (s.at_start / 1000) until)) [
    | inl waits ↦ rw waits (deferred-Costs until)
    | inr over ↦ rw over tick_unpaused-Costs
  ]

tick_claimed-Costs :
    (gap : ℕ) (s : Surroundings) (claim : Option OutboundMessage) (w : Worker)
    → IsQueue w.db
    → ((m : OutboundMessage) → claim ≡ some m → In m w.db.outbound_queue × (is_pending m ≡ true))
    → Costs w.db (tick_claimed gap s claim w).worker.db (tick_claimed gap s claim w).handed
unfolding tick_claimed
tick_claimed-Costs gap s none w v found = Costs-none (Calm-refl w.db v)
tick_claimed-Costs gap s (some msg) w v found =
    let pause = get_outbound_pause_until w.db (s.at_pause / 1000) msg.to_pubkey in
    let calm = Calm-get_outbound_pause_until w.db v (s.at_pause / 1000) msg.to_pubkey in
    let i : In msg pause.0.outbound_queue =
      rw (same_queue w.db (s.at_pause / 1000) msg.to_pubkey) ((found msg refl).0) in
    Costs-after calm (
      tick_resumed-Costs gap s (record w { db = pause.0 }) msg calm.queue i (found msg refl).1
        pause.1)
  where
    same_queue :
        (db : Db) (clock : ℕ) (pk : Text)
        → (get_outbound_pause_until db clock pk).0.outbound_queue ≡ db.outbound_queue
    same_queue db clock pk = unfold get_outbound_pause_until in ground arith

pub tick-Costs :
    (gap : ℕ) (s : Surroundings) (w : Worker)
    → IsQueue w.db
    → Costs w.db (tick gap s w).worker.db (tick gap s w).handed
unfolding tick
tick-Costs gap s w v =
    let now = s.at_start / 1000 in
    let db = (drop_stale_outbound w.db (now - max_age_seconds)).0 in
    let calm = Calm-drop_stale_outbound w.db v (now - max_age_seconds) in
    Costs-after calm (
      tick_claimed-Costs gap s (claim_next_outbound db now) (record w { db = db }) calm.queue
        (λ m e.
          let c = claim_next_outbound-some db now m e in
          (c.0, &&_left (is_pending m) (leb m.next_attempt now) c.1)))

pub happen-Costs :
    (gap : ℕ) (event : Event) (w : Worker)
    → IsQueue w.db
    → Costs w.db (happen gap event w).db (handed_by gap event w)
unfolding happen handed_by
happen-Costs gap (ticks s) w v = tick-Costs gap s w v
happen-Costs gap (enqueues to_pk body now priority trigger kind) w v =
    Costs-none (Calm-enqueue_outbound w.db v to_pk body now priority trigger kind)
happen-Costs gap (cancels msg_id) w v = Costs-none (Calm-cancel_outbound w.db v msg_id)
happen-Costs gap (moves_to_back clock msg_id) w v =
    Costs-none (Calm-move_outbound_to_back w.db v clock msg_id)
happen-Costs gap (pauses clock pk seconds) w v =
    Costs-none (Calm-pause_outbound_recipient w.db v clock pk seconds)
