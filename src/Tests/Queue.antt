-- ===== src/Tests/Queue.antt =====
-- Runs of the outbound worker.
use meshcore_bbs.Db.{Db, empty_db}
use meshcore_bbs.Db.Outbound.{
  claim_next_outbound, drop_stale_outbound, get_outbound_pause_until, has_id, is_ready,
  max_enqueued, new_message, outbound_pending_depth, reschedule_outbound,
}
use meshcore_bbs.Db.Outbound.Claim.{
  GoesBefore, IsDue, claim_next_outbound-IsDue, claim_next_outbound_idle,
}
use meshcore_bbs.Dispatcher.{enqueue_reply, priority_normal}
use meshcore_bbs.Dispatcher.Queueing.{bodies, enqueue_reply-bodies}
use meshcore_bbs.Format.{default_packet_bytes, split_packets}
use meshcore_bbs.Models.{OutboundMessage, notification, pending, response}
use meshcore_bbs.OutboundWorker.{
  Event, Surroundings, Worker, enqueues, last_send, send_claimed, tick, tick_claimed, tick_resumed,
  tick_unpaused, ticks,
}
use meshcore_bbs.OutboundWorker.Fairness.{claim-reschedule_last, drop_stale-reschedule}
use meshcore_bbs.OutboundWorker.Loop.{
  AreApart, Ending, Round, ended, raises_after_send, returns, run_loop, run_loop-AreApart,
  sleep_until_next_send_allowed,
}
use meshcore_bbs.OutboundWorker.Spacing.{IsSpaced, sends, sends-IsSpaced}
use meshcore_bbs.Prelude.{
  All, In, List, [], arith, filter, if◌then◌else◌, leb, length, ltb, none, refl, true, ℕ, ◌&&◌,
  ◌++◌, ◌+◌, ◌<◌, ◌↔◌, ◌∷◌, ◌≡◌, ◌≢◌,
}
use meshcore_bbs.Tests.{alice_key, bob_key, some_db}
use meshcore_bbs.Text.{lit}
use meshcore_bbs.Transport.{SendOutcome, delivered, no_ack}

abbrev waiting : Worker
waiting = record {
  db = empty_db;
  last_send_at = 0;
  last_send_to = [];
  sends_attempted = 0;
  sends_succeeded = 0;
  sends_failed = 0;
}

abbrev at_time : ℕ → SendOutcome → Surroundings
at_time t outcome = record {
  at_start = t;
  at_pause = t;
  at_throttle = t;
  at_deferral = t;
  after_send = t + 100;
  at_audit = t + 100;
  at_backoff = t + 100;
  at_requeue = t + 100;
  radio_available = true;
  outcome = outcome;
}

abbrev run : List Event
run =
    enqueues alice_key (lit "one") 10 10 none response
    ∷ enqueues alice_key (lit "two") 10 10 none response
    ∷ ticks (at_time 20000 no_ack)
    ∷ ticks (at_time 30000 delivered)
    ∷ []

sends-IsSpaced_example : IsSpaced 3000 (sends 3000 run waiting)
sends-IsSpaced_example =
    sends-IsSpaced 3000 run waiting 1 (omega arith) (λ pk. unfold last_send in omega arith)
      (omega arith, omega arith, (omega arith, omega arith, tt))

abbrev queued : Db
queued = record empty_db {
  outbound_queue =
      new_message 1 alice_key (lit "one") 10 1 none notification
      ∷ new_message 2 bob_key (lit "two") 12 10 none response
      ∷ [];
  next_outbound = 3;
}

claim_next_outbound-IsDue_example :
    In (new_message 2 bob_key (lit "two") 12 10 none response) queued.outbound_queue
    × IsDue 20 (new_message 2 bob_key (lit "two") 12 10 none response)
    × All
        (λ y. IsDue 20 y → GoesBefore (new_message 2 bob_key (lit "two") 12 10 none response) y)
        queued.outbound_queue
claim_next_outbound-IsDue_example =
    claim_next_outbound-IsDue queued 20 (new_message 2 bob_key (lit "two") 12 10 none response)
      (unfold claim_next_outbound in refl)

claim_next_outbound_idle_example :
    (claim_next_outbound queued 11 ≡ none)
    ↔ All (λ y. y.status ≡ pending → 11 < y.next_attempt) queued.outbound_queue
claim_next_outbound_idle_example = claim_next_outbound_idle queued 11

abbrev round : ℕ → SendOutcome → Ending → Round
round t outcome how = record {
  found = queued;
  surroundings = at_time t outcome;
  ending = how;
  at_sleep = t + 100;
}

run_loop-AreApart_example : AreApart 1000 (
    run_loop 1000 3000
      (round 20000 no_ack raises_after_send ∷ round 20600 delivered returns ∷ [])
      waiting)
run_loop-AreApart_example =
    run_loop-AreApart 1000 3000
      (round 20000 no_ack raises_after_send ∷ round 20600 delivered returns ∷ []) waiting 1
      (
        omega arith,
        omega arith,
        omega arith,
        (
          unfold ended tick tick_claimed tick_resumed tick_unpaused send_claimed drop_stale_outbound
                claim_next_outbound get_outbound_pause_until sleep_until_next_send_allowed
                last_send in
              omega arith,
          omega arith,
          omega arith,
          tt,
        ),
      )

abbrev retried : OutboundMessage
retried = record (new_message 1 alice_key (lit "one") 10 1 none notification) {
  next_attempt = 20;
  attempts = 1;
  enqueued_at = 21;
}

abbrev alone : Db
alone = record queued {
  outbound_queue = new_message 1 alice_key (lit "one") 10 1 none notification ∷ [];
}

claim-reschedule_last_example :
    All
      (λ y. is_ready 20 y ≡ true → y.id ≢ 1 → y.priority < 1)
      (reschedule_outbound alone 20 1 20 1 true).outbound_queue
claim-reschedule_last_example =
    claim-reschedule_last alone 20 1 20 1 20 retried
      (unfold claim_next_outbound reschedule_outbound max_enqueued in refl) refl

drop_stale-reschedule_example :
    filter
      (has_id 1)
      (drop_stale_outbound (reschedule_outbound alone 90000 1 90000 1 true) 3600).0.outbound_queue
    ≡ filter (has_id 1) (reschedule_outbound alone 90000 1 90000 1 true).outbound_queue
drop_stale-reschedule_example = drop_stale-reschedule alone 90000 1 90000 1 3600 (omega arith)

enqueue_reply-bodies_example :
    let packets =
      if leb 100 (outbound_pending_depth some_db) && ltb 10 priority_normal
      then []
      else split_packets (lit "hello") default_packet_bytes in
    let after = enqueue_reply 100 200 some_db alice_key (lit "hello") 10 none in
    (bodies after ≡ bodies some_db ++ packets)
    × (outbound_pending_depth after ≡ outbound_pending_depth some_db + length packets)
enqueue_reply-bodies_example = enqueue_reply-bodies 200 alice_key 10 none 100 some_db (lit "hello")
