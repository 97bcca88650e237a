-- ===== src/OutboundWorker/Fairness.antt =====
-- A message that is deferred or retried goes behind the others, and its age begins anew.
use native.Mathlib.Nat.{le_refl}
use meshcore_bbs.Db.{Db}
use meshcore_bbs.Db.Outbound.{
  claim_next_outbound, drop_stale_outbound, has_id, is_ready, is_stale, max_enqueued,
  reschedule_outbound, set_status,
}
use meshcore_bbs.Db.Outbound.Claim.{claim_next_outbound-some}
use meshcore_bbs.Models.{OutboundMessage, dropped, is_pending}
use meshcore_bbs.Prelude.{
  ==_iff, All, All-both, All-map, All-update_rows, In-All, List, [], arith, false, filter,
  filter-update_rows, max, refl, some, true, ℕ, ◌+◌, ◌<◌, ◌∷◌, ◌≡◌, ◌≢◌, ◌≤◌,
}

enqueued-le :
    (n : ℕ) (q : List OutboundMessage)
    → max_enqueued q ≤ n
    → All (λ m. is_pending m ≡ true → m.enqueued_at ≤ n) q
enqueued-le n [] h = tt
enqueued-le n (m ∷ ms) h = (
  λ pend. unfold max_enqueued in ground arith,
  enqueued-le n ms (unfold max_enqueued in ground arith),
)

enqueued-le-max :
    (q : List OutboundMessage) → All (λ m. is_pending m ≡ true → m.enqueued_at ≤ max_enqueued q) q
enqueued-le-max q = enqueued-le (max_enqueued q) q (le_refl _)

module _ (db : Db) (clock msg_id next_attempt attempts : ℕ) where
  abbrev requeued : Db
  requeued = reschedule_outbound db clock msg_id next_attempt attempts true

  abbrev back_at : ℕ
  back_at = max clock (max_enqueued db.outbound_queue) + 1

  -- The rows with the id stand at the new time, and the other pending rows before it.
  requeued_order :
      All
        (λ y.
          (has_id msg_id y ≡ true → y.enqueued_at ≡ back_at)
          × (has_id msg_id y ≡ false → is_pending y ≡ true → y.enqueued_at < back_at))
        requeued.outbound_queue
  unfolding reschedule_outbound
  requeued_order =
      All-update_rows (has_id msg_id) _ _ _ db.outbound_queue
        (λ y h. (λ e. ground arith, λ e k. ground (arith, h))) (enqueued-le-max db.outbound_queue)

  -- After a deferral or a retry the message is claimed again only when no other message of its
  -- priority or of a higher one is ready.
  pub claim-reschedule_last :
      (now : ℕ) (m : OutboundMessage)
      → claim_next_outbound requeued now ≡ some m
      → m.id ≡ msg_id
      → All
          (λ y. is_ready now y ≡ true → y.id ≢ msg_id → y.priority < m.priority)
          requeued.outbound_queue
  claim-reschedule_last now m claim same =
      let c = claim_next_outbound-some requeued now m claim in
      let at_back : m.enqueued_at ≡ back_at =
        (In-All _ m requeued.outbound_queue requeued_order c.0).0 ((==_iff m.id msg_id).1 same) in
      All-map _ _ requeued.outbound_queue (λ y h ready other. ground (arith, h.0, h.1.1))
        (All-both _ _ requeued.outbound_queue c.2 requeued_order)

  -- A message that is put back at a reading of the clock is touched by no drop of the messages from
  -- before that reading, however long ago it was first enqueued.
  pub drop_stale-reschedule :
      (before_ts : ℕ)
      → before_ts ≤ clock
      → filter (has_id msg_id) (drop_stale_outbound requeued before_ts).0.outbound_queue
        ≡ filter (has_id msg_id) requeued.outbound_queue
  unfolding drop_stale_outbound
  drop_stale-reschedule before_ts le =
      filter-update_rows (has_id msg_id) (is_stale before_ts) (set_status dropped)
        requeued.outbound_queue (λ y. refl)
        (All-map _ _ requeued.outbound_queue (λ y h e. ground (arith, h.0)) requeued_order)
