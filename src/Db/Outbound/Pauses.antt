-- ===== src/Db/Outbound/Pauses.antt =====
-- `pause_outbound_recipient` keeps the invariant of the queue.
use native.Mathlib.Nat.{le_refl}
use meshcore_bbs.Db.{Db}
use meshcore_bbs.Db.Outbound.{
  has_id, pause_outbound_recipient, put_pause, reschedule_outbound, reschedule_paused,
}
use meshcore_bbs.Db.Outbound.Chances.{IsQueue, IsYoung, same_row}
use meshcore_bbs.Db.Outbound.Keeps.{
  Calm, Calm-refl, Calm-reschedule_outbound, Calm-same, Calm-trans,
}
use meshcore_bbs.Models.{OutboundMessage, is_pending}
use meshcore_bbs.Prelude.{
  &&_left, All, All-both, All-map, All-of_In, All-update_rows, In, In-All, In-filter, List, [], ap,
  arith, filter, max, refl, true, ℕ, ◌&&◌, ◌+◌, ◌<◌, ◌∷◌, ◌≡◌,
}
use meshcore_bbs.Text.{Text, str_eq}

-- The rows with the id of `m` have made as many attempts as `m`.
abbrev Settled : Db → OutboundMessage → Type 0
Settled db m = All (λ y. has_id m.id y ≡ true → y.attempts ≡ m.attempts) db.outbound_queue

module _ (clock until : ℕ) where
  abbrev pause_one : Db → OutboundMessage → Db
  pause_one db m = reschedule_outbound db clock m.id (max m.next_attempt until) m.attempts true

  Settled-pause_one :
      (db : Db) (m n : OutboundMessage) → Settled db m → Settled db n → Settled (pause_one db m) n
  unfolding reschedule_outbound
  Settled-pause_one db m n h k =
      All-update_rows (has_id m.id) _ _ _ db.outbound_queue
        (λ y both e. ground (arith, both.0, both.1)) (All-both _ _ db.outbound_queue h k)

  Settled-All :
      (db : Db) (m : OutboundMessage) (ms : List OutboundMessage)
      → Settled db m
      → All (Settled db) ms
      → All (Settled (pause_one db m)) ms
  Settled-All db m ms h =
      All-map (Settled db) (Settled (pause_one db m)) ms (λ n k. Settled-pause_one db m n h k)

  Calm-reschedule_paused :
      (db : Db) (ms : List OutboundMessage)
      → IsQueue db
      → All (Settled db) ms
      → All (λ m. m.attempts < 5) ms
      → Calm db (reschedule_paused db clock until ms)
  unfolding reschedule_paused
  Calm-reschedule_paused db [] v h k = Calm-refl db v
  Calm-reschedule_paused db (m ∷ ms) v h k =
      let first =
        Calm-reschedule_outbound db v clock m.id (max m.next_attempt until) m.attempts true
          (All-map _ _ db.outbound_queue (λ y f e. rw (f e) (le_refl _)) h.0) k.0 in
      Calm-trans first
        (Calm-reschedule_paused (pause_one db m) ms first.queue (Settled-All db m ms h.0 h.1) k.1)

pub Calm-pause_outbound_recipient :
    (db : Db) (v : IsQueue db) (clock : ℕ) (pk : Text) (seconds : ℕ)
    → Calm db (pause_outbound_recipient db clock pk seconds).0
unfolding pause_outbound_recipient
Calm-pause_outbound_recipient db v clock pk seconds =
    let noted : Db = record db {
      outbound_pause = put_pause pk (clock + seconds) db.outbound_pause;
    } in
    let kept : IsQueue noted = record { distinct = v.distinct; known = v.known; young = v.young } in
    Calm-trans (Calm-same db noted refl refl v) (
      Calm-reschedule_paused clock (clock + seconds) noted
        (filter (λ m. is_pending m && str_eq m.to_pubkey pk) db.outbound_queue) kept
        (All-of_In _ _ (λ m i. settled m (In-filter _ m db.outbound_queue i)))
        (All-of_In _ _ (λ m i. young m (In-filter _ m db.outbound_queue i))))
  where
    settled :
        (m : OutboundMessage)
        → In m db.outbound_queue × ((is_pending m && str_eq m.to_pubkey pk) ≡ true)
        → Settled db m
    settled m found =
        All-map _ _ db.outbound_queue (λ y f e. ap (λ z. z.attempts) (f e))
          (same_row db m v found.0)

    young :
        (m : OutboundMessage)
        → In m db.outbound_queue × ((is_pending m && str_eq m.to_pubkey pk) ≡ true)
        → m.attempts < 5
    young m found =
        In-All IsYoung m db.outbound_queue v.young found.0
          (&&_left (is_pending m) (str_eq m.to_pubkey pk) found.1)
