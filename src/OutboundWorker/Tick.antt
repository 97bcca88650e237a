-- ===== src/OutboundWorker/Tick.antt =====
-- When a tick hands a message to the radio.
use meshcore_bbs.Db.Outbound.{claim_next_outbound, drop_stale_outbound, get_outbound_pause_until}
use meshcore_bbs.Models.{OutboundMessage}
use meshcore_bbs.OutboundWorker.{
  Surroundings, Worker, last_send, max_age_seconds, put_last_send, send_claimed, tick, tick_claimed,
  tick_resumed, tick_unpaused,
}
use meshcore_bbs.Prelude.{
  Bool-cases, List, Option, [], ap, arith, if◌then◌else◌, inl, inr, ltb, none, refl, some, tests,
  true, ℕ, ◌+◌, ◌-◌, ◌/◌, ◌<◌, ◌∷◌, ◌≡◌, ◌≤◌,
}
use meshcore_bbs.Text.{Text, str_eq}
use meshcore_bbs.Text.Laws.{str_eq_iff}

-- What a tick that hands over `m` has found.
pub record MaySend (gap : ℕ) (s : Surroundings) (w : Worker) (m : OutboundMessage) : Type 0 where
  pub claimed :
      claim_next_outbound
        (drop_stale_outbound w.db (s.at_start / 1000 - max_age_seconds)).0
        (s.at_start / 1000)
      ≡ some m
  pub not_paused :
      (until : ℕ)
      → (get_outbound_pause_until
          (drop_stale_outbound w.db (s.at_start / 1000 - max_age_seconds)).0
          (s.at_pause / 1000)
          m.to_pubkey).1
        ≡ some until
      → until ≤ s.at_start / 1000
  pub spaced :
      0 < last_send m.to_pubkey w.last_send_to
      → last_send m.to_pubkey w.last_send_to + gap ≤ s.at_throttle
  pub radio : s.radio_available ≡ true
  pub noted :
      (tick gap s w).worker.last_send_to ≡ put_last_send m.to_pubkey s.after_send w.last_send_to

send_claimed_handed :
    (gap : ℕ) (s : Surroundings) (w : Worker) (m : OutboundMessage)
    → ((send_claimed gap s w m).handed ≡ some m)
      × ((send_claimed gap s w m).worker.last_send_to
          ≡ put_last_send m.to_pubkey s.after_send w.last_send_to)
unfolding send_claimed
send_claimed_handed gap s w m = (ground arith, ground arith)

record Unpaused (gap : ℕ) (s : Surroundings) (w : Worker) (msg m : OutboundMessage)
    (after : List (Text × ℕ)) : Type 0 where
  same : msg ≡ m
  spaced :
      0 < last_send m.to_pubkey w.last_send_to
      → last_send m.to_pubkey w.last_send_to + gap ≤ s.at_throttle
  radio : s.radio_available ≡ true
  noted : after ≡ put_last_send m.to_pubkey s.after_send w.last_send_to

module _ (gap : ℕ) (s : Surroundings) where
  tick_unpaused_handed :
      (w : Worker) (msg m : OutboundMessage)
      → (tick_unpaused gap s w msg).handed ≡ some m
      → Unpaused gap s w msg m (tick_unpaused gap s w msg).worker.last_send_to
  unfolding tick_unpaused
  tick_unpaused_handed w msg m h = record {
    same = ground (arith, send_claimed_handed gap s w msg);
    spaced = λ before. ground (arith, send_claimed_handed gap s w msg);
    radio = ground arith;
    noted = ground (arith, send_claimed_handed gap s w msg);
  }

  tick_resumed_handed :
      (paused : Option ℕ) (w : Worker) (msg m : OutboundMessage)
      → (tick_resumed gap s paused w msg).handed ≡ some m
      → ((until : ℕ) → paused ≡ some until → until ≤ s.at_start / 1000)
        × Unpaused gap s w msg m (tick_resumed gap s paused w msg).worker.last_send_to
  unfolding tick_resumed
  tick_resumed_handed none w msg m h = (λ until e. cc, tick_unpaused_handed w msg m h)
  tick_resumed_handed (some until) w msg m h = elim (Bool-cases (ltb (s.at_start / 1000) until)) [
    | inl waits ↦ absurd (not_handed (rw waits at h))
    | inr over ↦
        rw over
          (λ u e. omega (tests, some-injective' e), tick_unpaused_handed w msg m (rw over at h))
  ]
    where
      not_handed : ◌≡◌ {A = Option OutboundMessage} none (some m) → ⊥
      not_handed e = cc

      some-injective' : {a b : ℕ} → some a ≡ some b → a ≡ b
      some-injective' e = cc

  tick_claimed_handed :
      (claim : Option OutboundMessage) (w : Worker) (m : OutboundMessage)
      → (tick_claimed gap s claim w).handed ≡ some m
      → (claim ≡ some m)
        × ((until : ℕ)
            → (get_outbound_pause_until w.db (s.at_pause / 1000) m.to_pubkey).1 ≡ some until
            → until ≤ s.at_start / 1000)
        × Unpaused gap s w m m (tick_claimed gap s claim w).worker.last_send_to
  unfolding tick_claimed
  tick_claimed_handed none w m h = absurd (cc)
  tick_claimed_handed (some msg) w m h =
      let pause = get_outbound_pause_until w.db (s.at_pause / 1000) msg.to_pubkey in
      let found = tick_resumed_handed pause.1 (record w { db = pause.0 }) msg m h in
      (
        ap some found.1.same,
        λ until e. found.0 until (rw found.1.same e),
        record {
          same = refl;
          spaced = found.1.spaced;
          radio = found.1.radio;
          noted = found.1.noted;
        },
      )

-- A tick hands a message to the radio only if it is the one claimed, its recipient is not paused,
-- the last send to the recipient is at least the gap ago, and the radio is up; and it notes the
-- time of the send.
pub tick_handed :
    (gap : ℕ) (s : Surroundings) (w : Worker) (m : OutboundMessage)
    → (tick gap s w).handed ≡ some m
    → MaySend gap s w m
unfolding tick
tick_handed gap s w m h =
    let now = s.at_start / 1000 in
    let db = (drop_stale_outbound w.db (now - max_age_seconds)).0 in
    let found = tick_claimed_handed gap s (claim_next_outbound db now) (record w { db = db }) m h in
    record {
      claimed = found.0;
      not_paused = found.1;
      spaced = found.2.spaced;
      radio = found.2.radio;
      noted = found.2.noted;
    }

module _ (gap : ℕ) (s : Surroundings) where
  tick_unpaused_idle :
      (w : Worker) (msg : OutboundMessage)
      → (tick_unpaused gap s w msg).handed ≡ none
      → (tick_unpaused gap s w msg).worker.last_send_to ≡ w.last_send_to
  unfolding tick_unpaused
  tick_unpaused_idle w msg h = ground (arith, send_claimed_handed gap s w msg)

  tick_resumed_idle :
      (paused : Option ℕ) (w : Worker) (msg : OutboundMessage)
      → (tick_resumed gap s paused w msg).handed ≡ none
      → (tick_resumed gap s paused w msg).worker.last_send_to ≡ w.last_send_to
  unfolding tick_resumed
  tick_resumed_idle none w msg h = tick_unpaused_idle w msg h
  tick_resumed_idle (some until) w msg h = ground (arith, tick_unpaused_idle w msg)

  tick_claimed_idle :
      (claim : Option OutboundMessage) (w : Worker)
      → (tick_claimed gap s claim w).handed ≡ none
      → (tick_claimed gap s claim w).worker.last_send_to ≡ w.last_send_to
  unfolding tick_claimed
  tick_claimed_idle none w h = refl
  tick_claimed_idle (some msg) w h =
      let pause = get_outbound_pause_until w.db (s.at_pause / 1000) msg.to_pubkey in
      tick_resumed_idle pause.1 (record w { db = pause.0 }) msg h

-- A tick that hands over nothing leaves the times of the sends alone.
pub tick_idle :
    (gap : ℕ) (s : Surroundings) (w : Worker)
    → (tick gap s w).handed ≡ none
    → (tick gap s w).worker.last_send_to ≡ w.last_send_to
unfolding tick
tick_idle gap s w h =
    let now = s.at_start / 1000 in
    let db = (drop_stale_outbound w.db (now - max_age_seconds)).0 in
    tick_claimed_idle gap s (claim_next_outbound db now) (record w { db = db }) h

pub last_send-put_last_send :
    (k j : Text) (t : ℕ) (times : List (Text × ℕ))
    → last_send j (put_last_send k t times) ≡ (if str_eq k j then t else last_send j times)
unfolding last_send put_last_send
last_send-put_last_send k j t [] = refl
last_send-put_last_send k j t ((i, u) ∷ times) =
    ground
      (arith, str_eq_iff k j, str_eq_iff i k, str_eq_iff i j, last_send-put_last_send k j t times)
