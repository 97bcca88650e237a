-- ===== src/OutboundWorker/Loop.antt =====
-- _run of outbound.py: the ticks one behind the other, with a sleep between them.
use native.Mathlib.Nat.{le_trans}
use meshcore_bbs.Db.{Db}
use meshcore_bbs.Models.{OutboundMessage}
use meshcore_bbs.OutboundWorker.{
  Surroundings, Ticked, Worker, send_claimed, tick, tick_claimed, tick_resumed, tick_unpaused,
}
use meshcore_bbs.OutboundWorker.Spacing.{Sent}
use meshcore_bbs.Prelude.{
  All, Bool, List, Option, [], arith, false, if◌then◌else◌, ltb, none, refl, some, true, ℕ, ◌+◌,
  ◌-◌, ◌∷◌, ◌≡◌, ◌≤◌,
}

-- How a tick ends: it returns, or it raises in one of the statements before the call of `send_msg`,
-- or in one behind the send, which the worker has noted then. `send_msg` itself does not raise, as in
-- meshcore.py, where `_run_mc` catches what the command raises.
pub data Ending : Type 0 where
  returns raises_before_send raises_after_send : Ending

-- One round of the loop: the database as the other tasks have left it, the tick with its ending, and
-- the reading of the clock after it, at the beginning of the sleep.
pub record Round : Type 0 where
  pub found : Db
  pub surroundings : Surroundings
  pub ending : Ending
  pub at_sleep : ℕ

-- A send, and whether its tick returned.
pub record LoopSend : Type 0 where
  pub sent : Sent
  pub returned : Bool

-- A tick that raises, for a worker `w`. The database of the next round is found again, so it is not
-- said here what the database holds.
unfoldable pub ended : Ending → Worker → Ticked → Ticked
ended returns w t = t
ended raises_before_send w t = record { worker = w; sent_something = false; handed = none }
ended raises_after_send w t = record {
  worker = record w {
    last_send_at = t.worker.last_send_at;
    last_send_to = t.worker.last_send_to;
    sends_attempted = t.worker.sends_attempted;
  };
  sent_something = false;
  handed = t.handed;
}

abbrev has_returned : Ending → Bool
has_returned returns = true
has_returned _ = false

abbrev noted_in : Ending → Option OutboundMessage → Surroundings → List LoopSend → List LoopSend
noted_in ending none s rest = rest
noted_in ending (some m) s rest =
    record {
      sent = record { recipient = m.to_pubkey; checked_at = s.at_throttle; sent_at = s.after_send };
      returned = has_returned ending;
    }
    ∷ rest

module _ (min_interval_ms : ℕ) where
  -- For how long it sleeps.
  unfoldable pub sleep_until_next_send_allowed : ℕ → Worker → ℕ
  sleep_until_next_send_allowed clock w =
      if ltb clock (w.last_send_at + min_interval_ms)
      then (w.last_send_at + min_interval_ms) - clock
      else 0

  abbrev pub sleep_after : ℕ → Ticked → ℕ
  sleep_after clock t =
      if t.sent_something then sleep_until_next_send_allowed clock t.worker else 500

  -- Each send is an interval behind every earlier one: the configured one, or half a second behind
  -- a send whose tick raised.
  abbrev pub AreApart : List LoopSend → Type 0
  AreApart [] = Unit
  AreApart (x ∷ xs) =
      All (λ y. x.sent.sent_at + (if x.returned then min_interval_ms else 500) ≤ y.sent.checked_at)
        xs
      × AreApart xs

module _ (min_interval_ms recipient_gap_ms : ℕ) where
  abbrev pub tick_of : Round → Worker → Ticked
  tick_of r w =
      ended r.ending (record w { db = r.found })
        (tick recipient_gap_ms r.surroundings (record w { db = r.found }))

  -- The sends of the loop until it is stopped, in their order.
  unfoldable pub run_loop : List Round → Worker → List LoopSend
  run_loop [] w = []
  run_loop (r ∷ rest) w =
      noted_in r.ending (tick_of r w).handed r.surroundings (run_loop rest (tick_of r w).worker)

  -- The clock is not set back, and a sleep takes no less than it was asked for.
  abbrev pub Slept : ℕ → List Round → Worker → Type 0
  Slept woken [] w = Unit
  Slept woken (r ∷ rest) w =
      (woken ≤ r.surroundings.at_throttle)
      × (r.surroundings.at_throttle ≤ r.surroundings.after_send)
      × (r.surroundings.after_send ≤ r.at_sleep)
      × Slept (r.at_sleep + sleep_after min_interval_ms r.at_sleep (tick_of r w)) rest
          (tick_of r w).worker

module _ (gap : ℕ) (s : Surroundings) where
  abbrev Notes : Ticked → Type 0
  Notes t =
      (m : OutboundMessage)
      → t.handed ≡ some m
      → (t.sent_something ≡ true) × (t.worker.last_send_at ≡ s.after_send)

  send_claimed-Notes : (w : Worker) (msg : OutboundMessage) → Notes (send_claimed gap s w msg)
  unfolding send_claimed
  send_claimed-Notes w msg m h = (ground arith, ground arith)

  tick_unpaused-Notes : (w : Worker) (msg : OutboundMessage) → Notes (tick_unpaused gap s w msg)
  unfolding tick_unpaused
  tick_unpaused-Notes w msg m h =
      (ground (arith, send_claimed-Notes w msg m), ground (arith, send_claimed-Notes w msg m))

  tick_resumed-Notes :
      (paused : Option ℕ) (w : Worker) (msg : OutboundMessage)
      → Notes (tick_resumed gap s paused w msg)
  unfolding tick_resumed
  tick_resumed-Notes none w msg m h = tick_unpaused-Notes w msg m h
  tick_resumed-Notes (some until) w msg m h =
      (ground (arith, tick_unpaused-Notes w msg m), ground (arith, tick_unpaused-Notes w msg m))

  tick_claimed-Notes :
      (claim : Option OutboundMessage) (w : Worker) → Notes (tick_claimed gap s claim w)
  unfolding tick_claimed
  tick_claimed-Notes none w m h = absurd (cc)
  tick_claimed-Notes (some msg) w m h = tick_resumed-Notes _ _ msg m h

  tick-Notes : (w : Worker) → Notes (tick gap s w)
  unfolding tick
  tick-Notes w = tick_claimed-Notes _ _

module _ (min_interval_ms gap : ℕ) where
  sleep_enough :
      (clock : ℕ) (t : Ticked) (sent_at : ℕ)
      → t.sent_something ≡ true
      → t.worker.last_send_at ≡ sent_at
      → sent_at + min_interval_ms ≤ clock + sleep_after min_interval_ms clock t
  unfolding sleep_until_next_send_allowed
  sleep_enough clock t sent_at h e = ground (arith, h, e)

  abbrev Later : ℕ → List LoopSend → Type 0
  Later bound = All (λ y. bound ≤ y.sent.checked_at)

  noted-Later :
      (bound : ℕ) (s : Surroundings) (ending : Ending) (o : Option OutboundMessage)
      (xs : List LoopSend)
      → bound ≤ s.at_throttle
      → Later bound xs
      → Later bound (noted_in ending o s xs)
  noted-Later bound s ending none xs le h = h
  noted-Later bound s ending (some m) xs le h = (le, h)

  -- No send is checked before the loop has woken.
  run_loop-Later :
      (rounds : List Round) (w : Worker) (bound woken : ℕ)
      → bound ≤ woken
      → Slept min_interval_ms gap woken rounds w
      → Later bound (run_loop min_interval_ms gap rounds w)
  unfolding run_loop
  run_loop-Later [] w bound woken le slept = tt
  run_loop-Later (r ∷ rest) w bound woken le slept =
      noted-Later bound r.surroundings r.ending _ _ (le_trans le slept.0)
        (run_loop-Later rest _ bound _ (omega (arith, le, slept.0, slept.1, slept.2)) slept.3)

  noted-AreApart :
      (s : Surroundings) (ending : Ending) (o : Option OutboundMessage) (xs : List LoopSend)
      → ((m : OutboundMessage)
          → o ≡ some m
          → Later (s.after_send + (if has_returned ending then min_interval_ms else 500)) xs)
      → AreApart min_interval_ms xs
      → AreApart min_interval_ms (noted_in ending o s xs)
  noted-AreApart s ending none xs later h = h
  noted-AreApart s ending (some m) xs later h = (later m refl, h)

  -- After a round that handed a message over, the loop sleeps for long enough.
  round_enough :
      (ending : Ending) (s : Surroundings) (w : Worker) (clock : ℕ) (m : OutboundMessage)
      → s.after_send ≤ clock
      → (ended ending w (tick gap s w)).handed ≡ some m
      → s.after_send + (if has_returned ending then min_interval_ms else 500)
        ≤ clock + sleep_after min_interval_ms clock (ended ending w (tick gap s w))
  unfolding ended
  round_enough returns s w clock m le h =
      let notes = tick-Notes gap s w m h in
      sleep_enough clock (tick gap s w) s.after_send notes.0 notes.1
  round_enough raises_before_send s w clock m le h = absurd (cc)
  round_enough raises_after_send s w clock m le h = omega (arith, le)

  -- While the loop runs, with whatever the other tasks do to the database between the ticks, and
  -- whether ticks return or raise, no message is handed to the radio before the minimum interval has
  -- passed since the end of every earlier send to anybody by a tick that returned, nor before half a
  -- second has passed since the end of an earlier send by a tick that raised afterwards, if the clock
  -- is not set back, no sleep is shorter than asked for, and `send_msg` itself does not raise.
  pub run_loop-AreApart :
      (rounds : List Round) (w : Worker) (woken : ℕ)
      → Slept min_interval_ms gap woken rounds w
      → AreApart min_interval_ms (run_loop min_interval_ms gap rounds w)
  unfolding run_loop
  run_loop-AreApart [] w woken slept = tt
  run_loop-AreApart (r ∷ rest) w woken slept =
      noted-AreApart r.surroundings r.ending _ _
        (λ m handed.
          run_loop-Later rest _ _ _
            (round_enough r.ending r.surroundings (record w { db = r.found }) r.at_sleep m slept.2
              handed)
            slept.3)
        (run_loop-AreApart rest _ _ slept.3)
