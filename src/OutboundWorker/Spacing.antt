-- ===== src/OutboundWorker/Spacing.antt =====
-- The per-recipient throttle over a whole run of the worker.
use native.Mathlib.Nat.{le_refl, le_trans}
use meshcore_bbs.Models.{OutboundMessage}
use meshcore_bbs.OutboundWorker.{Event, Surroundings, Worker, happen, last_send, tick, ticks}
use meshcore_bbs.OutboundWorker.Tick.{last_send-put_last_send, tick_handed, tick_idle}
use meshcore_bbs.Prelude.{
  All, All-map, List, Option, Option-cases, [], arith, inl, inr, none, refl, some, subst, ℕ, ◌+◌,
  ◌<◌, ◌∷◌, ◌≡◌, ◌≤◌,
}
use meshcore_bbs.Text.{Text}
use meshcore_bbs.Text.Laws.{str_eq_refl}

-- A message that was handed to the radio: its recipient, and the readings of the clock at the
-- throttle and behind the send.
pub record Sent : Type 0 where
  pub recipient : Text
  pub checked_at : ℕ
  pub sent_at : ℕ

abbrev noted : Option OutboundMessage → Surroundings → List Sent → List Sent
noted none s rest = rest
noted (some m) s rest =
    record { recipient = m.to_pubkey; checked_at = s.at_throttle; sent_at = s.after_send } ∷ rest

-- The sends of a run, in their order.
unfoldable pub sends : ℕ → List Event → Worker → List Sent
sends gap [] w = []
sends gap (ticks s ∷ rest) w = noted (tick gap s w).handed s (sends gap rest (tick gap s w).worker)
sends gap (event ∷ rest) w = sends gap rest (happen gap event w)

-- The clock is not set back: each tick reads it after `since` and in the order of its statements.
abbrev pub Clocked : ℕ → List Event → Type 0
Clocked since [] = Unit
Clocked since (ticks s ∷ rest) =
    (since ≤ s.at_throttle) × (s.at_throttle ≤ s.after_send) × Clocked s.after_send rest
Clocked since (event ∷ rest) = Clocked since rest

-- The worker has noted no send later than `since`.
abbrev pub IsNoted : ℕ → Worker → Type 0
IsNoted since w = (pk : Text) → last_send pk w.last_send_to ≤ since

-- Each send is a gap behind every earlier send to the same recipient.
abbrev pub IsSpaced : ℕ → List Sent → Type 0
IsSpaced gap [] = Unit
IsSpaced gap (x ∷ xs) =
    All (λ y. y.recipient ≡ x.recipient → x.sent_at + gap ≤ y.checked_at) xs × IsSpaced gap xs

-- The sends to `pk` stand a gap behind the send that the worker has noted.
abbrev Follows : ℕ → Text → ℕ → List Sent → Type 0
Follows gap pk before = All (λ y. y.recipient ≡ pk → 0 < before → before + gap ≤ y.checked_at)

last_send_grows :
    (gap : ℕ) (s : Surroundings) (w : Worker) (since : ℕ) (pk : Text)
    → IsNoted since w
    → since ≤ s.after_send
    → (last_send pk w.last_send_to ≤ last_send pk (tick gap s w).worker.last_send_to)
      × (last_send pk (tick gap s w).worker.last_send_to ≤ s.after_send)
last_send_grows gap s w since pk n le = elim (Option-cases (tick gap s w).handed) [
  | inl idle ↦ rw (tick_idle gap s w idle) (le_refl _, le_trans (n pk) le)
  | inr (m, handed) ↦
      rw ((tick_handed gap s w m handed).noted, last_send-put_last_send) (ground (arith, n pk))
]

Follows-mono :
    (gap : ℕ) (pk : Text) (a b : ℕ) (xs : List Sent)
    → a ≤ b
    → Follows gap pk b xs
    → Follows gap pk a xs
Follows-mono gap pk a b [] le h = tt
Follows-mono gap pk a b (x ∷ xs) le h =
    (λ e pos. omega (arith, h.0 e (omega arith)), Follows-mono gap pk a b xs le h.1)

noted-Follows :
    (gap : ℕ) (s : Surroundings) (w : Worker) (pk : Text) (o : Option OutboundMessage)
    (xs : List Sent)
    → (tick gap s w).handed ≡ o
    → Follows gap pk (last_send pk w.last_send_to) xs
    → Follows gap pk (last_send pk w.last_send_to) (noted o s xs)
noted-Follows gap s w pk none xs e h = h
noted-Follows gap s w pk (some m) xs e h =
    (λ same pos. rw same at ((tick_handed gap s w m e).spaced (rw same pos)), h)

module _ (gap : ℕ) (pk : Text) where
  sends-Follows :
      (events : List Event) (w : Worker) (since : ℕ)
      → IsNoted since w
      → Clocked since events
      → Follows gap pk (last_send pk w.last_send_to) (sends gap events w)
  unfolding sends happen
  sends-Follows [] w since n c = tt
  sends-Follows (ticks s ∷ rest) w since n c =
      noted-Follows gap s w pk (tick gap s w).handed (sends gap rest (tick gap s w).worker) refl (
        Follows-mono gap pk (last_send pk w.last_send_to)
          (last_send pk (tick gap s w).worker.last_send_to) (sends gap rest (tick gap s w).worker)
          (last_send_grows gap s w since pk n (le_trans c.0 c.1)).0
          (sends-Follows rest (tick gap s w).worker s.after_send
            (λ j. (last_send_grows gap s w since j n (le_trans c.0 c.1)).1) c.2))
  sends-Follows (event ∷ rest) w since n c = sends-Follows rest (happen gap event w) since n c

last_send_noted :
    (gap : ℕ) (s : Surroundings) (w : Worker) (m : OutboundMessage)
    → (tick gap s w).handed ≡ some m
    → last_send m.to_pubkey (tick gap s w).worker.last_send_to ≡ s.after_send
last_send_noted gap s w m e =
    rw ((tick_handed gap s w m e).noted, last_send-put_last_send, str_eq_refl)

noted-IsSpaced :
    (gap : ℕ) (s : Surroundings) (w : Worker) (o : Option OutboundMessage) (rest : List Event)
    → 0 < s.after_send
    → IsNoted s.after_send (tick gap s w).worker
    → Clocked s.after_send rest
    → (tick gap s w).handed ≡ o
    → IsSpaced gap (sends gap rest (tick gap s w).worker)
    → IsSpaced gap (noted o s (sends gap rest (tick gap s w).worker))
noted-IsSpaced gap s w none rest pos n c e h = h
noted-IsSpaced gap s w (some m) rest pos n c e h = (
  All-map _ _ (sends gap rest (tick gap s w).worker)
      (λ y f same.
        subst (λ t. t + gap ≤ y.checked_at) (last_send_noted gap s w m e)
          (f same (rw (last_send_noted gap s w m e) pos)))
      (sends-Follows gap m.to_pubkey rest (tick gap s w).worker s.after_send n c),
  h,
)

-- In a run that begins above time 0 and not before the sends that the worker has noted, and in
-- which the clock is not set back, whatever happens to the queue between the ticks,
-- no message is handed to the radio before the gap has passed since the end of every earlier send
-- to the same recipient.
pub sends-IsSpaced :
    (gap : ℕ) (events : List Event) (w : Worker) (since : ℕ)
    → 0 < since
    → IsNoted since w
    → Clocked since events
    → IsSpaced gap (sends gap events w)
unfolding sends happen
sends-IsSpaced gap [] w since pos n c = tt
sends-IsSpaced gap (ticks s ∷ rest) w since pos n c =
    let n' : IsNoted s.after_send (tick gap s w).worker =
      λ j. (last_send_grows gap s w since j n (le_trans c.0 c.1)).1 in
    let pos' : 0 < s.after_send = le_trans pos (le_trans c.0 c.1) in
    noted-IsSpaced gap s w (tick gap s w).handed rest pos' n' c.2 refl
      (sends-IsSpaced gap rest (tick gap s w).worker s.after_send pos' n' c.2)
sends-IsSpaced gap (event ∷ rest) w since pos n c =
    sends-IsSpaced gap rest (happen gap event w) since pos n c
