-- ===== src/Db/Outbound/Claim.antt =====
-- `claim_next_outbound` against its contract: of the messages that are ready, one of the highest
-- priority, and of these one that was enqueued first.
use meshcore_bbs.Db.{Db}
use meshcore_bbs.Db.Outbound.{claim_next_outbound, is_ready, sent_before}
use meshcore_bbs.Models.{
  OutboundMessage, Status, cancelled, dropped, failed, is_pending, pending, sent,
}
use meshcore_bbs.Prelude.{
  All, All-filter, All-map, Bool, In, In-All, In-filter, In-head_order_by, List, Option-cases,
  arith, false, false≢true, filter, filter-nil, inl, inr, none, order_by-first, order_by-none, refl,
  some, sym, true, ℕ, ◌<◌, ◌↔◌, ◌∙◌, ◌≡◌, ◌≤◌, ◌⊎◌,
}

sent_before_total : (a b : OutboundMessage) → sent_before a b ≡ false → sent_before b a ≡ true
sent_before_total a b h = ground arith

sent_before_trans :
    (a b c : OutboundMessage)
    → sent_before a b ≡ true
    → sent_before b c ≡ true
    → sent_before a c ≡ true
sent_before_trans a b c h k = ground arith

-- `m` goes before each ready message of the queue.
abbrev pub IsNext : ℕ → List OutboundMessage → OutboundMessage → Type 0
IsNext now queue m = All (λ y. is_ready now y ≡ true → sent_before m y ≡ true) queue

-- What is claimed, in the words of the statement itself.
pub claim_next_outbound-some :
    (db : Db) (now : ℕ) (m : OutboundMessage)
    → claim_next_outbound db now ≡ some m
    → In m db.outbound_queue × (is_ready now m ≡ true) × IsNext now db.outbound_queue m
unfolding claim_next_outbound
claim_next_outbound-some db now m h =
    let found = In-filter (is_ready now) m db.outbound_queue (
      In-head_order_by sent_before sent_before_total sent_before_trans m
        (filter (is_ready now) db.outbound_queue) h) in
    (
      found.0,
      found.1,
      All-filter (is_ready now) (λ y. sent_before m y ≡ true) db.outbound_queue
          (order_by-first sent_before sent_before_total sent_before_trans m
            (filter (is_ready now) db.outbound_queue) h),
    )

pub claim_next_outbound-none :
    (db : Db) (now : ℕ)
    → claim_next_outbound db now ≡ none
    → All (λ y. is_ready now y ≡ false) db.outbound_queue
unfolding claim_next_outbound
claim_next_outbound-none db now h = filter-nil (is_ready now) db.outbound_queue (
    order_by-none sent_before sent_before_total sent_before_trans
      (filter (is_ready now) db.outbound_queue) h)

is_pending_iff : (y : OutboundMessage) → (is_pending y ≡ true) ↔ (y.status ≡ pending)
is_pending_iff y = (of_status y.status, λ p. rw p refl)
  where
    of_status :
        (s : Status) → ◌≡◌ {A = Bool} (elim s [ pending ↦ true | _ ↦ false ]) true → s ≡ pending
    of_status pending h = refl
    of_status sent h = absurd (false≢true h)
    of_status failed h = absurd (false≢true h)
    of_status cancelled h = absurd (false≢true h)
    of_status dropped h = absurd (false≢true h)

-- What the sender of a queue wants claimed: pending, and its time has come.
abbrev pub IsDue : ℕ → OutboundMessage → Type 0
IsDue now y = (y.status ≡ pending) × (y.next_attempt ≤ now)

-- A higher priority, or the same one and enqueued no later.
abbrev pub GoesBefore : OutboundMessage → OutboundMessage → Type 0
GoesBefore m y =
    (y.priority < m.priority) ⊎ ((m.priority ≡ y.priority) × (m.enqueued_at ≤ y.enqueued_at))

is_ready_iff : (now : ℕ) (y : OutboundMessage) → (is_ready now y ≡ true) ↔ IsDue now y
is_ready_iff now y = ground (arith, is_pending_iff y)

sent_before-GoesBefore : (m y : OutboundMessage) → sent_before m y ≡ true → GoesBefore m y
sent_before-GoesBefore m y h = ground (arith, h)

-- The claimed message is in the queue, pending, and its next attempt is not in the future; and every
-- other such message has a lower priority, or the same one and was enqueued no earlier.
pub claim_next_outbound-IsDue :
    (db : Db) (now : ℕ) (m : OutboundMessage)
    → claim_next_outbound db now ≡ some m
    → In m db.outbound_queue
      × IsDue now m
      × All (λ y. IsDue now y → GoesBefore m y) db.outbound_queue
claim_next_outbound-IsDue db now m h =
    let c = claim_next_outbound-some db now m h in
    (
      c.0,
      (is_ready_iff now m).0 c.1,
      All-map _ _ db.outbound_queue
          (λ y before due. sent_before-GoesBefore m y (before ((is_ready_iff now y).1 due))) c.2,
    )

too_late :
    (db : Db) (now : ℕ) (m : OutboundMessage)
    → claim_next_outbound db now ≡ some m
    → All (λ y. y.status ≡ pending → now < y.next_attempt) db.outbound_queue
    → ⊥
too_late db now m h later =
    let c = claim_next_outbound-IsDue db now m h in
    let waits : now < m.next_attempt =
      In-All (λ y. y.status ≡ pending → now < y.next_attempt) m db.outbound_queue later c.0 c.1.0 in
    omega (arith, waits, c.1.1)

-- No message is claimed exactly if the next attempt of each pending one is in the future.
pub claim_next_outbound_idle :
    (db : Db) (now : ℕ)
    → (claim_next_outbound db now ≡ none)
      ↔ All (λ y. y.status ≡ pending → now < y.next_attempt) db.outbound_queue
claim_next_outbound_idle db now = (
  λ idle.
      All-map _ _ db.outbound_queue
        (λ y not_ready p. omega (
          arith,
          λ (le : y.next_attempt ≤ now).
              false≢true (sym not_ready ∙ (is_ready_iff now y).1 (p, le)),
        ))
        (claim_next_outbound-none db now idle),
  λ later. elim (Option-cases (claim_next_outbound db now)) [
    | inl idle ↦ idle
    | inr (m, claimed) ↦ absurd (too_late db now m claimed later)
  ],
)
