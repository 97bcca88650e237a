-- ===== src/Db/Outbound/Keeps.antt =====
-- Each operation on the queue keeps its invariant, and gives no message more sends than it had.
use native.Mathlib.Nat.{le_refl, le_trans}
use meshcore_bbs.Db.{Db}
use meshcore_bbs.Db.Audit.{audit}
use meshcore_bbs.Db.Outbound.{
  cancel_outbound, drop_stale_outbound, enqueue_outbound, get_outbound_pause_until,
  get_pending_outbound, has_id, is_stale, mark_outbound_failed, mark_outbound_sent, max_enqueued,
  move_outbound_to_back, new_message, reschedule_outbound, set_status,
}
use meshcore_bbs.Db.Outbound.Chances.{
  Ages, IsQueue, IsQueue-update, IsYoung, chances, chances_of, chances_of-update, same_row,
}
use meshcore_bbs.Models.{
  MsgKind, OutboundMessage, Status, cancelled, dropped, failed, is_pending, pending, sent,
}
use meshcore_bbs.Prelude.{
  &&_left, &&_right, ==_iff, All, All-append, All-map, Bool, Distinct-snoc, In, In-All, List,
  Option, Option-cases, [], arith, find_row-some, if◌then◌else◌, inl, inr, leb, map, map-append,
  max, refl, subst, true, update_rows, ℕ, ◌&&◌, ◌++◌, ◌+◌, ◌<◌, ◌∷◌, ◌≡◌, ◌≢◌, ◌≤◌,
}
use meshcore_bbs.Text.{Text}

-- The sends that are left to the message with an id; one that is still to come has all five.
unfoldable pub chances_left : ℕ → Db → ℕ
chances_left id db = if leb db.next_outbound id then 5 else chances_of id db.outbound_queue

pub record Calm (db db' : Db) : Type 0 where
  pub queue : IsQueue db'
  pub left : (id : ℕ) → chances_left id db' ≤ chances_left id db

pub Calm-refl : (db : Db) → IsQueue db → Calm db db
Calm-refl db v = record { queue = v; left = λ id. le_refl _ }

pub Calm-trans : {a b c : Db} → Calm a b → Calm b c → Calm a c
Calm-trans h k = record { queue = k.queue; left = λ id. le_trans (k.left id) (h.left id) }

pub Calm-update :
    (p : OutboundMessage → Bool) (f : OutboundMessage → OutboundMessage) (db : Db)
    → All (λ m. p m ≡ true → Ages m (f m)) db.outbound_queue
    → IsQueue db
    → Calm db (record db { outbound_queue = update_rows p f db.outbound_queue })
unfolding chances_left
Calm-update p f db h v = record {
  queue = IsQueue-update p f db h v;
  left = λ id. ground (arith, chances_of-update p f id db.outbound_queue h);
}

-- The columns that the invariant reads.
pub Calm-same :
    (db db' : Db)
    → db'.outbound_queue ≡ db.outbound_queue
    → db'.next_outbound ≡ db.next_outbound
    → IsQueue db
    → Calm db db'
unfolding chances_left
Calm-same db db' q n v = record {
  queue = record {
    distinct = rw q (v.distinct);
    known = rw (q, n) (v.known);
    young = rw q (v.young);
  };
  left = λ id. rw (q, n) (le_refl _);
}

set_status-Ages : (s : Status) (m : OutboundMessage) → s ≢ pending → Ages m (set_status s m)
unfolding chances
set_status-Ages pending m h = absurd (h refl)
set_status-Ages _ m h = record { same_id = refl; fewer = omega arith; young = λ y e. cc }

pub set_status-All :
    (s : Status) (p : OutboundMessage → Bool) (q : List OutboundMessage)
    → s ≢ pending
    → All (λ m. p m ≡ true → Ages m (set_status s m)) q
set_status-All s p [] h = tt
set_status-All s p (m ∷ ms) h = (λ _. set_status-Ages s m h, set_status-All s p ms h)

Calm-set_status :
    (s : Status) (p : OutboundMessage → Bool) (db : Db)
    → s ≢ pending
    → IsQueue db
    → Calm db (record db { outbound_queue = update_rows p (set_status s) db.outbound_queue })
Calm-set_status s p db h v =
    Calm-update p (set_status s) db (set_status-All s p db.outbound_queue h) v

-- What `reschedule_outbound` sets in a row.
abbrev pub rescheduled : ℕ → ℕ → ℕ → Bool → OutboundMessage → OutboundMessage
rescheduled back_at next_attempt attempts back m =
    if back
    then record m { next_attempt = next_attempt; attempts = attempts; enqueued_at = back_at }
    else record m { next_attempt = next_attempt; attempts = attempts }

pub rescheduled-Ages :
    (back_at msg_id next_attempt attempts : ℕ) (back : Bool) (q : List OutboundMessage)
    → All (λ m. has_id msg_id m ≡ true → m.attempts ≤ attempts) q
    → attempts < 5
    → All
        (λ m. has_id msg_id m ≡ true → Ages m (rescheduled back_at next_attempt attempts back m))
        q
unfolding chances
rescheduled-Ages back_at msg_id next_attempt attempts back q h lt =
    All-map _ _ q
      (λ m k e. record {
        same_id = ground arith;
        fewer = ground (arith, k e);
        young = λ y pend. ground arith;
      })
      h

chances_of-append :
    (id : ℕ) (ms ns : List OutboundMessage)
    → chances_of id (ms ++ ns) ≡ chances_of id ms + chances_of id ns
unfolding chances_of
chances_of-append id [] ns = omega arith
chances_of-append id (m ∷ ms) ns = omega (arith, chances_of-append id ms ns)

chances_of_unknown :
    (id : ℕ) (ms : List OutboundMessage)
    → All (λ k. k < id) (map (λ m. m.id) ms)
    → chances_of id ms ≡ 0
unfolding chances_of
chances_of_unknown id [] h = refl
chances_of_unknown id (m ∷ ms) h = ground (arith, h.0, chances_of_unknown id ms h.1)

module _ (db : Db) (v : IsQueue db) where
  pub Calm-mark_outbound_sent : (msg_id : ℕ) → Calm db (mark_outbound_sent db msg_id)
  unfolding mark_outbound_sent
  Calm-mark_outbound_sent msg_id = Calm-set_status sent (has_id msg_id) db (λ e. cc) v

  pub Calm-mark_outbound_failed : (msg_id : ℕ) → Calm db (mark_outbound_failed db msg_id)
  unfolding mark_outbound_failed
  Calm-mark_outbound_failed msg_id = Calm-set_status failed (has_id msg_id) db (λ e. cc) v

  pub Calm-drop_stale_outbound : (before_ts : ℕ) → Calm db (drop_stale_outbound db before_ts).0
  unfolding drop_stale_outbound
  Calm-drop_stale_outbound before_ts = Calm-set_status dropped (is_stale before_ts) db (λ e. cc) v

  pub Calm-cancel_outbound : (msg_id : ℕ) → Calm db (cancel_outbound db msg_id).0
  unfolding cancel_outbound
  Calm-cancel_outbound msg_id = elim (Option-cases (get_pending_outbound db msg_id)) [
    | inl e ↦ rw (e, cancel_outbound) (Calm-refl db v)
    | inr (m, e) ↦
        rw (e, cancel_outbound) (Calm-set_status cancelled (has_id msg_id) db (λ e. cc) v)
  ]

  pub Calm-get_outbound_pause_until :
      (clock : ℕ) (pk : Text) → Calm db (get_outbound_pause_until db clock pk).0
  unfolding get_outbound_pause_until
  Calm-get_outbound_pause_until clock pk =
      Calm-same db (get_outbound_pause_until db clock pk).0 (ground arith) (ground arith) v

  pub Calm-audit :
      (now : ℕ) (actor : Option Text) (action detail : Text)
      → Calm db (audit db now actor action detail)
  unfolding audit
  Calm-audit now actor action detail = Calm-same db _ refl refl v

  -- A deferral, or a retry under the limit: no row with the id has made more attempts.
  pub Calm-reschedule_outbound :
      (clock msg_id next_attempt attempts : ℕ) (back : Bool)
      → All (λ m. has_id msg_id m ≡ true → m.attempts ≤ attempts) db.outbound_queue
      → attempts < 5
      → Calm db (reschedule_outbound db clock msg_id next_attempt attempts back)
  unfolding reschedule_outbound
  Calm-reschedule_outbound clock msg_id next_attempt attempts back h lt =
      Calm-update (has_id msg_id) _ db
        (rescheduled-Ages (max clock (max_enqueued db.outbound_queue) + 1) msg_id next_attempt
          attempts back db.outbound_queue h lt)
        v

  chances_left-enqueue :
      (to_pk body : Text) (now priority : ℕ) (trigger : Option Text) (kind : MsgKind) (id : ℕ)
      → chances_left id (enqueue_outbound db to_pk body now priority trigger kind).0
        ≤ chances_left id db
  unfolding chances_left enqueue_outbound chances_of chances
  chances_left-enqueue to_pk body now priority trigger kind id = ground (
    arith,
    chances_of-append id db.outbound_queue
        (new_message db.next_outbound to_pk body now priority trigger kind ∷ []),
    chances_of_unknown db.next_outbound db.outbound_queue v.known,
  )

  pub Calm-enqueue_outbound :
      (to_pk body : Text) (now priority : ℕ) (trigger : Option Text) (kind : MsgKind)
      → Calm db (enqueue_outbound db to_pk body now priority trigger kind).0
  unfolding enqueue_outbound
  Calm-enqueue_outbound to_pk body now priority trigger kind = record {
    queue = record {
      distinct =
          rw map-append
            (Distinct-snoc (map (λ m. m.id) db.outbound_queue) db.next_outbound v.distinct v.known);
      known = rw map-append (
          All-append _ (map (λ m. m.id) db.outbound_queue) (db.next_outbound ∷ [])
            (All-map _ _ (map (λ m. m.id) db.outbound_queue) (λ k lt. omega arith) v.known)
            (omega arith, tt));
      young = All-append _ db.outbound_queue _ v.young (λ _. omega arith, tt);
    };
    left = chances_left-enqueue to_pk body now priority trigger kind;
  }

  -- A row that an operation looked up has its attempts and its place under the limit.
  pub looked_up :
      (m : OutboundMessage)
      → In m db.outbound_queue
      → is_pending m ≡ true
      → All (λ y. has_id m.id y ≡ true → y.attempts ≤ m.attempts) db.outbound_queue
        × (m.attempts < 5)
  looked_up m i e = (
    All-map _ _ db.outbound_queue (λ y k h. rw (k h) (le_refl _)) (same_row db m v i),
    In-All IsYoung m db.outbound_queue v.young i e,
  )

  pub Calm-move_outbound_to_back :
      (clock msg_id : ℕ) → Calm db (move_outbound_to_back db clock msg_id).0
  unfolding move_outbound_to_back
  Calm-move_outbound_to_back clock msg_id = elim (Option-cases (get_pending_outbound db msg_id)) [
    | inl e ↦ rw (e, move_outbound_to_back) (Calm-refl db v)
    | inr (m, e) ↦
        rw (e, move_outbound_to_back)
          (moved m (unfold get_pending_outbound in find_row-some _ m db.outbound_queue e))
  ]
    where
      moved :
          (m : OutboundMessage)
          → In m db.outbound_queue × ((has_id msg_id m && is_pending m) ≡ true)
          → Calm db (reschedule_outbound db clock msg_id clock m.attempts true)
      moved m found =
          let h = looked_up m found.0 (&&_right (has_id msg_id m) (is_pending m) found.1) in
          let same : m.id ≡ msg_id =
            (==_iff m.id msg_id).0 (&&_left (has_id msg_id m) (is_pending m) found.1) in
          Calm-reschedule_outbound clock msg_id clock m.attempts true
            (subst (λ k. All (λ y. has_id k y ≡ true → y.attempts ≤ m.attempts) db.outbound_queue)
              same h.0)
            h.1
