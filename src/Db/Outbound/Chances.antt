-- ===== src/Db/Outbound/Chances.antt =====
-- The sends that are left to the messages of the queue.
use meshcore_bbs.Db.{Db}
use meshcore_bbs.Db.Outbound.{has_id}
use meshcore_bbs.Models.{OutboundMessage, is_pending}
use meshcore_bbs.Prelude.{
  ==_iff, All, All-map, Bool, Bool-cases, Distinct, Distinct-same, In, List, [], ap, ap₂, arith,
  if◌then◌else◌, inl, inr, map, refl, subst, true, update_rows, ℕ, ◌+◌, ◌-◌, ◌<◌, ◌∷◌, ◌≡◌, ◌≤◌,
}

-- A pending message is sent at most until its fifth attempt.
unfoldable pub chances : OutboundMessage → ℕ
chances m = if is_pending m then 5 - m.attempts else 0

-- What the rows with an id have left, together.
unfoldable pub chances_of : ℕ → List OutboundMessage → ℕ
chances_of id [] = 0
chances_of id (m ∷ ms) = (if has_id id m then chances m else 0) + chances_of id ms

abbrev pub IsYoung : OutboundMessage → Type 0
IsYoung m = is_pending m ≡ true → m.attempts < 5

-- The queue has one row for an id, no id that is still to be given, and no pending message that
-- has used up its attempts.
pub record IsQueue (db : Db) : Type 0 where
  pub distinct : Distinct (map (λ m. m.id) db.outbound_queue)
  pub known : All (λ k. k < db.next_outbound) (map (λ m. m.id) db.outbound_queue)
  pub young : All IsYoung db.outbound_queue

-- A new version of a row that has no more sends left.
pub record Ages (m m' : OutboundMessage) : Type 0 where
  pub same_id : m'.id ≡ m.id
  pub fewer : chances m' ≤ chances m
  pub young : IsYoung m → IsYoung m'

module _ (p : OutboundMessage → Bool) (f : OutboundMessage → OutboundMessage) where
  map-id-update :
      (q : List OutboundMessage)
      → All (λ m. p m ≡ true → Ages m (f m)) q
      → map (λ m. m.id) (update_rows p f q) ≡ map (λ m. m.id) q
  map-id-update [] h = refl
  map-id-update (m ∷ ms) h = elim (Bool-cases (p m)) [
    | inl e ↦ rw e (ap₂ (λ i r. i ∷ r) (h.0 e).same_id (map-id-update ms h.1))
    | inr e ↦ rw e (ap (λ r. m.id ∷ r) (map-id-update ms h.1))
  ]

  IsYoung-update :
      (q : List OutboundMessage)
      → All (λ m. p m ≡ true → Ages m (f m)) q
      → All IsYoung q
      → All IsYoung (update_rows p f q)
  IsYoung-update [] h y = tt
  IsYoung-update (m ∷ ms) h y = elim (Bool-cases (p m)) [
    | inl e ↦ rw e ((h.0 e).young y.0, IsYoung-update ms h.1 y.1)
    | inr e ↦ rw e (y.0, IsYoung-update ms h.1 y.1)
  ]

  -- An UPDATE by such versions keeps the invariant of the queue.
  pub IsQueue-update :
      (db : Db)
      → All (λ m. p m ≡ true → Ages m (f m)) db.outbound_queue
      → IsQueue db
      → IsQueue (record db { outbound_queue = update_rows p f db.outbound_queue })
  IsQueue-update db h v = record {
    distinct = rw (map-id-update db.outbound_queue h) (v.distinct);
    known = rw (map-id-update db.outbound_queue h) (v.known);
    young = IsYoung-update db.outbound_queue h v.young;
  }

  pub chances_of-update :
      (id : ℕ) (q : List OutboundMessage)
      → All (λ m. p m ≡ true → Ages m (f m)) q
      → chances_of id (update_rows p f q) ≤ chances_of id q
  unfolding chances_of
  chances_of-update id [] h = omega arith
  chances_of-update id (m ∷ ms) h = elim (Bool-cases (p m)) [
    | inl e ↦ rw e (ground (arith, (h.0 e).same_id, (h.0 e).fewer, chances_of-update id ms h.1))
    | inr e ↦ rw e (ground (arith, chances_of-update id ms h.1))
  ]

  -- It takes one away, if it does so from a row with the id.
  pub chances_of-update_lt :
      (id : ℕ) (m : OutboundMessage) (q : List OutboundMessage)
      → All (λ m. p m ≡ true → Ages m (f m)) q
      → In m q
      → m.id ≡ id
      → p m ≡ true
      → chances (f m) < chances m
      → chances_of id (update_rows p f q) < chances_of id q
  unfolding chances_of
  chances_of-update_lt id m [] h i e k lt = absurd i
  chances_of-update_lt id m (n ∷ ns) h (inl same) e k lt =
      let here : p n ≡ true = subst (λ x. p x ≡ true) same k in
      let n_id : n.id ≡ id = subst (λ x. x.id ≡ id) same e in
      let n_lt : chances (f n) < chances n = subst (λ x. chances (f x) < chances x) same lt in
      rw here (ground (arith, (h.0 here).same_id, chances_of-update id ns h.1))
  chances_of-update_lt id m (n ∷ ns) h (inr there) e k lt = elim (Bool-cases (p n)) [
    | inl here ↦ rw here (
        ground (
          arith,
          (h.0 here).same_id,
          (h.0 here).fewer,
          chances_of-update_lt id m ns h.1 there e k lt,
        ))
    | inr gone ↦ rw gone (ground (arith, chances_of-update_lt id m ns h.1 there e k lt))
  ]

-- The rows with the id of a row of the queue are that row.
pub same_row :
    (db : Db) (m : OutboundMessage)
    → IsQueue db
    → In m db.outbound_queue
    → All (λ y. has_id m.id y ≡ true → y ≡ m) db.outbound_queue
same_row db m v i =
    All-map (λ y. y.id ≡ m.id → y ≡ m) (λ y. has_id m.id y ≡ true → y ≡ m) db.outbound_queue
      (λ y h e. h ((==_iff y.id m.id).0 e))
      (Distinct-same (λ y. y.id) m db.outbound_queue v.distinct i)
