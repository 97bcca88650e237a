-- ===== src/Dispatcher/Queueing.antt =====
-- What `_enqueue_reply` puts into the queue.
use meshcore_bbs.Db.{Db}
use meshcore_bbs.Db.Outbound.{enqueue_outbound, new_message, outbound_pending_depth}
use meshcore_bbs.Dispatcher.{enqueue_packets, enqueue_reply, priority_normal}
use meshcore_bbs.Format.{default_packet_bytes, split_packets}
use meshcore_bbs.Models.{MsgKind, is_pending, notification, response}
use meshcore_bbs.Prelude.{
  Bool-cases, List, Option, [], ap, append-nil, append_assoc, arith, count_rows-snoc, if◌then◌else◌,
  inl, inr, leb, length, ltb, map, map-append, sym, ℕ, ◌&&◌, ◌++◌, ◌+◌, ◌∙◌, ◌∷◌, ◌≡◌,
}
use meshcore_bbs.Text.{Text}

-- The texts that wait or have waited in the queue, in the order of the insertions.
abbrev pub bodies : Db → List Text
bodies db = map (λ m. m.body) db.outbound_queue

bodies-enqueue_outbound :
    (db : Db) (pk body : Text) (now priority : ℕ) (trigger : Option Text) (kind : MsgKind)
    → bodies (enqueue_outbound db pk body now priority trigger kind).0 ≡ bodies db ++ body ∷ []
unfolding enqueue_outbound
bodies-enqueue_outbound db pk body now priority trigger kind =
    map-append (λ m. m.body) db.outbound_queue
      (new_message db.next_outbound pk body now priority trigger kind ∷ [])

depth-enqueue_outbound :
    (db : Db) (pk body : Text) (now priority : ℕ) (trigger : Option Text) (kind : MsgKind)
    → outbound_pending_depth (enqueue_outbound db pk body now priority trigger kind).0
      ≡ outbound_pending_depth db + 1
unfolding enqueue_outbound outbound_pending_depth
depth-enqueue_outbound db pk body now priority trigger kind =
    count_rows-snoc is_pending db.outbound_queue
      (new_message db.next_outbound pk body now priority trigger kind)

module _ (now : ℕ) (pk : Text) (priority : ℕ) (trigger : Option Text) where
  bodies-enqueue_packets :
      (packets : List Text) (db : Db)
      → bodies (enqueue_packets now pk priority trigger packets db) ≡ bodies db ++ packets
  unfolding enqueue_packets
  bodies-enqueue_packets [] db = sym (append-nil (bodies db))
  bodies-enqueue_packets (p ∷ packets) db =
      let kind = if ltb priority priority_normal then notification else response in
      bodies-enqueue_packets packets (enqueue_outbound db pk p now priority trigger kind).0
      ∙ ap (λ t. t ++ packets) (bodies-enqueue_outbound db pk p now priority trigger kind)
      ∙ append_assoc (bodies db) (p ∷ []) packets

  depth-enqueue_packets :
      (packets : List Text) (db : Db)
      → outbound_pending_depth (enqueue_packets now pk priority trigger packets db)
        ≡ outbound_pending_depth db + length packets
  unfolding enqueue_packets
  depth-enqueue_packets [] db = omega arith
  depth-enqueue_packets (p ∷ packets) db =
      let kind = if ltb priority priority_normal then notification else response in
      omega (
        arith,
        depth-enqueue_packets packets (enqueue_outbound db pk p now priority trigger kind).0,
        depth-enqueue_outbound db pk p now priority trigger kind,
      )

  -- A message at the usual priority puts its packets behind the rows of the queue, in their order,
  -- and each counts as pending; so does one at a lower priority while fewer than `max_depth` rows
  -- are pending, and from then on it leaves the queue as it is.
  pub enqueue_reply-bodies :
      (max_depth : ℕ) (db : Db) (text : Text)
      → let packets =
          if leb max_depth (outbound_pending_depth db) && ltb priority priority_normal
          then []
          else split_packets text default_packet_bytes in
        let after = enqueue_reply max_depth now db pk text priority trigger in
        (bodies after ≡ bodies db ++ packets)
        × (outbound_pending_depth after ≡ outbound_pending_depth db + length packets)
  unfolding enqueue_reply
  enqueue_reply-bodies max_depth db text =
      elim (Bool-cases
        (leb max_depth (outbound_pending_depth db) && ltb priority priority_normal)) [
          | inl full ↦ rw full (sym (append-nil (bodies db)), omega arith)
          | inr free ↦ rw free (
            bodies-enqueue_packets (split_packets text default_packet_bytes) db,
            depth-enqueue_packets (split_packets text default_packet_bytes) db,
          )
        ]
