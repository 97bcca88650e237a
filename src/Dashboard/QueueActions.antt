-- ===== src/Dashboard/QueueActions.antt =====
-- _queue_action_response: what an operator does to a pending message.
use meshcore_bbs.Dashboard.{Reply, answered, at_path_id, refused}
use meshcore_bbs.Db.{Db}
use meshcore_bbs.Db.Audit.{audit}
use meshcore_bbs.Db.Outbound.{
  cancel_outbound, get_pending_outbound, move_outbound_to_back, outbound_pause_seconds,
  pause_outbound_recipient,
}
use meshcore_bbs.Models.{OutboundMessage}
use meshcore_bbs.Prelude.{Option, none, some, take, ℕ, ◌++◌}
use meshcore_bbs.Text.{Text, Unicode, lit}
use meshcore_bbs.Text.Decimal.{str}
use meshcore_bbs.Text.Integers.{negsuc, pos, ℤ}

pub data Action : Type 0 where
  remove move_back pause_user : Action

-- The answer of an action that was done: the id, and the end of the pause if there is one.
pub record Done : Type 0 where
  pub id : ℕ
  pub paused_until : Option ℕ

abbrev detail : ℕ → OutboundMessage → Text
detail msg_id m = lit "id=" ++ (str msg_id ++ (lit " to=" ++ take 12 m.to_pubkey))

-- `now` is what the clock reads in the operations. A negative id is that of no row.
unfoldable pub act : ℕ → Action → ℤ → Db → Db × Reply Done
act now action (negsuc n) db = (db, refused 404 (lit "not found"))
act now remove (pos msg_id) db = elim (cancel_outbound db msg_id).1 [
  | none ↦ (db, refused 404 (lit "not found"))
  | some m ↦ (
    audit (cancel_outbound db msg_id).0 now none (lit "queue_remove") (detail msg_id m),
    answered (record { id = msg_id; paused_until = none }),
  )
]
act now move_back (pos msg_id) db = elim (move_outbound_to_back db now msg_id).1 [
  | none ↦ (db, refused 404 (lit "not found"))
  | some m ↦ (
    audit (move_outbound_to_back db now msg_id).0 now none (lit "queue_move_back")
        (detail msg_id m),
    answered (record { id = msg_id; paused_until = none }),
  )
]
act now pause_user (pos msg_id) db = elim (get_pending_outbound db msg_id) [
  | none ↦ (db, refused 404 (lit "not found"))
  | some m ↦
      let (paused, until) = pause_outbound_recipient db now m.to_pubkey outbound_pause_seconds in
      (
        audit paused now none (lit "queue_pause_user") (
            detail msg_id m
            ++ (lit " until=" ++ (str until ++ (lit " seconds=" ++ str outbound_pause_seconds)))),
        answered (record { id = msg_id; paused_until = some until }),
      )
]

-- The id stands in the path.
unfoldable pub queue_action_response : Unicode → ℕ → Action → Text → Db → Db × Reply Done
queue_action_response u now action raw db =
    at_path_id u raw (lit "invalid message id") db (λ id. act now action id db)
