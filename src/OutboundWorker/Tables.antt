-- ===== src/OutboundWorker/Tables.antt =====
-- The operations on the queue leave the other tables alone.
use meshcore_bbs.Db.{Db, Pause}
use meshcore_bbs.Db.Audit.{audit}
use meshcore_bbs.Db.Outbound.{
  cancel_outbound, drop_stale_outbound, get_outbound_pause_until, mark_outbound_failed,
  mark_outbound_sent, move_outbound_to_back, pause_outbound_recipient, put_pause,
  reschedule_outbound, reschedule_paused,
}
use meshcore_bbs.Models.{OutboundMessage, is_pending}
use meshcore_bbs.OutboundWorker.{
  Surroundings, Worker, send_claimed, tick, tick_claimed, tick_resumed, tick_unpaused,
}
use meshcore_bbs.Prelude.{
  Bool, List, Option, [], arith, filter, max, none, refl, some, true, ℕ, ◌&&◌, ◌+◌, ◌/◌, ◌∙◌, ◌∷◌,
  ◌≡◌,
}
use meshcore_bbs.Text.{Text, str_eq}

-- The users, the boards, the posts and the mail are the same.
pub record SameTables (db after : Db) : Type 0 where
  pub same_users : after.users ≡ db.users
  pub same_boards : after.boards ≡ db.boards
  pub same_posts : after.board_posts ≡ db.board_posts
  pub same_mail : after.mail ≡ db.mail

pub same_tables : (db : Db) → SameTables db db
same_tables db = record {
  same_users = refl;
  same_boards = refl;
  same_posts = refl;
  same_mail = refl;
}

pub then_tables : {a b c : Db} → SameTables a b → SameTables b c → SameTables a c
then_tables h k = record {
  same_users = k.same_users ∙ h.same_users;
  same_boards = k.same_boards ∙ h.same_boards;
  same_posts = k.same_posts ∙ h.same_posts;
  same_mail = k.same_mail ∙ h.same_mail;
}

-- Another queue and other pauses.
requeued :
    (db : Db) (queue : List OutboundMessage) (waits : List Pause)
    → SameTables db (record db { outbound_queue = queue; outbound_pause = waits })
requeued db queue waits = record {
  same_users = refl;
  same_boards = refl;
  same_posts = refl;
  same_mail = refl;
}

pub get_outbound_pause_until-SameTables :
    (db : Db) (clock : ℕ) (pk : Text) → SameTables db (get_outbound_pause_until db clock pk).0
unfolding get_outbound_pause_until
get_outbound_pause_until-SameTables db clock pk = record {
  same_users = ground arith;
  same_boards = ground arith;
  same_posts = ground arith;
  same_mail = ground arith;
}

pub reschedule_outbound-SameTables :
    (db : Db) (clock msg_id next_attempt attempts : ℕ) (back : Bool)
    → SameTables db (reschedule_outbound db clock msg_id next_attempt attempts back)
unfolding reschedule_outbound
reschedule_outbound-SameTables db clock msg_id next_attempt attempts back =
    requeued db _ db.outbound_pause

reschedule_paused-SameTables :
    (clock until : ℕ) (ms : List OutboundMessage) (db : Db)
    → SameTables db (reschedule_paused db clock until ms)
unfolding reschedule_paused
reschedule_paused-SameTables clock until [] db = same_tables db
reschedule_paused-SameTables clock until (m ∷ ms) db =
    then_tables
      (reschedule_outbound-SameTables db clock m.id (max m.next_attempt until) m.attempts true)
      (reschedule_paused-SameTables clock until ms _)

pub pause_outbound_recipient-SameTables :
    (db : Db) (clock : ℕ) (pk : Text) (seconds : ℕ)
    → SameTables db (pause_outbound_recipient db clock pk seconds).0
unfolding pause_outbound_recipient
pause_outbound_recipient-SameTables db clock pk seconds =
    then_tables (requeued db db.outbound_queue (put_pause pk (clock + seconds) db.outbound_pause)) (
      reschedule_paused-SameTables clock (clock + seconds)
        (filter (λ m. is_pending m && str_eq m.to_pubkey pk) db.outbound_queue)
        (record db { outbound_pause = put_pause pk (clock + seconds) db.outbound_pause }))

pub cancel_outbound-SameTables :
    (db : Db) (msg_id : ℕ) → SameTables db (cancel_outbound db msg_id).0
unfolding cancel_outbound
cancel_outbound-SameTables db msg_id = grind (arith, same_tables, requeued)

pub move_outbound_to_back-SameTables :
    (db : Db) (clock msg_id : ℕ) → SameTables db (move_outbound_to_back db clock msg_id).0
unfolding move_outbound_to_back
move_outbound_to_back-SameTables db clock msg_id =
    grind (arith, same_tables, reschedule_outbound-SameTables)

audit-SameTables :
    (db : Db) (now : ℕ) (actor : Option Text) (action detail : Text)
    → SameTables db (audit db now actor action detail)
unfolding audit
audit-SameTables db now actor action detail = record {
  same_users = refl;
  same_boards = refl;
  same_posts = refl;
  same_mail = refl;
}

module _ (gap : ℕ) (s : Surroundings) where
  send_claimed-SameTables :
      (w : Worker) (m : OutboundMessage) → SameTables w.db (send_claimed gap s w m).worker.db
  unfolding send_claimed mark_outbound_sent mark_outbound_failed
  send_claimed-SameTables w m =
      grind (arith, requeued, then_tables, audit-SameTables, reschedule_outbound-SameTables)

  tick_unpaused-SameTables :
      (w : Worker) (m : OutboundMessage) → SameTables w.db (tick_unpaused gap s w m).worker.db
  unfolding tick_unpaused
  tick_unpaused-SameTables w m =
      grind (arith, send_claimed-SameTables, reschedule_outbound-SameTables)

  tick_resumed-SameTables :
      (paused : Option ℕ) (w : Worker) (m : OutboundMessage)
      → SameTables w.db (tick_resumed gap s paused w m).worker.db
  unfolding tick_resumed
  tick_resumed-SameTables none w m = tick_unpaused-SameTables w m
  tick_resumed-SameTables (some until) w m =
      grind (arith, tick_unpaused-SameTables, reschedule_outbound-SameTables)

  tick_claimed-SameTables :
      (claim : Option OutboundMessage) (w : Worker)
      → SameTables w.db (tick_claimed gap s claim w).worker.db
  unfolding tick_claimed
  tick_claimed-SameTables none w = same_tables w.db
  tick_claimed-SameTables (some m) w =
      then_tables (get_outbound_pause_until-SameTables w.db (s.at_pause / 1000) m.to_pubkey)
        (tick_resumed-SameTables _ _ m)

  pub tick-SameTables : (w : Worker) → SameTables w.db (tick gap s w).worker.db
  unfolding tick drop_stale_outbound
  tick-SameTables w =
      then_tables (requeued w.db _ w.db.outbound_pause) (tick_claimed-SameTables _ _)
