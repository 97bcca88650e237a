-- ===== src/Program/Kept.antt =====
-- What a property of the board needs to outlive a whole run: the operations of the database keep it.
pub mod Jobs
pub mod Requests
pub mod Whole
use meshcore_bbs.Db.{Db}
use meshcore_bbs.Db.Audit.{purge_old_audit}
use meshcore_bbs.Db.Boards.{delete_post}
use meshcore_bbs.Db.Mails.{purge_old_read_mail}
use meshcore_bbs.Db.News.{insert_news_item, trim_feed_to}
use meshcore_bbs.Db.Outbound.{
  cancel_outbound, get_outbound_pause_until, move_outbound_to_back, pause_outbound_recipient,
}
use meshcore_bbs.Dispatcher.{Bbs}
use meshcore_bbs.Dispatcher.Closed.{AdminOperations, Arrivals, KeepsDb, Operations}
use meshcore_bbs.OutboundWorker.{Surroundings, Worker, tick}
use meshcore_bbs.Prelude.{Option, ℕ}
use meshcore_bbs.Text.{Text, Unicode}

-- The operations of the worker, of the jobs and of the dashboard, beside those of the dispatcher.
pub record Background (P : Bbs → Type 0) : Type 0 where
  pub tick_kept :
      (gap : ℕ) (sur : Surroundings) (w : Worker) → KeepsDb P w.db (tick gap sur w).worker.db
  pub purge_old_audit_kept :
      (db : Db) (before_ts : ℕ) → KeepsDb P db (purge_old_audit db before_ts).0
  pub purge_old_read_mail_kept :
      (db : Db) (before_ts : ℕ) → KeepsDb P db (purge_old_read_mail db before_ts).0
  pub insert_news_item_kept :
      (db : Db) (feed_id : ℕ) (title : Text) (url : Option Text) (ts : ℕ) (hash : Text)
      → KeepsDb P db (insert_news_item db feed_id title url ts hash).0
  pub trim_feed_to_kept :
      (db : Db) (feed_id keep_n : ℕ) → KeepsDb P db (trim_feed_to db feed_id keep_n)
  pub delete_post_kept : (db : Db) (post_id : ℕ) → KeepsDb P db (delete_post db post_id).0
  pub cancel_kept : (db : Db) (msg_id : ℕ) → KeepsDb P db (cancel_outbound db msg_id).0
  pub move_kept :
      (db : Db) (clock msg_id : ℕ) → KeepsDb P db (move_outbound_to_back db clock msg_id).0
  pub pause_kept :
      (db : Db) (clock : ℕ) (pk : Text) (seconds : ℕ)
      → KeepsDb P db (pause_outbound_recipient db clock pk seconds).0
  pub get_pause_kept :
      (db : Db) (clock : ℕ) (pk : Text) → KeepsDb P db (get_outbound_pause_until db clock pk).0

-- All the operations together.
pub record Every (u : Unicode) (P : Bbs → Type 0) : Type 0 where
  pub operations : Operations u P
  pub arrivals : Arrivals P
  pub admin : AdminOperations u P
  pub background : Background P
