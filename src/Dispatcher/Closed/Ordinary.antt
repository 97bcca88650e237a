-- ===== src/Dispatcher/Closed/Ordinary.antt =====
-- The handlers of the ordinary users' commands that no rate limit guards.
use meshcore_bbs.Commands.{ParsedCommand}
use meshcore_bbs.Db.{Db, Result, err, ok}
use meshcore_bbs.Dispatcher.{Bbs, Setting, enqueue, priority_normal, reply, reply_written, with_db}
use meshcore_bbs.Dispatcher.Closed.{Keeps, KeepsDb, Operations, then-Keeps, unmoved, with_db-Keeps}
use meshcore_bbs.Dispatcher.Closed.Services.{
  delete_mail_text-KeepsDb, enqueue-Keeps, read_mail-KeepsDb, summary_for-KeepsDb,
  try_set_name-KeepsDb,
}
use meshcore_bbs.Dispatcher.Mailing.{handle_delete_mail, handle_readmail}
use meshcore_bbs.Dispatcher.Posting.{handle_name}
use meshcore_bbs.Dispatcher.Simple.{
  handle_inbox, handle_news, handle_ping, handle_read, handle_status, handle_who, handle_whoami,
  handle_wx,
}
use meshcore_bbs.Onboarding.{try_set_name}
use meshcore_bbs.Prelude.{Option, arith, refl, ℕ, ◌≡◌}
use meshcore_bbs.Services.Mails.{delete_mail_text, read_mail}
use meshcore_bbs.Text.{Text}
use meshcore_bbs.Transport.{InboundMessage}

module _ (P : Bbs → Type 0) (e : Setting) (now : ℕ) (o : Operations e.unicode P) where
  enqueue_kept :
      (pk text : Text) (priority : ℕ) (trigger : Option Text) (bbs : Bbs)
      → Keeps P bbs (enqueue e now pk text priority trigger bbs)
  enqueue_kept = enqueue-Keeps P e.unicode o e now

  named_kept : (db : Db) (pk name : Text) → KeepsDb P db (try_set_name e.unicode db now pk name).0
  named_kept db pk name = try_set_name-KeepsDb P e.unicode o db now pk name

  read_kept :
      (db : Db) (pk : Text) (mail_id : ℕ) (after : Db × Text)
      → read_mail db now pk mail_id ≡ ok after
      → KeepsDb P db after.0
  read_kept db pk mail_id = read_mail-KeepsDb P e.unicode o db now pk mail_id

  deleted_kept :
      (db : Db) (pk : Text) (mail_id : ℕ) (after : Db × Text)
      → delete_mail_text db pk mail_id ≡ ok after
      → KeepsDb P db after.0
  deleted_kept = delete_mail_text-KeepsDb P e.unicode o

  -- A reply after the database has changed.
  pub reply-Keeps :
      (db : Db) (pk text : Text) (trigger : Option Text) (bbs : Bbs)
      → KeepsDb P bbs.db db
      → Keeps P bbs (reply e now pk trigger text (with_db db bbs)).0
  reply-Keeps db pk text trigger bbs h =
      then-Keeps bbs (with_db db bbs) _ (with_db-Keeps db bbs h)
        (enqueue_kept pk text priority_normal trigger (with_db db bbs))

  pub handle_whoami-Keeps :
      (verb pk : Text) (bbs : Bbs) → Keeps P bbs (handle_whoami e now verb pk bbs).0
  unfolding handle_whoami
  handle_whoami-Keeps verb pk bbs = grind (arith, enqueue_kept)

  pub handle_who-Keeps : (verb pk : Text) (bbs : Bbs) → Keeps P bbs (handle_who e now verb pk bbs).0
  unfolding handle_who
  handle_who-Keeps verb pk bbs = grind (arith, enqueue_kept)

  pub handle_ping-Keeps :
      (verb : Text) (inbound : InboundMessage) (bbs : Bbs)
      → Keeps P bbs (handle_ping e now verb inbound bbs).0
  unfolding handle_ping
  handle_ping-Keeps verb inbound bbs = grind (arith, enqueue_kept)

  pub handle_news-Keeps :
      (verb pk : Text) (parsed : ParsedCommand) (bbs : Bbs)
      → Keeps P bbs (handle_news e now verb pk parsed bbs).0
  unfolding handle_news
  handle_news-Keeps verb pk parsed bbs = grind (arith, enqueue_kept, unmoved)

  pub handle_status-Keeps :
      (verb pk : Text) (bbs : Bbs) → Keeps P bbs (handle_status e now verb pk bbs).0
  unfolding handle_status
  handle_status-Keeps verb pk bbs = enqueue_kept pk _ _ _ bbs

  pub handle_read-Keeps :
      (verb pk : Text) (parsed : ParsedCommand) (bbs : Bbs)
      → Keeps P bbs (handle_read e now verb pk parsed bbs).0
  unfolding handle_read
  handle_read-Keeps verb pk parsed bbs = grind (arith, enqueue_kept, unmoved)

  pub handle_inbox-Keeps :
      (verb pk : Text) (parsed : ParsedCommand) (bbs : Bbs)
      → Keeps P bbs (handle_inbox e now verb pk parsed bbs).0
  unfolding handle_inbox
  handle_inbox-Keeps verb pk parsed bbs = grind (arith, enqueue_kept, unmoved)

  pub reply_written-Keeps :
      (pk : Text) (trigger : Option Text) (written : Result (Db × Text)) (bbs : Bbs)
      → ((after : Db × Text) → written ≡ ok after → KeepsDb P bbs.db after.0)
      → Keeps P bbs (reply_written e now pk trigger written bbs).0
  reply_written-Keeps pk trigger (ok (db, text)) bbs h =
      reply-Keeps db pk text trigger bbs (h (db, text) refl)
  reply_written-Keeps pk trigger (err error) bbs h = unmoved bbs

  pub handle_wx-Keeps :
      (verb pk : Text) (parsed : ParsedCommand) (bbs : Bbs)
      → Keeps P bbs (handle_wx e now verb pk parsed bbs).0
  unfolding handle_wx
  handle_wx-Keeps verb pk parsed bbs =
      reply-Keeps _ pk _ _ bbs
        (summary_for-KeepsDb P e.unicode o e.services.weather e.json e.fetched now bbs.db)

  pub handle_name-Keeps :
      (verb pk : Text) (parsed : ParsedCommand) (bbs : Bbs)
      → Keeps P bbs (handle_name e now verb pk parsed bbs).0
  unfolding handle_name
  handle_name-Keeps verb pk parsed bbs = grind (arith, enqueue_kept, reply-Keeps, named_kept)

  read_written :
      (pk : Text) (trigger : Option Text) (mail_id : ℕ) (bbs : Bbs)
      → Keeps P bbs (reply_written e now pk trigger (read_mail bbs.db now pk mail_id) bbs).0
  read_written pk trigger mail_id bbs =
      reply_written-Keeps pk trigger _ bbs (read_kept bbs.db pk mail_id)

  deleted_written :
      (pk : Text) (trigger : Option Text) (mail_id : ℕ) (bbs : Bbs)
      → Keeps P bbs (reply_written e now pk trigger (delete_mail_text bbs.db pk mail_id) bbs).0
  deleted_written pk trigger mail_id bbs =
      reply_written-Keeps pk trigger _ bbs (deleted_kept bbs.db pk mail_id)

  pub handle_readmail-Keeps :
      (verb pk : Text) (parsed : ParsedCommand) (bbs : Bbs)
      → Keeps P bbs (handle_readmail e now verb pk parsed bbs).0
  unfolding handle_readmail
  handle_readmail-Keeps verb pk parsed bbs = grind (arith, enqueue_kept, unmoved, read_written)

  pub handle_delete_mail-Keeps :
      (verb pk : Text) (parsed : ParsedCommand) (bbs : Bbs)
      → Keeps P bbs (handle_delete_mail e now verb pk parsed bbs).0
  unfolding handle_delete_mail
  handle_delete_mail-Keeps verb pk parsed bbs =
      grind (arith, enqueue_kept, unmoved, deleted_written)
