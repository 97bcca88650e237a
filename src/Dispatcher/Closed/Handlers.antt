-- ===== src/Dispatcher/Closed/Handlers.antt =====
-- The choice of the handler.
use meshcore_bbs.Commands.{ParsedCommand}
use meshcore_bbs.Dispatcher.{Bbs, Handled, Setting, enqueue}
use meshcore_bbs.Dispatcher.Admins.{handle_admin, handle_advert}
use meshcore_bbs.Dispatcher.Closed.{Keeps, Operations, then-Keeps}
use meshcore_bbs.Dispatcher.Closed.Ordinary.{
  handle_delete_mail-Keeps, handle_inbox-Keeps, handle_name-Keeps, handle_news-Keeps,
  handle_ping-Keeps, handle_read-Keeps, handle_readmail-Keeps, handle_status-Keeps,
  handle_who-Keeps, handle_whoami-Keeps, handle_wx-Keeps,
}
use meshcore_bbs.Dispatcher.Closed.Services.{enqueue-Keeps}
use meshcore_bbs.Dispatcher.Closed.Writing.{handle_post-Keeps, handle_send-Keeps}
use meshcore_bbs.Dispatcher.Inbound.{caught, handle_command, run_handler}
use meshcore_bbs.Dispatcher.Mailing.{handle_delete_mail, handle_readmail, handle_send}
use meshcore_bbs.Dispatcher.Posting.{handle_name, handle_post}
use meshcore_bbs.Dispatcher.Simple.{
  handle_inbox, handle_news, handle_ping, handle_read, handle_status, handle_who, handle_whoami,
  handle_wx,
}
use meshcore_bbs.Prelude.{Bool, Option, false, if◌then◌else◌, none, some, true, ℕ}
use meshcore_bbs.Text.{Text}
use meshcore_bbs.Transport.{InboundMessage}

-- The commands of the administrators, for the senders that are allowed here.
pub record Powers (P : Bbs → Type 0) (e : Setting) (now : ℕ) (Allowed : Text → Type 0)
    : Type 0 where
  pub advert_kept :
      (verb pk : Text) (bbs : Bbs) → Allowed pk → Keeps P bbs (handle_advert e now verb pk bbs).0
  pub admin_kept :
      (verb pk : Text) (parsed : ParsedCommand) (bbs : Bbs)
      → Allowed pk
      → Keeps P bbs (handle_admin e now verb pk parsed bbs).0

module _ (P : Bbs → Type 0) (e : Setting) (now : ℕ) (o : Operations e.unicode P)
    (Allowed : Text → Type 0) (powers : Powers P e now Allowed) where
  enqueue_kept :
      (pk text : Text) (priority : ℕ) (trigger : Option Text) (bbs : Bbs)
      → Keeps P bbs (enqueue e now pk text priority trigger bbs)
  enqueue_kept = enqueue-Keeps P e.unicode o e now

  who_kept : (verb pk : Text) (bbs : Bbs) → Keeps P bbs (handle_who e now verb pk bbs).0
  who_kept = handle_who-Keeps P e now o

  whoami_kept : (verb pk : Text) (bbs : Bbs) → Keeps P bbs (handle_whoami e now verb pk bbs).0
  whoami_kept = handle_whoami-Keeps P e now o

  status_kept : (verb pk : Text) (bbs : Bbs) → Keeps P bbs (handle_status e now verb pk bbs).0
  status_kept = handle_status-Keeps P e now o

  ping_kept :
      (verb : Text) (inbound : InboundMessage) (bbs : Bbs)
      → Keeps P bbs (handle_ping e now verb inbound bbs).0
  ping_kept = handle_ping-Keeps P e now o

  name_kept :
      (verb pk : Text) (parsed : ParsedCommand) (bbs : Bbs)
      → Keeps P bbs (handle_name e now verb pk parsed bbs).0
  name_kept = handle_name-Keeps P e now o

  news_kept :
      (verb pk : Text) (parsed : ParsedCommand) (bbs : Bbs)
      → Keeps P bbs (handle_news e now verb pk parsed bbs).0
  news_kept = handle_news-Keeps P e now o

  wx_kept :
      (verb pk : Text) (parsed : ParsedCommand) (bbs : Bbs)
      → Keeps P bbs (handle_wx e now verb pk parsed bbs).0
  wx_kept = handle_wx-Keeps P e now o

  read_kept :
      (verb pk : Text) (parsed : ParsedCommand) (bbs : Bbs)
      → Keeps P bbs (handle_read e now verb pk parsed bbs).0
  read_kept = handle_read-Keeps P e now o

  inbox_kept :
      (verb pk : Text) (parsed : ParsedCommand) (bbs : Bbs)
      → Keeps P bbs (handle_inbox e now verb pk parsed bbs).0
  inbox_kept = handle_inbox-Keeps P e now o

  readmail_kept :
      (verb pk : Text) (parsed : ParsedCommand) (bbs : Bbs)
      → Keeps P bbs (handle_readmail e now verb pk parsed bbs).0
  readmail_kept = handle_readmail-Keeps P e now o

  delete_mail_kept :
      (verb pk : Text) (parsed : ParsedCommand) (bbs : Bbs)
      → Keeps P bbs (handle_delete_mail e now verb pk parsed bbs).0
  delete_mail_kept = handle_delete_mail-Keeps P e now o

  post_kept :
      (verb pk : Text) (parsed : ParsedCommand) (bbs : Bbs)
      → Keeps P bbs (handle_post e now verb pk parsed bbs).0
  post_kept = handle_post-Keeps P e now o

  send_kept :
      (verb pk : Text) (parsed : ParsedCommand) (bbs : Bbs)
      → Keeps P bbs (handle_send e now verb pk parsed bbs).0
  send_kept = handle_send-Keeps P e now o

  either :
      (b : Bool) (x y : Handled) (bbs : Bbs)
      → Keeps P bbs x.0
      → Keeps P bbs y.0
      → Keeps P bbs (if b then x else y).0
  either true x y bbs h k = h
  either false x y bbs h k = k

  run_handler-Keeps :
      (inbound : InboundMessage) (parsed : ParsedCommand) (bbs : Bbs)
      → Allowed inbound.pubkey
      → Keeps P bbs (run_handler e now inbound parsed bbs).0
  unfolding run_handler
  run_handler-Keeps inbound parsed bbs h =
      search
        (
          h, either, enqueue_kept, who_kept, ping_kept, whoami_kept, name_kept, news_kept, wx_kept,
          read_kept, post_kept, inbox_kept, readmail_kept, send_kept, delete_mail_kept, status_kept,
          powers.advert_kept, powers.admin_kept,
        )
        depth 24 fits 4000

  caught-Keeps :
      (v pk : Text) (handled : Handled) (bbs : Bbs)
      → Keeps P bbs handled.0
      → Keeps P bbs (caught e now v pk handled)
  caught-Keeps v pk (after, none) bbs h = h
  caught-Keeps v pk (after, some error) bbs h =
      then-Keeps bbs after _ h (enqueue_kept pk _ _ _ after)

  pub handle_command-Keeps :
      (inbound : InboundMessage) (parsed : ParsedCommand) (bbs : Bbs)
      → Allowed inbound.pubkey
      → Keeps P bbs (handle_command e now inbound parsed bbs)
  unfolding handle_command
  handle_command-Keeps inbound parsed bbs h =
      caught-Keeps parsed.verb inbound.pubkey (run_handler e now inbound parsed bbs) bbs
        (run_handler-Keeps inbound parsed bbs h)
