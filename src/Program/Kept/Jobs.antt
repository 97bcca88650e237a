-- ===== src/Program/Kept/Jobs.antt =====
-- The jobs of the scheduler.
use meshcore_bbs.Config.{MailConfig}
use meshcore_bbs.Db.{Db}
use meshcore_bbs.Db.Mails.{count_unread}
use meshcore_bbs.Db.News.{insert_news_item}
use meshcore_bbs.Dispatcher.{Bbs, Setting, enqueue, priority_notification}
use meshcore_bbs.Dispatcher.Closed.{Keeps, KeepsDb, then-Keeps, then_unchanged, unchanged, unmoved}
use meshcore_bbs.Dispatcher.Closed.Services.{enqueue-Keeps}
use meshcore_bbs.Prelude.{
  List, Option, Option-cases, [], arith, inl, inr, none, or_else, take, ℕ, ◌++◌, ◌∷◌,
}
use meshcore_bbs.Program.Kept.{Every}
use meshcore_bbs.Scheduler.{notify_recipients}
use meshcore_bbs.Services.Mails.{purge_old_read, should_notify}
use meshcore_bbs.Services.News.{
  Entry, insert_entries, item_hash, published_at, refresh_feeds, refresh_one,
}
use meshcore_bbs.Text.{Text, lit, strip}
use meshcore_bbs.Text.Decimal.{str}

module _ (P : Bbs → Type 0) (e : Setting) (k : Every e.unicode P) where
  enqueue_kept :
      (now : ℕ) (pk text : Text) (priority : ℕ) (trigger : Option Text) (bbs : Bbs)
      → Keeps P bbs (enqueue e now pk text priority trigger bbs)
  enqueue_kept = enqueue-Keeps P e.unicode k.operations e

  pub notify_recipients-Keeps :
      (now : ℕ) (recipients : List Text) (bbs : Bbs)
      → Keeps P bbs (notify_recipients e now recipients bbs)
  unfolding notify_recipients
  notify_recipients-Keeps now [] bbs = unmoved bbs
  notify_recipients-Keeps now (pk ∷ recipients) bbs =
      let told = (should_notify e.services.mail now bbs.notified pk).0 in
      let asked : Bbs = record bbs { notified = told } in
      let text = lit "! " ++ (str (count_unread bbs.db pk) ++ lit " new mail. INBOX to view.") in
      let sent = enqueue e now pk text priority_notification none asked in
      let same = notify_recipients-Keeps now recipients bbs in
      let quiet =
        then-Keeps bbs asked _ (k.operations.notified_kept bbs told)
          (notify_recipients-Keeps now recipients asked) in
      let loud = then-Keeps bbs asked _ (k.operations.notified_kept bbs told) (
        then-Keeps asked sent _ (enqueue_kept now pk text priority_notification none asked)
          (notify_recipients-Keeps now recipients sent)) in
      grind (arith, same, quiet, loud)

  pub purge_old_read-KeepsDb :
      (cfg : MailConfig) (db : Db) (now : ℕ) → KeepsDb P db (purge_old_read cfg db now).0
  unfolding purge_old_read
  purge_old_read-KeepsDb cfg db now =
      grind (arith, unchanged, k.background.purge_old_read_mail_kept)

  insert_entries-KeepsDb :
      (sha256 : Text → Text) (now feed_id : ℕ) (entries : List Entry) (db : Db)
      → KeepsDb P db (insert_entries sha256 now feed_id entries db).0
  unfolding insert_entries
  insert_entries-KeepsDb sha256 now feed_id [] db = unchanged db
  insert_entries-KeepsDb sha256 now feed_id (entry ∷ entries) db =
      let title = strip (or_else entry.title []) in
      let inserted =
        insert_news_item db feed_id title entry.link (published_at entry now)
          (item_hash sha256 feed_id title entry.link) in
      let skipped = insert_entries-KeepsDb sha256 now feed_id entries db in
      let done =
        then_unchanged
          (k.background.insert_news_item_kept db feed_id title entry.link (published_at entry now)
            (item_hash sha256 feed_id title entry.link))
          (insert_entries-KeepsDb sha256 now feed_id entries inserted.0) in
      grind (arith, skipped, done)

  pub refresh_feeds-KeepsDb :
      (sha256 : Text → Text) (now : ℕ) (respond : Text → Option (List Entry))
      (feeds : List (ℕ × Text × Text)) (db : Db)
      → KeepsDb P db (refresh_feeds sha256 e.services.news now respond feeds db).0
  unfolding refresh_feeds refresh_one
  refresh_feeds-KeepsDb sha256 now respond [] db = unchanged db
  refresh_feeds-KeepsDb sha256 now respond ((feed_id, slug, url) ∷ feeds) db =
      elim (Option-cases (respond url)) [
        | inl none_came ↦
            rw (none_came, refresh_feeds) (refresh_feeds-KeepsDb sha256 now respond feeds db)
        | inr (entries, came) ↦
            rw (came, refresh_feeds)
              (then_unchanged
                (insert_entries-KeepsDb sha256 now feed_id
                  (take e.services.news.max_items_per_feed entries) db)
                (then_unchanged (k.background.trim_feed_to_kept _ feed_id _)
                  (refresh_feeds-KeepsDb sha256 now respond feeds _)))
      ]
