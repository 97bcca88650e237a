-- ===== src/Scheduler.antt =====
-- scheduler.py: the jobs that change the board. The tasks that repeat them, and the jobs that only
-- call the radio (time_sync and advert), are asyncio's.
use meshcore_bbs.Db.{Db}
use meshcore_bbs.Db.Audit.{purge_old_audit}
use meshcore_bbs.Db.Mails.{count_unread, users_with_unread_mail}
use meshcore_bbs.Db.Users.{get_user}
use meshcore_bbs.Dispatcher.{Bbs, Setting, enqueue, priority_notification, with_db}
use meshcore_bbs.Models.{User}
use meshcore_bbs.Prelude.{
  Bool, List, Option, [], false, filter, if◌then◌else◌, leb, ltb, map, none, not, order_by, some,
  take, true, ℕ, ◌&&◌, ◌*◌, ◌++◌, ◌+◌, ◌-◌, ◌==◌, ◌||◌, ◌∷◌,
}
use meshcore_bbs.Services.Mails.{is_online, purge_old_read, should_notify}
use meshcore_bbs.Services.News.{Entry, refresh_all}
use meshcore_bbs.Services.Weather.{summary_for}
use meshcore_bbs.Text.{Text, lit}
use meshcore_bbs.Text.Decimal.{str}

-- What a job sees of the radio.
pub record Radio : Type 0 where
  pub radio_available : Bool
  pub contact_capacity : ℕ × ℕ

module _ (e : Setting) (now : ℕ) where
  -- The loop over the recipients. A user who is not told is asked about again at the next run.
  unfoldable pub notify_recipients : List Text → Bbs → Bbs
  notify_recipients [] bbs = bbs
  notify_recipients (pk ∷ recipients) bbs = elim (get_user bbs.db pk) [
    | none ↦ notify_recipients recipients bbs
    | some user ↦ elim (user.onboarded && is_online e.services.mail now user) [
      | false ↦ notify_recipients recipients bbs
      | true ↦
          let (notified, due) = should_notify e.services.mail now bbs.notified pk in
          let asked : Bbs = record bbs { notified = notified } in
          elim due [
            | false ↦ notify_recipients recipients asked
            | true ↦ notify_recipients recipients (
                enqueue e now pk
                  (lit "! " ++ (str (count_unread bbs.db pk) ++ lit " new mail. INBOX to view."))
                  priority_notification none asked)
          ]
    ]
  ]

  unfoldable pub mail_notify_job : Bbs → Bbs
  mail_notify_job bbs = notify_recipients (users_with_unread_mail bbs.db) bbs

  unfoldable pub audit_prune_job : Bbs → Bbs
  audit_prune_job bbs =
      let audited = (purge_old_audit bbs.db (now - 90 * 86400)).0 in
      with_db (purge_old_read e.services.mail audited now).0 bbs

  unfoldable pub wx_job : Bbs → Bbs
  wx_job bbs = with_db (summary_for e.services.weather e.json e.fetched now bbs.db).0 bbs

  unfoldable pub news_job : (Text → Text) → (Text → Option (List Entry)) → Bbs → Bbs
  news_job sha256 respond bbs =
      with_db (refresh_all sha256 e.services.news now respond bbs.db).0 bbs

  -- The SELECT: the ten users who have been away longest, of those who are away long enough.
  abbrev pub idle_users : Db → List User
  idle_users db = take 10 (
      order_by (λ a b. leb a.last_seen b.last_seen)
        (filter
          (λ u. ltb (u.last_seen + e.cfg.contacts.prune_after_days * 86400) now && not u.banned)
          db.users))

  -- The contacts that the radio is told to forget.
  unfoldable pub contact_prune_job : Radio → Db → List Text
  contact_prune_job radio db =
      let (used, cap) = radio.contact_capacity in
      if not radio.radio_available || cap == 0 || leb (10 * used) (8 * cap)
      then []
      else map (λ u. u.pubkey) (idle_users db)
