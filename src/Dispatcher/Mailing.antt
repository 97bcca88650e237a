-- ===== src/Dispatcher/Mailing.antt =====
-- dispatcher.py: the handlers of mail.
use meshcore_bbs.Commands.{ParsedCommand}
use meshcore_bbs.Db.{Db, Result, err, ok}
use meshcore_bbs.Db.Mails.{count_unread}
use meshcore_bbs.Db.Users.{get_user}
use meshcore_bbs.Dispatcher.{
  Bbs, Handled, Setting, check_limits, enqueue, int_of, priority_notification, rate_limited_text,
  reply, reply_written, with_db, without_arg,
}
use meshcore_bbs.Models.{User}
use meshcore_bbs.Prelude.{List, Option, [], if◌then◌else◌, none, not, null, some, ℕ, ◌++◌, ◌∷◌}
use meshcore_bbs.Services.Mails.{delete_mail_text, is_online, read_mail, send, should_notify}
use meshcore_bbs.Text.{Text, is_digit, lit}
use meshcore_bbs.Text.Decimal.{str}

module _ (e : Setting) (now : ℕ) where
  -- `args[0]` where it is a number.
  abbrev id_arg : List Text → Option Text
  id_arg [] = none
  id_arg (a ∷ args) = if is_digit e.unicode a then some a else none

  unfoldable pub handle_readmail : Text → Text → ParsedCommand → Bbs → Handled
  handle_readmail verb pk parsed bbs = elim (id_arg parsed.args) [
    | none ↦ reply e now pk (some verb) (lit "! READMAIL <id>") bbs
    | some a ↦ elim (int_of e.unicode a) [
      | err error ↦ (bbs, some error)
      | ok mail_id ↦ reply_written e now pk (some verb) (read_mail bbs.db now pk mail_id) bbs
    ]
  ]

  unfoldable pub handle_delete_mail : Text → Text → ParsedCommand → Bbs → Handled
  handle_delete_mail verb pk parsed bbs = elim (id_arg parsed.args) [
    | none ↦ reply e now pk (some verb) (lit "! DELETE <id>") bbs
    | some a ↦ elim (int_of e.unicode a) [
      | err error ↦ (bbs, some error)
      | ok mail_id ↦ reply_written e now pk (some verb) (delete_mail_text bbs.db pk mail_id) bbs
    ]
  ]

  abbrev pub notify_recipient : Text → Bbs → Bbs
  notify_recipient pk bbs =
      let (notified, due) = should_notify e.services.mail now bbs.notified pk in
      if due
      then enqueue e now pk
          (lit "! " ++ (str (count_unread bbs.db pk) ++ lit " new mail. INBOX to view."))
          priority_notification none (record bbs { notified = notified })
      else bbs

  unfoldable pub maybe_notify_recipient : Text → Bbs → Bbs
  maybe_notify_recipient pk bbs = elim (get_user bbs.db pk) [
    | none ↦ bbs
    | some recipient ↦
        if not recipient.onboarded
        then bbs
        else if not (is_online e.services.mail now recipient)
        then bbs
        else notify_recipient pk bbs
  ]

  -- What is done with the answer of `mail.send`.
  abbrev pub after_send : Text → Text → Result (Db × Text × Option User) → Bbs → Handled
  after_send verb pk (err error) bbs = (bbs, some error)
  after_send verb pk (ok (db, text, none)) bbs = reply e now pk (some verb) text (with_db db bbs)
  after_send verb pk (ok (db, text, some recipient)) bbs = (
    maybe_notify_recipient recipient.pubkey (reply e now pk (some verb) text (with_db db bbs)).0,
    none,
  )

  -- The part behind the rate limit.
  abbrev pub send_body : Text → Text → Text → Text → Bbs → Handled
  send_body verb pk recipient_id body bbs =
      if null body
      then reply e now pk (some verb) (lit "! SEND <user> <text>") bbs
      else after_send verb pk
          (send e.unicode e.services.max_body_chars bbs.db now pk recipient_id body) bbs

  abbrev pub send_to : Text → Text → Text → Text → Bbs → Handled
  send_to verb pk recipient_id rest bbs =
      let (db, refusal) = check_limits bbs.db now pk (
        (lit "mail_day", record { limit = e.cfg.limits.mail_send_per_day; window_seconds = 86400 })
        ∷ []) in
      elim refusal [
        | some d ↦ reply e now pk (some verb) (rate_limited_text d) (with_db db bbs)
        | none ↦
            send_body verb pk recipient_id (without_arg e.unicode recipient_id rest)
              (with_db db bbs)
      ]

  unfoldable pub handle_send : Text → Text → ParsedCommand → Bbs → Handled
  handle_send verb pk parsed bbs = elim parsed.args [
    | [] ↦ reply e now pk (some verb) (lit "! SEND <user> <text>") bbs
    | recipient_id ∷ args ↦
        if null parsed.rest
        then reply e now pk (some verb) (lit "! SEND <user> <text>") bbs
        else send_to verb pk recipient_id parsed.rest bbs
  ]
