-- ===== src/Dispatcher/Closed/Writing.antt =====
-- The handlers of POST and SEND.
use meshcore_bbs.Commands.{ParsedCommand}
use meshcore_bbs.Db.{Db, Result, err, ok}
use meshcore_bbs.Db.Mails.{count_unread}
use meshcore_bbs.Dispatcher.{
  Bbs, Setting, check_limits, enqueue, priority_notification, reply, reply_written, with_db,
}
use meshcore_bbs.Dispatcher.Closed.{Keeps, KeepsDb, Operations, then-Keeps, unmoved, with_db-Keeps}
use meshcore_bbs.Dispatcher.Closed.Ordinary.{reply-Keeps, reply_written-Keeps}
use meshcore_bbs.Dispatcher.Closed.Services.{
  check_limits-KeepsDb, enqueue-Keeps, post-KeepsDb, send-KeepsDb,
}
use meshcore_bbs.Dispatcher.Mailing.{
  after_send, handle_send, maybe_notify_recipient, notify_recipient, send_body,
}
use meshcore_bbs.Dispatcher.Posting.{handle_post, post_body}
use meshcore_bbs.Models.{User}
use meshcore_bbs.Prelude.{
  Bool-cases, List, Option, [], arith, inl, inr, none, refl, some, ℕ, ◌++◌, ◌∷◌, ◌≡◌,
}
use meshcore_bbs.RateLimiter.{RateLimit}
use meshcore_bbs.Services.Boards.{post}
use meshcore_bbs.Services.Mails.{send, should_notify}
use meshcore_bbs.Text.{Text, lit}
use meshcore_bbs.Text.Decimal.{str}

module _ (P : Bbs → Type 0) (e : Setting) (now : ℕ) (o : Operations e.unicode P) where
  enqueue_kept :
      (pk text : Text) (priority : ℕ) (trigger : Option Text) (bbs : Bbs)
      → Keeps P bbs (enqueue e now pk text priority trigger bbs)
  enqueue_kept = enqueue-Keeps P e.unicode o e now

  replied :
      (db : Db) (pk text : Text) (trigger : Option Text) (bbs : Bbs)
      → KeepsDb P bbs.db db
      → Keeps P bbs (reply e now pk trigger text (with_db db bbs)).0
  replied = reply-Keeps P e now o

  written_kept :
      (pk : Text) (trigger : Option Text) (written : Result (Db × Text)) (bbs : Bbs)
      → ((after : Db × Text) → written ≡ ok after → KeepsDb P bbs.db after.0)
      → Keeps P bbs (reply_written e now pk trigger written bbs).0
  written_kept = reply_written-Keeps P e now o

  limits_kept :
      (db : Db) (pk : Text) (limits : List (Text × RateLimit))
      → KeepsDb P db (check_limits db now pk limits).0
  limits_kept db pk limits = check_limits-KeepsDb P e.unicode o db now pk limits

  posted_kept :
      (max_chars : ℕ) (db : Db) (slug author body : Text) (after : Db × Text)
      → post e.unicode max_chars db now slug author body ≡ ok after
      → KeepsDb P db after.0
  posted_kept max_chars db = post-KeepsDb P e.unicode o max_chars db now

  sent_kept :
      (max_chars : ℕ) (db : Db) (from_pk recipient_id body : Text) (after : Db × Text × Option User)
      → send e.unicode max_chars db now from_pk recipient_id body ≡ ok after
      → KeepsDb P db after.0
  sent_kept max_chars db = send-KeepsDb P e.unicode o max_chars db now

  post_body-Keeps :
      (verb pk slug body : Text) (bbs : Bbs) → Keeps P bbs (post_body e now verb pk slug body bbs).0
  post_body-Keeps verb pk slug [] bbs = enqueue_kept pk _ _ _ bbs
  post_body-Keeps verb pk slug (c ∷ s) bbs =
      written_kept pk (some verb) _ bbs
        (posted_kept e.services.max_body_chars bbs.db slug pk (c ∷ s))

  pub handle_post-Keeps :
      (verb pk : Text) (parsed : ParsedCommand) (bbs : Bbs)
      → Keeps P bbs (handle_post e now verb pk parsed bbs).0
  unfolding handle_post
  handle_post-Keeps verb pk parsed bbs =
      grind (arith, enqueue_kept, replied, limits_kept, then-Keeps, with_db-Keeps, post_body-Keeps)

  notify_recipient-Keeps : (pk : Text) (bbs : Bbs) → Keeps P bbs (notify_recipient e now pk bbs)
  notify_recipient-Keeps pk bbs =
      let told = (should_notify e.services.mail now bbs.notified pk).0 in
      let sent =
        enqueue_kept pk
          (lit "! " ++ (str (count_unread bbs.db pk) ++ lit " new mail. INBOX to view."))
          priority_notification none (record bbs { notified = told }) in
      elim (Bool-cases (should_notify e.services.mail now bbs.notified pk).1) [
        | inl due ↦ simp due (then-Keeps bbs _ _ (o.notified_kept bbs told) sent)
        | inr quiet ↦ simp quiet (unmoved bbs)
      ]

  maybe_notify_recipient-Keeps :
      (pk : Text) (bbs : Bbs) → Keeps P bbs (maybe_notify_recipient e now pk bbs)
  unfolding maybe_notify_recipient
  maybe_notify_recipient-Keeps pk bbs = grind (arith, unmoved, notify_recipient-Keeps)

  after_send-Keeps :
      (verb pk : Text) (sent : Result (Db × Text × Option User)) (bbs : Bbs)
      → ((after : Db × Text × Option User) → sent ≡ ok after → KeepsDb P bbs.db after.0)
      → Keeps P bbs (after_send e now verb pk sent bbs).0
  after_send-Keeps verb pk (err error) bbs h = unmoved bbs
  after_send-Keeps verb pk (ok (db, text, none)) bbs h =
      replied db pk text (some verb) bbs (h (db, text, none) refl)
  after_send-Keeps verb pk (ok (db, text, some recipient)) bbs h =
      then-Keeps bbs (reply e now pk (some verb) text (with_db db bbs)).0 _
        (replied db pk text (some verb) bbs (h (db, text, some recipient) refl))
        (maybe_notify_recipient-Keeps recipient.pubkey
          (reply e now pk (some verb) text (with_db db bbs)).0)

  send_body-Keeps :
      (verb pk recipient_id body : Text) (bbs : Bbs)
      → Keeps P bbs (send_body e now verb pk recipient_id body bbs).0
  send_body-Keeps verb pk recipient_id [] bbs = enqueue_kept pk _ _ _ bbs
  send_body-Keeps verb pk recipient_id (c ∷ s) bbs =
      after_send-Keeps verb pk _ bbs
        (sent_kept e.services.max_body_chars bbs.db pk recipient_id (c ∷ s))

  pub handle_send-Keeps :
      (verb pk : Text) (parsed : ParsedCommand) (bbs : Bbs)
      → Keeps P bbs (handle_send e now verb pk parsed bbs).0
  unfolding handle_send
  handle_send-Keeps verb pk parsed bbs =
      grind (arith, enqueue_kept, replied, limits_kept, then-Keeps, with_db-Keeps, send_body-Keeps)
