-- ===== src/Services/Mails/Sending.antt =====
-- What a successful SEND has stored.
use meshcore_bbs.Db.{Db, Result, err, ok}
use meshcore_bbs.Db.Mails.{add_mail, count_unread}
use meshcore_bbs.Models.{User}
use meshcore_bbs.Prelude.{
  Option, Option-cases, ap, arith, inl, inr, none, some, ℕ, ◌++◌, ◌+◌, ◌∙◌, ◌≡◌,
}
use meshcore_bbs.Services.Mails.{put_mail, resolve_recipient, send}
use meshcore_bbs.Services.Mails.Boxes.{count_unread-add_mail}
use meshcore_bbs.Services.Mails.Recipients.{IsRecipient, resolve_recipient-IsRecipient}
use meshcore_bbs.Text.{Text, Unicode, lit, strip}
use meshcore_bbs.Text.Decimal.{str}
use meshcore_bbs.Text.Laws.{str_eq_refl}

module _ (u : Unicode) (max_chars : ℕ) (db : Db) (now : ℕ) (from_pk recipient_id body : Text) where
  stored :
      (added : Result (Db × ℕ)) (after : Db) (text : Text) (user recipient : User)
      → (elim added as (λ _. Result (Db × Text × Option User)) [
        | err e ↦ err e
        | ok (mailed, mail_id) ↦ ok (mailed, lit "OK [mail=" ++ (str mail_id ++ lit "]"), some user)
      ])
        ≡ ok (after, text, some recipient)
      → (user ≡ recipient) × ((mail_id : ℕ) × (added ≡ ok (after, mail_id)))
  stored (err e) after text user recipient h = absurd (cc)
  stored (ok (mailed, mail_id)) after text user recipient h =
      (same_user (ok_answer h), (mail_id, ap (λ d. ok (d, mail_id)) (ap (λ a. a.0) (ok_answer' h))))
    where
      ok_answer' : {a b : Db × Text × Option User} → ok a ≡ ok b → a ≡ b
      ok_answer' e = cc

      ok_answer : {a b : Db × Text × Option User} → ok a ≡ ok b → a.2 ≡ b.2
      ok_answer e = ap (λ a. a.2) (ok_answer' e)

      same_user : {a b : User} → ◌≡◌ {A = Option User} (some a) (some b) → a ≡ b
      same_user e = cc

  send_stored :
      (after : Db) (text : Text) (user recipient : User)
      → (resolve_recipient u db recipient_id).user ≡ some user
      → send u max_chars db now from_pk recipient_id body ≡ ok (after, text, some recipient)
      → put_mail u db now from_pk user (strip body) ≡ ok (after, text, some recipient)
  unfolding send
  send_stored after text user recipient found h = ground arith

  send_unresolved :
      (after : Db) (text : Text) (recipient : User)
      → (resolve_recipient u db recipient_id).user ≡ none
      → send u max_chars db now from_pk recipient_id body ≡ ok (after, text, some recipient)
      → ⊥
  unfolding send
  send_unresolved after text recipient found h = ground arith

  -- A SEND that reports a recipient has resolved the identifier to that user, who is onboarded and
  -- not banned, and the user has one more unread mail.
  pub send-IsRecipient :
      (after : Db) (text : Text) (recipient : User)
      → send u max_chars db now from_pk recipient_id body ≡ ok (after, text, some recipient)
      → ((resolve_recipient u db recipient_id).user ≡ some recipient)
        × IsRecipient db recipient
        × (count_unread after recipient.pubkey ≡ count_unread db recipient.pubkey + 1)
  send-IsRecipient after text recipient h =
      elim (Option-cases (resolve_recipient u db recipient_id).user) [
        | inl nobody ↦ absurd (send_unresolved after text recipient nobody h)
        | inr (user, found) ↦
            let put =
              stored (add_mail db from_pk user.pubkey (strip body) now) after text user recipient
                (send_stored after text user recipient found h) in
            let found' : (resolve_recipient u db recipient_id).user ≡ some recipient =
              found ∙ ap some put.0 in
            (
              found',
              resolve_recipient-IsRecipient u db recipient_id recipient found',
              ground (
                arith,
                ap (λ x. x.pubkey) put.0,
                str_eq_refl recipient.pubkey,
                count_unread-add_mail db after from_pk user.pubkey (strip body) now put.1.0
                    recipient.pubkey put.1.1,
              ),
            )
      ]
