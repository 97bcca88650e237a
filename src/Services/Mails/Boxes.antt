-- ===== src/Services/Mails/Boxes.antt =====
-- Who sees which mail.
use meshcore_bbs.Db.{Db, Result, err, integrity_error, ok, overflow_error}
use meshcore_bbs.Db.Mails.{add_mail, count_unread, get_mail, is_unread, mark_mail_read, new_mail}
use meshcore_bbs.Db.Users.{get_user, has_pubkey}
use meshcore_bbs.Models.{Mail}
use meshcore_bbs.Prelude.{
  ==_iff, Bool-cases, In, Option, any, ap, arith, count_rows-snoc, false, find_row-some,
  if◌then◌else◌, inl, inr, ltb, none, not, refl, some, sym, ℕ, ◌&&◌, ◌++◌, ◌+◌, ◌^◌, ◌∙◌, ◌≡◌, ◌⊎◌,
}
use meshcore_bbs.Services.{shown_name}
use meshcore_bbs.Services.Mails.{read_mail}
use meshcore_bbs.Text.{Text, lit, str_eq}
use meshcore_bbs.Text.Laws.{str_eq_iff}

-- The mail that a reader is shown is one to the reader that is not deleted.
pub record IsShown (db : Db) (viewer_pk : Text) (mail_id : ℕ) (m : Mail) : Type 0 where
  pub stored : In m db.mail
  pub addressed : m.to_pubkey ≡ viewer_pk
  pub named : m.id ≡ mail_id
  pub kept : m.deleted ≡ false

ok_same : {a b : Option Mail} → ok a ≡ ok b → a ≡ b
ok_same e = cc

ok_result : {a b : Db × Text} → ok a ≡ ok b → a ≡ b
ok_result e = cc

module _ (db : Db) where
  get_mail-IsShown :
      (mail_id : ℕ) (viewer_pk : Text) (m : Mail)
      → get_mail db mail_id viewer_pk ≡ ok (some m)
      → IsShown db viewer_pk mail_id m
  unfolding get_mail
  get_mail-IsShown mail_id viewer_pk m h = elim (Bool-cases (ltb mail_id (2 ^ 63))) [
    | inl holds ↦
        let found = find_row-some _ m db.mail (ok_same (rw holds at h)) in
        record {
          stored = found.0;
          addressed = ground (arith, found.1, str_eq_iff m.to_pubkey viewer_pk);
          named = ground (arith, found.1, ==_iff m.id mail_id);
          kept = ground (arith, found.1);
        }
    | inr fails ↦ absurd (not_ok (rw fails at h))
  ]
    where
      not_ok : ◌≡◌ {A = Result (Option Mail)} (err overflow_error) (ok (some m)) → ⊥
      not_ok e = cc

  -- The answer to READMAIL, given what was found.
  answer : ℕ → ℕ → Result (Option Mail) → Result (Db × Text)
  answer now mail_id (err e) = err e
  answer now mail_id (ok none) = ok (db, lit "! Mail not found.")
  answer now mail_id (ok (some m)) = ok (
    mark_mail_read db mail_id now,
    lit "From " ++ (shown_name (get_user db m.from_pubkey) m.from_pubkey ++ (lit ":\n" ++ m.body)),
  )

  answer-IsShown :
      (now : ℕ) (viewer_pk : Text) (mail_id : ℕ) (after : Db) (text : Text)
      (found : Result (Option Mail))
      → ((m : Mail) → found ≡ ok (some m) → IsShown db viewer_pk mail_id m)
      → answer now mail_id found ≡ ok (after, text)
      → ((after ≡ db) × (text ≡ lit "! Mail not found."))
        ⊎ ((m : Mail) × IsShown db viewer_pk mail_id m
            × (text
                ≡ lit "From "
                  ++ (shown_name (get_user db m.from_pubkey) m.from_pubkey
                      ++ (lit ":\n" ++ m.body)))
            × (after ≡ mark_mail_read db mail_id now))
  unfolding answer
  answer-IsShown now viewer_pk mail_id after text (err e) shown h = absurd (cc)
  answer-IsShown now viewer_pk mail_id after text (ok none) shown h =
      inl (sym (ap (λ r. r.0) (ok_result h)), sym (ap (λ r. r.1) (ok_result h)))
  answer-IsShown now viewer_pk mail_id after text (ok (some m)) shown h =
      inr (m, shown m refl, sym (ap (λ r. r.1) (ok_result h)), sym (ap (λ r. r.0) (ok_result h)))

  read_mail-answer :
      (now : ℕ) (viewer_pk : Text) (mail_id : ℕ)
      → read_mail db now viewer_pk mail_id ≡ answer now mail_id (get_mail db mail_id viewer_pk)
  unfolding read_mail answer
  read_mail-answer now viewer_pk mail_id = ground arith

  -- READMAIL answers "! Mail not found." and changes nothing, or it shows the sender and the body
  -- of a stored mail to the reader with that id that is not deleted, and marks that id as read.
  pub read_mail-IsShown :
      (now : ℕ) (viewer_pk : Text) (mail_id : ℕ) (after : Db) (text : Text)
      → read_mail db now viewer_pk mail_id ≡ ok (after, text)
      → ((after ≡ db) × (text ≡ lit "! Mail not found."))
        ⊎ ((m : Mail) × IsShown db viewer_pk mail_id m
            × (text
                ≡ lit "From "
                  ++ (shown_name (get_user db m.from_pubkey) m.from_pubkey
                      ++ (lit ":\n" ++ m.body)))
            × (after ≡ mark_mail_read db mail_id now))
  read_mail-IsShown now viewer_pk mail_id after text h =
      answer-IsShown now viewer_pk mail_id after text (get_mail db mail_id viewer_pk)
        (λ m e. get_mail-IsShown mail_id viewer_pk m e)
        (sym (read_mail-answer now viewer_pk mail_id) ∙ h)

-- A mail that is stored is one more unread mail of its recipient, and no mail of another user.
pub count_unread-add_mail :
    (db after : Db) (from_pk to_pk body : Text) (now mail_id : ℕ) (pk : Text)
    → add_mail db from_pk to_pk body now ≡ ok (after, mail_id)
    → count_unread after pk ≡ count_unread db pk + (if str_eq to_pk pk then 1 else 0)
unfolding add_mail count_unread
count_unread-add_mail db after from_pk to_pk body now mail_id pk h =
    elim (Bool-cases (any (has_pubkey from_pk) db.users && any (has_pubkey to_pk) db.users)) [
      | inl known ↦ ground (
        arith,
        ap (λ r. r.0.mail) (ok_stored (rw known at h)),
        count_rows-snoc (λ m. str_eq m.to_pubkey pk && is_unread m && not m.deleted) db.mail
            (new_mail db.next_mail from_pk to_pk body now),
      )
      | inr unknown ↦ absurd (not_ok (rw unknown at h))
    ]
  where
    ok_stored : {a b : Db × ℕ} → ok a ≡ ok b → a ≡ b
    ok_stored e = cc

    not_ok : ◌≡◌ {A = Result (Db × ℕ)} (err integrity_error) (ok (after, mail_id)) → ⊥
    not_ok e = cc
