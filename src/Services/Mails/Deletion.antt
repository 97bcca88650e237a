-- ===== src/Services/Mails/Deletion.antt =====
-- What DELETE does to the mailboxes.
use meshcore_bbs.Db.{Db, Result, err, ok, overflow_error}
use meshcore_bbs.Db.Mails.{delete_mail, in_inbox, inbox, inbox_before, is_mail}
use meshcore_bbs.Models.{Mail}
use meshcore_bbs.Prelude.{
  All, All-of_In, Bool, Bool-cases, In-All, In-filter, In-order_by, List, [], ap, arith, false,
  filter, filter-update_rows, inl, inr, ltb, not, refl, subst, sym, true, update_rows, ℕ, ◌&&◌,
  ◌==◌, ◌^◌, ◌∙◌, ◌∷◌, ◌≡◌,
}
use meshcore_bbs.Text.{Text, str_eq}

update_rows-gone :
    {A : Type 0} (p q : A → Bool) (f : A → A) (xs : List A)
    → ((x : A) → q (f x) ≡ false)
    → ((x : A) → p x ≡ false → q x ≡ false)
    → All (λ x. q x ≡ false) (update_rows p f xs)
update_rows-gone p q f [] hit miss = tt
update_rows-gone p q f (x ∷ xs) hit miss =
    (ground (arith, hit x, miss x), update_rows-gone p q f xs hit miss)

module _ (db : Db) (viewer_pk : Text) (mail_id : ℕ) where
  abbrev shown_as_id : Mail → Bool
  shown_as_id m = is_mail mail_id viewer_pk m && not m.deleted

  abbrev of_others : Mail → Bool
  of_others m = not (str_eq m.to_pubkey viewer_pk)

  abbrev deleted_mail : List Mail
  deleted_mail = update_rows (is_mail mail_id viewer_pk) (λ m. record m { deleted = true }) db.mail

  All-miss :
      (xs : List Mail) → All (λ m. of_others m ≡ true → is_mail mail_id viewer_pk m ≡ false) xs
  All-miss [] = tt
  All-miss (m ∷ xs) = (λ h. ground arith, All-miss xs)

  others_kept : filter of_others deleted_mail ≡ filter of_others db.mail
  others_kept =
      filter-update_rows of_others (is_mail mail_id viewer_pk) (λ m. record m { deleted = true })
        db.mail (λ m. refl) (All-miss db.mail)

  none_shown : All (λ m. shown_as_id m ≡ false) deleted_mail
  none_shown =
      update_rows-gone (is_mail mail_id viewer_pk) shown_as_id (λ m. record m { deleted = true })
        db.mail (λ m. ground arith) (λ m h. ground arith)

  inbox_cleared :
      (after : Db)
      → after.mail ≡ deleted_mail
      → All (λ m. (m.id == mail_id) ≡ false) (inbox after viewer_pk)
  unfolding inbox
  inbox_cleared after same =
      All-of_In (λ m. (m.id == mail_id) ≡ false) (inbox after viewer_pk)
        (λ m i.
          let found =
            In-filter (in_inbox viewer_pk) m after.mail (In-order_by inbox_before m _ i) in
          let hidden =
            In-All (λ m. shown_as_id m ≡ false) m after.mail
              (subst (All (λ m. shown_as_id m ≡ false)) (sym same) none_shown) found.0 in
          ground (arith, found.1, hidden))

  -- After a DELETE that does not raise, no mail with that id is in the inbox of the reader, and the
  -- mail of all the others is what it was.
  pub delete_mail-inbox :
      (after : Db) (found : Bool)
      → delete_mail db mail_id viewer_pk ≡ ok (after, found)
      → All (λ m. (m.id == mail_id) ≡ false) (inbox after viewer_pk)
        × (filter (λ m. not (str_eq m.to_pubkey viewer_pk)) after.mail
            ≡ filter (λ m. not (str_eq m.to_pubkey viewer_pk)) db.mail)
  unfolding delete_mail
  delete_mail-inbox after found h = elim (Bool-cases (ltb mail_id (2 ^ 63))) [
    | inl small ↦
        let same : after.mail ≡ deleted_mail = sym (ap (λ r. r.0.mail) (ok_pair (rw small at h))) in
        (inbox_cleared after same, ap (filter of_others) same ∙ others_kept)
    | inr large ↦ absurd (not_ok (rw large at h))
  ]
    where
      ok_pair : {a b : Db × Bool} → ok a ≡ ok b → a ≡ b
      ok_pair e = cc

      not_ok : ◌≡◌ {A = Result (Db × Bool)} (err overflow_error) (ok (after, found)) → ⊥
      not_ok e = cc
