-- ===== src/Db/Mails.antt =====
-- The section `mail` of db.py.
use meshcore_bbs.Db.{Db, Result, err, integrity_error, ok, sql_int}
use meshcore_bbs.Db.Users.{has_pubkey}
use meshcore_bbs.Models.{Mail}
use meshcore_bbs.Prelude.{
  Bool, List, Option, [], any, count_rows, drop, false, filter, find_row, if◌then◌else◌, is_some,
  leb, ltb, map, none, not, order_by, some, take, true, update_rows, ℕ, ◌&&◌, ◌++◌, ◌+◌, ◌==◌, ◌∷◌,
}
use meshcore_bbs.Text.{Text, str_eq}

-- The rows that the owner of a mailbox sees.
abbrev pub in_inbox : Text → Mail → Bool
in_inbox to_pk m = str_eq m.to_pubkey to_pk && not m.deleted

abbrev pub is_unread : Mail → Bool
is_unread m = not (is_some m.read_at)

-- A row as the INSERT makes it.
abbrev pub new_mail : ℕ → Text → Text → Text → ℕ → Mail
new_mail id from_pk to_pk body now = record {
  id = id;
  from_pubkey = from_pk;
  to_pubkey = to_pk;
  body = body;
  sent_at = now;
  read_at = none;
  deleted = false;
}

-- The id of the new mail. Sender and recipient are FOREIGN KEYs.
unfoldable pub add_mail : Db → Text → Text → Text → ℕ → Result (Db × ℕ)
add_mail db from_pk to_pk body now =
    if any (has_pubkey from_pk) db.users && any (has_pubkey to_pk) db.users
    then ok (
      record db {
        mail = db.mail ++ new_mail db.next_mail from_pk to_pk body now ∷ [];
        next_mail = db.next_mail + 1;
      },
      db.next_mail,
    )
    else err integrity_error

-- `ORDER BY (read_at IS NOT NULL) ASC, sent_at DESC`.
abbrev pub inbox_before : Mail → Mail → Bool
inbox_before a b =
    if is_unread a
    then (if is_unread b then leb b.sent_at a.sent_at else true)
    else if is_unread b
    then false
    else leb b.sent_at a.sent_at

unfoldable pub inbox : Db → Text → List Mail
inbox db to_pk = order_by inbox_before (filter (in_inbox to_pk) db.mail)

unfoldable pub list_mail : Db → Text → ℕ → ℕ → Result (List Mail)
unfolding inbox
list_mail db to_pk limit offset = sql_int offset (ok (take limit (drop offset (inbox db to_pk))))

abbrev pub is_mail : ℕ → Text → Mail → Bool
is_mail mail_id viewer_pk m = m.id == mail_id && str_eq m.to_pubkey viewer_pk

unfoldable pub get_mail : Db → ℕ → Text → Result (Option Mail)
get_mail db mail_id viewer_pk =
    sql_int mail_id (ok (find_row (λ m. is_mail mail_id viewer_pk m && not m.deleted) db.mail))

-- The callers have read the mail by its id, so the id is in SQLite's range.
unfoldable pub mark_mail_read : Db → ℕ → ℕ → Db
mark_mail_read db mail_id now = record db {
  mail =
      update_rows (λ m. m.id == mail_id && is_unread m) (λ m. record m { read_at = some now })
        db.mail;
}

-- Whether a row was updated; it is so for a mail that is deleted already too.
unfoldable pub delete_mail : Db → ℕ → Text → Result (Db × Bool)
delete_mail db mail_id viewer_pk = sql_int mail_id (
    ok (
      record db {
        mail = update_rows (is_mail mail_id viewer_pk) (λ m. record m { deleted = true }) db.mail;
      },
      any (is_mail mail_id viewer_pk) db.mail,
    ))

unfoldable pub count_unread : Db → Text → ℕ
count_unread db to_pk =
    count_rows (λ m. str_eq m.to_pubkey to_pk && is_unread m && not m.deleted) db.mail

unfoldable pub count_total_mail : Db → Text → ℕ
count_total_mail db to_pk = count_rows (in_inbox to_pk) db.mail

-- `SELECT DISTINCT`: the first of equal texts stays.
abbrev distinct_from : List Text → List Text → List Text
distinct_from seen [] = []
distinct_from seen (t ∷ ts) =
    let rest = distinct_from (t ∷ seen) ts in
    let same = distinct_from seen ts in if any (str_eq t) seen then same else t ∷ rest

unfoldable pub users_with_unread_mail : Db → List Text
users_with_unread_mail db =
    distinct_from [] (map (λ m. m.to_pubkey) (filter (λ m. is_unread m && not m.deleted) db.mail))

abbrev read_before : ℕ → Mail → Bool
read_before before_ts m = elim m.read_at [ none ↦ false | some t ↦ ltb t before_ts ]

unfoldable pub purge_old_read_mail : Db → ℕ → Db × ℕ
purge_old_read_mail db before_ts = (
  record db { mail = filter (λ m. not (read_before before_ts m)) db.mail },
  count_rows (read_before before_ts) db.mail,
)
