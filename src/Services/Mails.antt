-- ===== src/Services/Mails.antt =====
-- services/mail.py: mail from user to user.
pub mod Recipients
pub mod Naming
pub mod Sending
pub mod Boxes
pub mod Notices
pub mod Deletion
use meshcore_bbs.Config.{MailConfig}
use meshcore_bbs.Db.{Db, Result, err, ok}
use meshcore_bbs.Db.Mails.{
  add_mail, count_total_mail, count_unread, delete_mail, get_mail, list_mail, mark_mail_read,
  purge_old_read_mail,
}
use meshcore_bbs.Db.Users.{
  find_users_by_name_substring, get_user, get_user_by_name, get_user_by_prefix,
}
use meshcore_bbs.Format.{truncate}
use meshcore_bbs.Models.{Mail, User}
use meshcore_bbs.Prelude.{
  Bool, List, Option, [], all, false, if◌then◌else◌, is_some, leb, length, ltb, map, none, not,
  null, some, take, true, ℕ, ◌&&◌, ◌*◌, ◌++◌, ◌+◌, ◌-◌, ◌==◌, ◌||◌, ◌∷◌,
}
use meshcore_bbs.Services.{shown_name}
use meshcore_bbs.Text.{Text, Unicode, ascii_digit, join, lit, lower, str_eq, strip}
use meshcore_bbs.Text.Decimal.{str}

abbrev pub inbox_page_size : ℕ
inbox_page_size = 5

abbrev pub preview_chars : ℕ
preview_chars = 40

pub record RecipientResolution : Type 0 where
  pub user : Option User
  pub ambiguous_names : List Text

abbrev pub no_recipient : RecipientResolution
no_recipient = record { user = none; ambiguous_names = [] }

abbrev pub the_recipient : User → RecipientResolution
the_recipient user = record { user = some user; ambiguous_names = [] }

abbrev pub may_receive : User → Bool
may_receive user = user.onboarded && not user.banned

-- `[u.display_name for u in partials if u.display_name]`.
abbrev given_names : List User → List Text
given_names [] = []
given_names (user ∷ users) =
    let rest = given_names users in
    elim user.display_name [ none ↦ rest | some name ↦ if null name then rest else name ∷ rest ]

abbrev pub hex_char : ℕ → Bool
hex_char c = ascii_digit c || (leb 97 c && leb c 102)

module _ (u : Unicode) where
  unfoldable pub resolve_by_prefix : Db → Text → RecipientResolution
  resolve_by_prefix db identifier =
      let cleaned = lower u identifier in
      if leb 6 (length cleaned) && all hex_char cleaned
      then elim (get_user_by_prefix u db cleaned) [
        | none ↦ no_recipient
        | some user ↦ if may_receive user then the_recipient user else no_recipient
      ]
      else no_recipient

  unfoldable pub resolve_partial : Db → Text → List User → RecipientResolution
  resolve_partial db identifier [] = resolve_by_prefix db identifier
  resolve_partial db identifier (user ∷ []) = the_recipient user
  resolve_partial db identifier (user ∷ other ∷ users) = record {
    user = none;
    ambiguous_names = given_names (user ∷ other ∷ users);
  }

  abbrev resolve_loosely : Db → Text → RecipientResolution
  resolve_loosely db identifier =
      resolve_partial db identifier (find_users_by_name_substring u db identifier)

  unfoldable pub resolve_recipient : Db → Text → RecipientResolution
  resolve_recipient db identifier =
      if null identifier then no_recipient else elim (get_user_by_name u db identifier) [
        | none ↦ resolve_loosely db identifier
        | some user ↦ if may_receive user then the_recipient user else resolve_loosely db identifier
      ]

  abbrev ambiguous_text : List Text → Text
  ambiguous_text names =
      lit "! Ambiguous: "
      ++ (join (lit ", ") (take 4 names) ++ (if ltb 4 (length names) then lit ", ..." else []))

  abbrev pub put_mail : Db → ℕ → Text → User → Text → Result (Db × Text × Option User)
  put_mail db now from_pk recipient body = elim (add_mail db from_pk recipient.pubkey body now) [
    | err e ↦ err e
    | ok (mailed, mail_id) ↦
        ok (mailed, lit "OK [mail=" ++ (str mail_id ++ lit "]"), some recipient)
  ]

  -- The database, the reply, and the recipient where the mail was stored.
  unfoldable pub send : ℕ → Db → ℕ → Text → Text → Text → Result (Db × Text × Option User)
  send max_chars db now from_pk recipient_id body =
      let resolution = resolve_recipient db recipient_id in
      if not (null resolution.ambiguous_names)
      then ok (db, ambiguous_text resolution.ambiguous_names, none)
      else elim resolution.user [
        | none ↦ ok (db, lit "! No such user.", none)
        | some recipient ↦
            if null (strip body)
            then ok (db, lit "! Empty mail.", none)
            else if ltb max_chars (length (strip body))
            then ok (db, lit "! Too long, max " ++ (str max_chars ++ lit " chars"), none)
            else put_mail db now from_pk recipient (strip body)
      ]

unfoldable pub counts_text : Db → Text → Text
counts_text db viewer_pk =
    lit "Mail: "
    ++ (str (count_unread db viewer_pk)
        ++ (lit " unread, " ++ (str (count_total_mail db viewer_pk) ++ lit " total.")))

abbrev inbox_line : Db → Mail → Text
inbox_line db m =
    (if is_some m.read_at then lit " " else lit "*")
    ++ (lit "["
        ++ (str m.id
            ++ (lit "] "
                ++ (shown_name (get_user db m.from_pubkey) m.from_pubkey
                    ++ (lit ": " ++ truncate m.body preview_chars)))))

unfoldable pub inbox_page : Db → ℕ → List Mail → Text
inbox_page db page mails =
    if null mails
    then (if page == 1 then lit "Inbox empty." else lit "No more mail.")
    else join (lit "\n") (map (inbox_line db) mails)
      ++ (if length mails == inbox_page_size
          then lit "\n[more: INBOX " ++ (str (page + 1) ++ lit "]")
          else [])

unfoldable pub inbox_text : Db → Text → ℕ → Result Text
inbox_text db viewer_pk page =
    elim (list_mail db viewer_pk inbox_page_size ((page - 1) * inbox_page_size)) [
      | err e ↦ err e
      | ok mails ↦ ok (inbox_page db page mails)
    ]

unfoldable pub read_mail : Db → ℕ → Text → ℕ → Result (Db × Text)
read_mail db now viewer_pk mail_id = elim (get_mail db mail_id viewer_pk) [
  | err e ↦ err e
  | ok none ↦ ok (db, lit "! Mail not found.")
  | ok (some m) ↦ ok (
    mark_mail_read db mail_id now,
    lit "From " ++ (shown_name (get_user db m.from_pubkey) m.from_pubkey ++ (lit ":\n" ++ m.body)),
  )
]

unfoldable pub delete_mail_text : Db → Text → ℕ → Result (Db × Text)
delete_mail_text db viewer_pk mail_id = elim (delete_mail db mail_id viewer_pk) [
  | err e ↦ err e
  | ok (kept, found) ↦ ok (
    kept,
    if found then lit "OK [mail=" ++ (str mail_id ++ lit " deleted]") else lit "! Mail not found.",
  )
]

-- `now - last_seen <= threshold`, without the subtraction.
unfoldable pub is_online : MailConfig → ℕ → User → Bool
is_online cfg now user = leb now (user.last_seen + cfg.online_threshold_seconds)

-- `self._last_notify_at.get(pk, 0.0)` and the assignment to it.
unfoldable pub last_notify : Text → List (Text × ℕ) → ℕ
last_notify pk [] = 0
last_notify pk ((k, t) ∷ rest) = if str_eq k pk then t else last_notify pk rest

unfoldable pub put_last_notify : Text → ℕ → List (Text × ℕ) → List (Text × ℕ)
put_last_notify pk t [] = (pk, t) ∷ []
put_last_notify pk t ((k, s) ∷ rest) =
    if str_eq k pk then (k, t) ∷ rest else (k, s) ∷ put_last_notify pk t rest

-- `now - last < interval`, without the subtraction; the clock is read in whole seconds here.
unfoldable pub should_notify : MailConfig → ℕ → List (Text × ℕ) → Text → List (Text × ℕ) × Bool
should_notify cfg now notified pk =
    if ltb now (last_notify pk notified + cfg.notify_min_interval_seconds)
    then (notified, false)
    else (put_last_notify pk now notified, true)

unfoldable pub purge_old_read : MailConfig → Db → ℕ → Db × ℕ
purge_old_read cfg db now =
    if cfg.read_retention_days == 0
    then (db, 0)
    else purge_old_read_mail db (now - cfg.read_retention_days * 86400)
