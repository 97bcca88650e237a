-- ===== src/Tests/People.antt =====
-- Messages of named, of banned and of new users.
use mathlib.Core.Option
use meshcore_bbs.Commands.{ParsedCommand}
use meshcore_bbs.Config.{make_services}
use meshcore_bbs.Db.{Db}
use meshcore_bbs.Db.Mails.{
  add_mail, count_unread, delete_mail, get_mail, inbox, mark_mail_read, new_mail,
}
use meshcore_bbs.Db.Users.{get_user, get_user_by_name, upsert_user_first_seen}
use meshcore_bbs.Dispatcher.{Bbs, Setting}
use meshcore_bbs.Dispatcher.Gates.{handle_inbound_ordinary}
use meshcore_bbs.Dispatcher.Inbound.{handle_inbound}
use meshcore_bbs.Dispatcher.Newcomers.{handle_inbound_newcomer}
use meshcore_bbs.Dispatcher.Rights.{bans}
use meshcore_bbs.Models.{Mail}
use meshcore_bbs.Onboarding.{try_set_name}
use meshcore_bbs.Onboarding.Distinct.{
  AreDistinct, try_set_name-AreDistinct, upsert_user_first_seen-AreDistinct,
}
use meshcore_bbs.Prelude.{
  All, In, List, [], false, filter, if◌then◌else◌, inl, inr, leb, none, not, refl, some, true, ◌++◌,
  ◌+◌, ◌==◌, ◌↔◌, ◌∷◌, ◌≡◌, ◌≤◌, ◌⊎◌,
}
use meshcore_bbs.Services.{shown_name, text_or}
use meshcore_bbs.Services.Admin.{
  PendingBroadcast, confirm_broadcast, find_pending, is_admin, stage_broadcast,
}
use meshcore_bbs.Services.Admin.Broadcast.{
  HasUnbanned, confirm-stage_broadcast, confirm_broadcast_once,
}
use meshcore_bbs.Services.Mails.{read_mail, resolve_recipient, send}
use meshcore_bbs.Services.Mails.Boxes.{IsShown, count_unread-add_mail, read_mail-IsShown}
use meshcore_bbs.Services.Mails.Deletion.{delete_mail-inbox}
use meshcore_bbs.Services.Mails.Naming.{resolve_recipient_holder}
use meshcore_bbs.Services.Mails.Recipients.{IsRecipient, resolve_recipient-IsRecipient}
use meshcore_bbs.Services.Mails.Sending.{send-IsRecipient}
use meshcore_bbs.Tests.{
  alice_key, bob, bob_key, direct_message, plain, some_bbs, some_db, some_setting,
}
use meshcore_bbs.Text.{Text, is_space, lit, lower, lstrip, opt_eq, rstrip, str_eq, strip}
use meshcore_bbs.Text.Decimal.{str}

handle_inbound_ordinary_example :
    let after =
      handle_inbound some_setting 200 (direct_message alice_key (lit "ADMIN BAN bb33")) some_bbs in
    (after.db.boards ≡ some_bbs.db.boards)
    × (after.staged ≡ some_bbs.staged)
    × (after.adverts ≡ some_bbs.adverts)
    × ((bans after.db ≡ bans some_bbs.db)
        ⊎ (bans after.db ≡ bans some_bbs.db ++ (alice_key, false) ∷ []))
unfolding make_services
handle_inbound_ordinary_example =
    handle_inbound_ordinary some_setting 200 (direct_message alice_key (lit "ADMIN BAN bb33"))
      some_bbs (unfold is_admin in refl)

resolve_recipient-IsRecipient_example : IsRecipient some_db bob
resolve_recipient-IsRecipient_example =
    resolve_recipient-IsRecipient plain some_db (lit "BOB") bob
      (unfold resolve_recipient get_user_by_name lower str_eq opt_eq in refl)

abbrev letter : Mail
letter = new_mail 7 bob_key alice_key (lit "hi") 150

abbrev mailed : Db
mailed = record some_db { mail = letter ∷ []; next_mail = 8 }

read_mail-IsShown_example :
    ((mark_mail_read mailed 7 200 ≡ mailed) × (lit "From Bob:\nhi" ≡ lit "! Mail not found."))
    ⊎ ((m : Mail) × IsShown mailed alice_key 7 m
        × (lit "From Bob:\nhi"
            ≡ lit "From "
              ++ (shown_name (get_user mailed m.from_pubkey) m.from_pubkey
                  ++ (lit ":\n" ++ m.body)))
        × (mark_mail_read mailed 7 200 ≡ mark_mail_read mailed 7 200))
read_mail-IsShown_example =
    read_mail-IsShown mailed 200 alice_key 7 (mark_mail_read mailed 7 200) (lit "From Bob:\nhi")
      (unfold read_mail get_mail get_user shown_name text_or str_eq in refl)

abbrev sent_on : Db
sent_on = record mailed {
  mail = letter ∷ new_mail 8 alice_key bob_key (lit "yo") 160 ∷ [];
  next_mail = 9;
}

count_unread-add_mail_example :
    count_unread sent_on bob_key
    ≡ count_unread mailed bob_key + (if str_eq bob_key bob_key then 1 else 0)
count_unread-add_mail_example =
    count_unread-add_mail mailed sent_on alice_key bob_key (lit "yo") 160 8 bob_key
      (unfold add_mail str_eq in refl)

confirm-stage_broadcast_example :
    let c =
      (confirm_broadcast some_db
        (stage_broadcast [] 100 alice_key (lit "storm")).0
        150
        alice_key).2 in
    (In bob_key c.recipients ↔ ((150 ≤ 100 + 120) × HasUnbanned bob_key some_db.users))
    × (c.body ≡ (if leb 150 (100 + 120) then lit "storm" else []))
confirm-stage_broadcast_example =
    confirm-stage_broadcast some_db [] 100 alice_key 150 (lit "storm") bob_key

abbrev one_staged : List (Text × PendingBroadcast)
one_staged = (alice_key, record { text = lit "storm"; created_at = 100 }) ∷ []

confirm_broadcast_once_example :
    find_pending alice_key (confirm_broadcast some_db one_staged 150 alice_key).1 ≡ none
confirm_broadcast_once_example = confirm_broadcast_once some_db one_staged 150 alice_key

handle_inbound_newcomer_example :
    let after =
      handle_inbound some_setting 200 (direct_message (lit "dd77") (lit "POST main hi")) some_bbs in
    (after.db.boards ≡ some_bbs.db.boards)
    × (after.db.board_posts ≡ some_bbs.db.board_posts)
    × (after.db.mail ≡ some_bbs.db.mail)
    × (after.staged ≡ some_bbs.staged)
    × (after.adverts ≡ some_bbs.adverts)
handle_inbound_newcomer_example =
    handle_inbound_newcomer some_setting 200 (direct_message (lit "dd77") (lit "POST main hi"))
      some_bbs (unfold upsert_user_first_seen get_user str_eq in refl)

try_set_name-AreDistinct_example :
    AreDistinct (try_set_name plain some_db 200 alice_key (lit "Ann")).0.users
try_set_name-AreDistinct_example =
    try_set_name-AreDistinct plain some_db 200 alice_key (lit "Ann") (unfold str_eq in refl)
      (unfold str_eq opt_eq in ((refl, (refl, tt)), ((refl, tt), (tt, tt))))

upsert_user_first_seen-AreDistinct_example :
    AreDistinct (upsert_user_first_seen some_db (lit "dd77") none 200).0.users
upsert_user_first_seen-AreDistinct_example =
    upsert_user_first_seen-AreDistinct some_db (lit "dd77") none 200
      (unfold str_eq opt_eq in ((refl, (refl, tt)), ((refl, tt), (tt, tt))))

abbrev emptied : Db
emptied = record mailed { mail = record letter { deleted = true } ∷ [] }

delete_mail-inbox_example :
    All (λ m. (m.id == 7) ≡ false) (inbox emptied alice_key)
    × (filter (λ m. not (str_eq m.to_pubkey alice_key)) emptied.mail
        ≡ filter (λ m. not (str_eq m.to_pubkey alice_key)) mailed.mail)
delete_mail-inbox_example =
    delete_mail-inbox mailed alice_key 7 emptied true (unfold delete_mail str_eq in refl)

resolve_recipient_holder_example : (resolve_recipient plain some_db (lit "BOB")).user ≡ some bob
resolve_recipient_holder_example =
    resolve_recipient_holder plain some_db (lit "BOB") bob
      (unfold str_eq opt_eq in ((refl, (refl, tt)), ((refl, tt), (tt, tt)))) (inr (inl refl))
      (unfold lower in refl) refl refl

send-IsRecipient_example :
    ((resolve_recipient plain mailed (lit "bob")).user ≡ some bob)
    × IsRecipient mailed bob
    × (count_unread sent_on bob_key ≡ count_unread mailed bob_key + 1)
send-IsRecipient_example =
    send-IsRecipient plain 200 mailed 160 alice_key (lit "bob") (lit "yo") sent_on
      (lit "OK [mail=8]") bob
      (unfold send resolve_recipient get_user_by_name add_mail lower str_eq opt_eq strip lstrip
          rstrip is_space str in
        refl)

-- Alice is an administrator, and has staged a broadcast.
abbrev alice_admin : Setting
alice_admin = record some_setting {
  services = record some_setting.services {
    admin = record some_setting.services.admin { admin_pubkeys = alice_key ∷ [] };
  };
}

abbrev staged_bbs : Bbs
staged_bbs = record some_bbs {
  staged = (alice_key, record { text = lit "storm"; created_at = 100 }) ∷ [];
}

abbrev confirmation : ParsedCommand
confirmation = record {
  verb = lit "ADMIN BROADCAST";
  args = lit "CONFIRM" ∷ [];
  rest = lit "CONFIRM";
}
