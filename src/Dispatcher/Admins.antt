-- ===== src/Dispatcher/Admins.antt =====
-- dispatcher.py: the handlers of the administrators' commands.
use meshcore_bbs.Commands.{ParsedCommand}
use meshcore_bbs.Db.{Db}
use meshcore_bbs.Db.Audit.{audit}
use meshcore_bbs.Dispatcher.{
  Bbs, Handled, Setting, enqueue, priority_notification, reply, reply_written, with_db, without_arg,
}
use meshcore_bbs.Prelude.{
  Bool, List, [], false, if◌then◌else◌, none, not, null, some, true, ℕ, ◌+◌, ◌∷◌,
}
use meshcore_bbs.Services.Admin.{ban, confirm_broadcast, is_admin, stage_broadcast, unban}
use meshcore_bbs.Services.Boards.{add_board_text, delete_board_text}
use meshcore_bbs.Text.{Text, join, lit, str_eq, strip, upper}

module _ (e : Setting) (now : ℕ) where
  abbrev unknown_command : Text
  unknown_command = lit "? Unknown command. Try: HELP"

  unfoldable pub handle_advert : Text → Text → Bbs → Handled
  handle_advert verb pk bbs =
      if not (is_admin e.unicode e.services.admin pk)
      then reply e now pk (some verb) unknown_command bbs
      else reply e now pk (some verb) (lit "OK flood advert sent") (record bbs {
        db = audit bbs.db now (some pk) (lit "advert") (lit "flood=1");
        adverts = bbs.adverts + 1;
      })

  -- The loop over the recipients of a broadcast.
  unfoldable pub broadcast : Text → Text → List Text → Bbs → Bbs
  broadcast pk body [] bbs = bbs
  broadcast pk body (r ∷ recipients) bbs = elim (str_eq r pk) [
    | true ↦ broadcast pk body recipients bbs
    | false ↦ broadcast pk body recipients (enqueue e now r body priority_notification none bbs)
  ]

  abbrev pub confirm : Text → Text → Bbs → Handled
  confirm verb pk bbs =
      let (db, staged, c) = confirm_broadcast bbs.db bbs.staged now pk in
      (
        broadcast pk c.body c.recipients
            (reply e now pk (some verb) c.status (record bbs { db = db; staged = staged })).0,
        none,
      )

  abbrev pub stage : Text → Text → Text → Bbs → Handled
  stage verb pk text bbs =
      let (staged, status) = stage_broadcast bbs.staged now pk text in
      if null text
      then reply e now pk (some verb) (lit "! ADMIN BROADCAST <text>") bbs
      else reply e now pk (some verb) status (record bbs { staged = staged })

  abbrev says_confirm : List Text → Bool
  says_confirm [] = false
  says_confirm (a ∷ args) = str_eq (upper e.unicode a) (lit "CONFIRM")

  abbrev pub reply_text : Text → Text → Db × Text → Bbs → Handled
  reply_text verb pk (db, text) bbs = reply e now pk (some verb) text (with_db db bbs)

  abbrev pub admin_ban : Text → Text → ParsedCommand → Bbs → Handled
  admin_ban verb pk parsed bbs = elim parsed.args [
    | [] ↦ reply e now pk (some verb) (lit "! ADMIN BAN <prefix>") bbs
    | target ∷ words ↦
        reply_text verb pk (ban e.unicode bbs.db now pk target (join (lit " ") words)) bbs
  ]

  abbrev pub admin_unban : Text → Text → ParsedCommand → Bbs → Handled
  admin_unban verb pk parsed bbs = elim parsed.args [
    | [] ↦ reply e now pk (some verb) (lit "! ADMIN UNBAN <prefix>") bbs
    | target ∷ words ↦ reply_text verb pk (unban e.unicode bbs.db now pk target) bbs
  ]

  abbrev pub admin_board_add : Text → Text → ParsedCommand → Bbs → Handled
  admin_board_add verb pk parsed bbs = elim parsed.args [
    | [] ↦ reply e now pk (some verb) (lit "! ADMIN BOARD ADD <slug> <desc>") bbs
    | slug ∷ words ↦
        reply_written e now pk (some verb)
          (add_board_text e.unicode bbs.db now slug (without_arg e.unicode slug parsed.rest)) bbs
  ]

  abbrev pub admin_board_del : Text → Text → ParsedCommand → Bbs → Handled
  admin_board_del verb pk parsed bbs = elim parsed.args [
    | [] ↦ reply e now pk (some verb) (lit "! ADMIN BOARD DEL <slug>") bbs
    | slug ∷ words ↦ reply_text verb pk (delete_board_text e.unicode bbs.db slug) bbs
  ]

  abbrev pub admin_broadcast : Text → Text → ParsedCommand → Bbs → Handled
  admin_broadcast verb pk parsed bbs =
      if says_confirm parsed.args
      then confirm verb pk bbs
      else stage verb pk (strip parsed.rest) bbs

  unfoldable pub handle_admin : Text → Text → ParsedCommand → Bbs → Handled
  handle_admin verb pk parsed bbs =
      if not (is_admin e.unicode e.services.admin pk)
      then reply e now pk (some verb) unknown_command bbs
      else if str_eq verb (lit "ADMIN BAN")
      then admin_ban verb pk parsed bbs
      else if str_eq verb (lit "ADMIN UNBAN")
      then admin_unban verb pk parsed bbs
      else if str_eq verb (lit "ADMIN BOARD ADD")
      then admin_board_add verb pk parsed bbs
      else if str_eq verb (lit "ADMIN BOARD DEL")
      then admin_board_del verb pk parsed bbs
      else if str_eq verb (lit "ADMIN BROADCAST")
      then admin_broadcast verb pk parsed bbs
      else reply e now pk (some verb) (lit "! ADMIN BAN|UNBAN|BOARD ADD|BOARD DEL|BROADCAST") bbs
