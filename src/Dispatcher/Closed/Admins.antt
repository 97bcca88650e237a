-- ===== src/Dispatcher/Closed/Admins.antt =====
-- The administrators' commands.
use meshcore_bbs.Commands.{ParsedCommand}
use meshcore_bbs.Db.{Db, ok}
use meshcore_bbs.Db.Audit.{audit}
use meshcore_bbs.Dispatcher.{
  Bbs, Setting, enqueue, priority_notification, reply, reply_written, with_db,
}
use meshcore_bbs.Dispatcher.Admins.{
  admin_ban, admin_board_add, admin_board_del, admin_broadcast, admin_unban, broadcast, confirm,
  handle_admin, handle_advert, reply_text, stage,
}
use meshcore_bbs.Dispatcher.Closed.{
  AdminOperations, Keeps, KeepsDb, Operations, then-Keeps, then_unchanged, unchanged, unmoved,
  with_db-Keeps,
}
use meshcore_bbs.Dispatcher.Closed.Handlers.{Powers}
use meshcore_bbs.Dispatcher.Closed.Ordinary.{reply-Keeps, reply_written-Keeps}
use meshcore_bbs.Dispatcher.Closed.Services.{enqueue-Keeps}
use meshcore_bbs.Prelude.{List, Option, [], arith, none, some, ℕ, ◌+◌, ◌∷◌, ◌≡◌}
use meshcore_bbs.Services.Admin.{PendingBroadcast, ban, confirm_broadcast, stage_broadcast, unban}
use meshcore_bbs.Services.Boards.{add_board_text, delete_board_text}
use meshcore_bbs.Text.{Text, lit}

module _ (P : Bbs → Type 0) (e : Setting) (now : ℕ) (o : Operations e.unicode P)
    (ad : AdminOperations e.unicode P) where
  enqueue_kept :
      (pk text : Text) (priority : ℕ) (trigger : Option Text) (bbs : Bbs)
      → Keeps P bbs (enqueue e now pk text priority trigger bbs)
  enqueue_kept = enqueue-Keeps P e.unicode o e now

  replied :
      (db : Db) (pk text : Text) (trigger : Option Text) (bbs : Bbs)
      → KeepsDb P bbs.db db
      → Keeps P bbs (reply e now pk trigger text (with_db db bbs)).0
  replied = reply-Keeps P e now o

  audited :
      (db : Db) (actor : Option Text) (action detail : Text)
      → KeepsDb P db (audit db now actor action detail)
  audited db = o.audit_kept db now

  ban-KeepsDb :
      (db : Db) (actor prefix' reason : Text)
      → KeepsDb P db (ban e.unicode db now actor prefix' reason).0
  unfolding ban
  ban-KeepsDb db actor prefix' reason =
      grind (arith, unchanged, then_unchanged, audited, ad.set_banned_kept)

  unban-KeepsDb :
      (db : Db) (actor prefix' : Text) → KeepsDb P db (unban e.unicode db now actor prefix').0
  unfolding unban
  unban-KeepsDb db actor prefix' =
      grind (arith, unchanged, then_unchanged, audited, ad.set_banned_kept)

  pub add_board_text-KeepsDb :
      (db : Db) (slug description : Text) (after : Db × Text)
      → add_board_text e.unicode db now slug description ≡ ok after
      → KeepsDb P db after.0
  unfolding add_board_text
  add_board_text-KeepsDb db slug description after h = grind (arith, unchanged, ad.add_board_kept)

  pub delete_board_text-KeepsDb :
      (db : Db) (slug : Text) → KeepsDb P db (delete_board_text e.unicode db slug).0
  unfolding delete_board_text
  delete_board_text-KeepsDb db slug = grind (arith, unchanged, ad.delete_board_kept)

  confirm_broadcast-KeepsDb :
      (db : Db) (staged : List (Text × PendingBroadcast)) (actor : Text)
      → KeepsDb P db (confirm_broadcast db staged now actor).0
  unfolding confirm_broadcast
  confirm_broadcast-KeepsDb db staged actor = grind (arith, unchanged, audited)

  broadcast-Keeps :
      (pk body : Text) (recipients : List Text) (bbs : Bbs)
      → Keeps P bbs (broadcast e now pk body recipients bbs)
  unfolding broadcast
  broadcast-Keeps pk body [] bbs = unmoved bbs
  broadcast-Keeps pk body (r ∷ recipients) bbs =
      let next = enqueue e now r body priority_notification none bbs in
      let same = broadcast-Keeps pk body recipients bbs in
      let rest =
        then-Keeps bbs next _ (enqueue_kept r body priority_notification none bbs)
          (broadcast-Keeps pk body recipients next) in
      grind (arith, same, rest)

  staged_reply :
      (db : Db) (staged : List (Text × PendingBroadcast)) (pk text : Text) (trigger : Option Text)
      (bbs : Bbs)
      → KeepsDb P bbs.db db
      → Keeps P bbs (reply e now pk trigger text (record bbs { db = db; staged = staged })).0
  staged_reply db staged pk text trigger bbs h =
      then-Keeps bbs (with_db db bbs) _ (with_db-Keeps db bbs h) (
        then-Keeps (with_db db bbs) (record (with_db db bbs) { staged = staged }) _
          (ad.staged_kept (with_db db bbs) staged) (enqueue_kept pk text _ trigger _))

  confirm-Keeps : (verb pk : Text) (bbs : Bbs) → Keeps P bbs (confirm e now verb pk bbs).0
  confirm-Keeps verb pk bbs =
      let c = confirm_broadcast bbs.db bbs.staged now pk in
      then-Keeps bbs _ _
        (staged_reply c.0 c.1 pk c.2.status (some verb) bbs
          (confirm_broadcast-KeepsDb bbs.db bbs.staged pk))
        (broadcast-Keeps pk c.2.body c.2.recipients _)

  stage-Keeps : (verb pk text : Text) (bbs : Bbs) → Keeps P bbs (stage e now verb pk text bbs).0
  stage-Keeps verb pk [] bbs = enqueue_kept pk _ _ _ bbs
  stage-Keeps verb pk (c ∷ s) bbs =
      staged_reply bbs.db (stage_broadcast bbs.staged now pk (c ∷ s)).0 pk _ (some verb) bbs
        (unchanged bbs.db)

  admin_broadcast-Keeps :
      (verb pk : Text) (parsed : ParsedCommand) (bbs : Bbs)
      → Keeps P bbs (admin_broadcast e now verb pk parsed bbs).0
  admin_broadcast-Keeps verb pk parsed bbs = grind (arith, confirm-Keeps, stage-Keeps)

  reply_text-Keeps :
      (verb pk : Text) (db : Db) (text : Text) (bbs : Bbs)
      → KeepsDb P bbs.db db
      → Keeps P bbs (reply_text e now verb pk (db, text) bbs).0
  reply_text-Keeps verb pk db text bbs h = replied db pk text (some verb) bbs h

  admin_ban-Keeps :
      (verb pk : Text) (parsed : ParsedCommand) (bbs : Bbs)
      → Keeps P bbs (admin_ban e now verb pk parsed bbs).0
  admin_ban-Keeps verb pk parsed bbs = grind (arith, enqueue_kept, replied, ban-KeepsDb)

  admin_unban-Keeps :
      (verb pk : Text) (parsed : ParsedCommand) (bbs : Bbs)
      → Keeps P bbs (admin_unban e now verb pk parsed bbs).0
  admin_unban-Keeps verb pk parsed bbs = grind (arith, enqueue_kept, replied, unban-KeepsDb)

  added_written :
      (pk slug description : Text) (trigger : Option Text) (bbs : Bbs)
      → Keeps P bbs
          (reply_written e now pk trigger
            (add_board_text e.unicode bbs.db now slug description)
            bbs).0
  added_written pk slug description trigger bbs =
      reply_written-Keeps P e now o pk trigger _ bbs
        (add_board_text-KeepsDb bbs.db slug description)

  admin_board_add-Keeps :
      (verb pk : Text) (parsed : ParsedCommand) (bbs : Bbs)
      → Keeps P bbs (admin_board_add e now verb pk parsed bbs).0
  admin_board_add-Keeps verb pk parsed bbs = grind (arith, enqueue_kept, added_written)

  admin_board_del-Keeps :
      (verb pk : Text) (parsed : ParsedCommand) (bbs : Bbs)
      → Keeps P bbs (admin_board_del e now verb pk parsed bbs).0
  admin_board_del-Keeps verb pk parsed bbs =
      grind (arith, enqueue_kept, replied, delete_board_text-KeepsDb)

  handle_admin-Keeps :
      (verb pk : Text) (parsed : ParsedCommand) (bbs : Bbs)
      → Keeps P bbs (handle_admin e now verb pk parsed bbs).0
  unfolding handle_admin
  handle_admin-Keeps verb pk parsed bbs = grind (
    arith, enqueue_kept, admin_ban-Keeps, admin_unban-Keeps, admin_board_add-Keeps,
    admin_board_del-Keeps, admin_broadcast-Keeps,
  )

  handle_advert-Keeps :
      (verb pk : Text) (bbs : Bbs) → Keeps P bbs (handle_advert e now verb pk bbs).0
  unfolding handle_advert
  handle_advert-Keeps verb pk bbs =
      let noted = audit bbs.db now (some pk) (lit "advert") (lit "flood=1") in
      let advertised =
        then-Keeps bbs (with_db noted bbs) _
          (with_db-Keeps noted bbs (audited bbs.db (some pk) (lit "advert") (lit "flood=1")))
          (ad.adverts_kept (with_db noted bbs) (bbs.adverts + 1)) in
      grind (arith, then-Keeps, advertised, enqueue_kept)

  -- With the operations of the administrators too, the property outlives every command of theirs.
  pub all_powers : Powers P e now (λ pk. Unit)
  all_powers = record {
    advert_kept = λ verb pk bbs h. handle_advert-Keeps verb pk bbs;
    admin_kept = λ verb pk parsed bbs h. handle_admin-Keeps verb pk parsed bbs;
  }
