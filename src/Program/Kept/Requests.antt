-- ===== src/Program/Kept/Requests.antt =====
-- The requests to the dashboard.
use meshcore_bbs.Dashboard.{Body, member, not_json, not_object, object}
use meshcore_bbs.Dashboard.BoardActions.{
  answer_added, answer_posted, api_advert, api_board_posts_create, api_board_posts_delete,
  api_boards_create, api_boards_delete, create_post, delete_on_board,
}
use meshcore_bbs.Dashboard.QueueActions.{
  Action, act, move_back, pause_user, queue_action_response, remove,
}
use meshcore_bbs.Dashboard.QueueView.{Looked, Paths, look_up, queue_items}
use meshcore_bbs.Db.{Db, Result, err, ok}
use meshcore_bbs.Db.Audit.{audit}
use meshcore_bbs.Dispatcher.{Bbs, Setting, with_db}
use meshcore_bbs.Dispatcher.Closed.{
  Keeps, KeepsDb, then-Keeps, then_unchanged, unchanged, unmoved, with_db-Keeps,
}
use meshcore_bbs.Dispatcher.Closed.Admins.{add_board_text-KeepsDb, delete_board_text-KeepsDb}
use meshcore_bbs.Dispatcher.Closed.Services.{post-KeepsDb}
use meshcore_bbs.Models.{OutboundMessage}
use meshcore_bbs.Prelude.{List, Option, [], arith, none, refl, some, ℕ, ◌+◌, ◌∷◌, ◌≡◌}
use meshcore_bbs.Program.Kept.{Every}
use meshcore_bbs.Services.Boards.{add_board_text, post}
use meshcore_bbs.Text.{Text, lit, lower, strip}
use meshcore_bbs.Text.Integers.{negsuc, pos, ℤ}

module _ (P : Bbs → Type 0) (e : Setting) (k : Every e.unicode P) where
  audited :
      (db : Db) (now : ℕ) (actor : Option Text) (action detail : Text)
      → KeepsDb P db (audit db now actor action detail)
  audited = k.operations.audit_kept

  act-KeepsDb :
      (now : ℕ) (action : Action) (id : ℤ) (db : Db) → KeepsDb P db (act now action id db).0
  unfolding act
  act-KeepsDb now action (negsuc n) db = unchanged db
  act-KeepsDb now remove (pos msg_id) db =
      grind (arith, unchanged, then_unchanged, audited, k.background.cancel_kept)
  act-KeepsDb now move_back (pos msg_id) db =
      grind (arith, unchanged, then_unchanged, audited, k.background.move_kept)
  act-KeepsDb now pause_user (pos msg_id) db =
      grind (arith, unchanged, then_unchanged, audited, k.background.pause_kept)

  pub queue_action_response-KeepsDb :
      (now : ℕ) (action : Action) (raw : Text) (db : Db)
      → KeepsDb P db (queue_action_response e.unicode now action raw db).0
  unfolding queue_action_response
  queue_action_response-KeepsDb now action raw db = grind (arith, unchanged, act-KeepsDb)

  pub queue_items-KeepsDb :
      (paths : Paths) (now : ℕ) (messages : List OutboundMessage) (cache : List (Text × Looked))
      (db : Db)
      → KeepsDb P db (queue_items paths now messages cache db).0
  unfolding queue_items
  queue_items-KeepsDb paths now [] cache db = unchanged db
  queue_items-KeepsDb paths now (m ∷ messages) cache db =
      let (looked, l) = look_up paths now m.to_pubkey db in
      let same = queue_items-KeepsDb paths now messages cache db in
      let rest =
        then_unchanged (k.background.get_pause_kept db now m.to_pubkey)
          (queue_items-KeepsDb paths now messages ((m.to_pubkey, l) ∷ cache) looked) in
      grind (arith, same, rest)

  added_kept :
      (now : ℕ) (db : Db) (slug description : Text) (after : Db × Text)
      → add_board_text e.unicode db now slug description ≡ ok after
      → KeepsDb P db after.0
  added_kept now = add_board_text-KeepsDb P e now k.operations k.admin

  posted_kept :
      (max_chars now : ℕ) (db : Db) (slug author body : Text) (after : Db × Text)
      → post e.unicode max_chars db now slug author body ≡ ok after
      → KeepsDb P db after.0
  posted_kept max_chars now db = post-KeepsDb P e.unicode k.operations max_chars db now

  answer_added-KeepsDb :
      (now : ℕ) (slug : Text) (said : Result (Db × Text)) (db : Db)
      → ((after : Db × Text) → said ≡ ok after → KeepsDb P db after.0)
      → KeepsDb P db (answer_added e.unicode now slug said db).0
  answer_added-KeepsDb now slug (err error) db h = unchanged db
  answer_added-KeepsDb now slug (ok (added, text)) db h =
      let kept = h (added, text) refl in grind (arith, then_unchanged, audited, kept)

  pub api_boards_create-KeepsDb :
      (now : ℕ) (body : Body) (db : Db) → KeepsDb P db (api_boards_create e.unicode now body db).0
  unfolding api_boards_create
  api_boards_create-KeepsDb now not_json db = unchanged db
  api_boards_create-KeepsDb now not_object db = unchanged db
  api_boards_create-KeepsDb now (object members) db =
      let slug = strip (member members (lit "slug")) in
      let added =
        answer_added-KeepsDb now slug _ db
          (added_kept now db slug (member members (lit "description"))) in
      grind (arith, unchanged, added)

  pub api_boards_delete-KeepsDb :
      (now : ℕ) (slug : Text) (db : Db) → KeepsDb P db (api_boards_delete e.unicode now slug db).0
  unfolding api_boards_delete
  api_boards_delete-KeepsDb now slug db =
      let deleted =
        delete_board_text-KeepsDb P e now k.operations k.admin db (lower e.unicode slug) in
      grind (arith, unchanged, then_unchanged, audited, deleted)

  answer_posted-KeepsDb :
      (now : ℕ) (slug author : Text) (said : Result (Db × Text)) (db : Db)
      → ((after : Db × Text) → said ≡ ok after → KeepsDb P db after.0)
      → KeepsDb P db (answer_posted e.unicode now slug author said db).0
  answer_posted-KeepsDb now slug author (err error) db h = unchanged db
  answer_posted-KeepsDb now slug author (ok (posted, text)) db h =
      let kept = h (posted, text) refl in grind (arith, then_unchanged, audited, kept)

  create_post-KeepsDb :
      (now max_chars : ℕ) (slug author body : Text) (db : Db)
      → KeepsDb P db (create_post e.unicode now max_chars slug author body db).0
  unfolding create_post
  create_post-KeepsDb now max_chars slug author body db =
      answer_posted-KeepsDb now slug author _ db (posted_kept max_chars now db slug author body)

  pub api_board_posts_create-KeepsDb :
      (now max_chars : ℕ) (slug : Text) (body : Body) (db : Db)
      → KeepsDb P db (api_board_posts_create e.unicode now max_chars slug body db).0
  unfolding api_board_posts_create
  api_board_posts_create-KeepsDb now max_chars slug not_json db = unchanged db
  api_board_posts_create-KeepsDb now max_chars slug not_object db = unchanged db
  api_board_posts_create-KeepsDb now max_chars slug (object members) db =
      grind (arith, unchanged, create_post-KeepsDb)

  delete_on_board-KeepsDb :
      (now : ℕ) (slug : Text) (id : ℤ) (db : Db)
      → KeepsDb P db (delete_on_board e.unicode now slug id db).0
  unfolding delete_on_board
  delete_on_board-KeepsDb now slug (negsuc n) db = unchanged db
  delete_on_board-KeepsDb now slug (pos post_id) db =
      grind (arith, unchanged, then_unchanged, audited, k.background.delete_post_kept)

  pub api_board_posts_delete-KeepsDb :
      (now : ℕ) (slug raw : Text) (db : Db)
      → KeepsDb P db (api_board_posts_delete e.unicode now slug raw db).0
  unfolding api_board_posts_delete
  api_board_posts_delete-KeepsDb now slug raw db = grind (arith, unchanged, delete_on_board-KeepsDb)

  pub api_advert-Keeps :
      (now : ℕ) (problem : Option Text) (bbs : Bbs) → Keeps P bbs (api_advert now problem bbs).0
  unfolding api_advert
  api_advert-Keeps now (some problem) bbs = unmoved bbs
  api_advert-Keeps now none bbs =
      let noted = audit bbs.db now none (lit "advert") (lit "source=dashboard flood=1") in
      then-Keeps bbs (with_db noted bbs) _
        (with_db-Keeps noted bbs
          (audited bbs.db now none (lit "advert") (lit "source=dashboard flood=1")))
        (k.admin.adverts_kept (with_db noted bbs) (bbs.adverts + 1))
