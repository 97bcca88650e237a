-- ===== src/Db/Boards.antt =====
-- The section `boards` of db.py.
use meshcore_bbs.Db.{Db, Result, err, integrity_error, ok, sql_int}
use meshcore_bbs.Db.Users.{has_pubkey, text_le}
use meshcore_bbs.Models.{Board, BoardPost}
use meshcore_bbs.Prelude.{
  Bool, List, Option, [], any, drop, false, filter, find_row, if◌then◌else◌, leb, not, order_by,
  take, true, update_rows, ℕ, ◌&&◌, ◌++◌, ◌+◌, ◌==◌, ◌∷◌,
}
use meshcore_bbs.Text.{Text, Unicode, lower, str_eq}

-- `ORDER BY slug`.
unfoldable pub list_boards : Db → List Board
unfolding text_le
list_boards db = order_by (λ a b. text_le a.slug b.slug) db.boards

module _ (u : Unicode) where
  unfoldable pub get_board : Db → Text → Option Board
  get_board db slug = find_row (λ b. str_eq b.slug (lower u slug)) db.boards

  -- The slug is the PRIMARY KEY.
  unfoldable pub add_board : Db → Text → Text → ℕ → Result Db
  add_board db slug description now =
      if any (λ b. str_eq b.slug (lower u slug)) db.boards
      then err integrity_error
      else ok (record db {
        boards =
            db.boards
            ++ record { slug = lower u slug; description = description; created_at = now } ∷ [];
      })

  unfoldable pub delete_board : Db → Text → Db
  delete_board db slug = record db {
    board_posts = filter (λ p. not (str_eq p.board_slug (lower u slug))) db.board_posts;
    boards = filter (λ b. not (str_eq b.slug (lower u slug))) db.boards;
  }

  -- The id of the new post. The board and the author are FOREIGN KEYs.
  unfoldable pub add_post : Db → Text → Text → Text → ℕ → Result (Db × ℕ)
  add_post db slug author body now =
      if any (λ b. str_eq b.slug (lower u slug)) db.boards && any (has_pubkey author) db.users
      then ok (
        record db {
          board_posts =
              db.board_posts
              ++ record {
                id = db.next_post;
                board_slug = lower u slug;
                author_pubkey = author;
                body = body;
                ts = now;
                deleted = false;
              }
                ∷ [];
          next_post = db.next_post + 1;
        },
        db.next_post,
      )
      else err integrity_error

  -- `ORDER BY ts DESC LIMIT ? OFFSET ?`.
  unfoldable pub list_posts : Db → Text → ℕ → ℕ → Result (List BoardPost)
  list_posts db slug limit offset = sql_int offset (
      ok (
        take limit (
          drop offset (
            order_by (λ a b. leb b.ts a.ts)
              (filter (λ p. str_eq p.board_slug (lower u slug) && not p.deleted) db.board_posts)))))

unfoldable pub get_post : Db → ℕ → Option BoardPost
get_post db post_id = find_row (λ p. p.id == post_id) db.board_posts

-- Whether a row was updated.
unfoldable pub delete_post : Db → ℕ → Db × Bool
delete_post db post_id = (
  record db {
    board_posts =
        update_rows (λ p. p.id == post_id && not p.deleted) (λ p. record p { deleted = true })
          db.board_posts;
  },
  any (λ p. p.id == post_id && not p.deleted) db.board_posts,
)
