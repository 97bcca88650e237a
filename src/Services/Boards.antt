-- ===== src/Services/Boards.antt =====
-- services/boards.py: the public message boards.
use meshcore_bbs.Db.{Db, Result, err, ok}
use meshcore_bbs.Db.Boards.{add_board, add_post, delete_board, get_board, list_boards, list_posts}
use meshcore_bbs.Db.Users.{get_user}
use meshcore_bbs.Format.{truncate}
use meshcore_bbs.Models.{Board, BoardPost}
use meshcore_bbs.Prelude.{
  Bool, List, [], all, filter, if◌then◌else◌, leb, length, ltb, map, none, not, null, some, ℕ, ◌&&◌,
  ◌*◌, ◌++◌, ◌+◌, ◌-◌, ◌==◌, ◌||◌, ◌∷◌,
}
use meshcore_bbs.Services.{shown_name}
use meshcore_bbs.Text.{Text, Unicode, ascii_digit, join, lit, lower, strip}
use meshcore_bbs.Text.Decimal.{str}

abbrev pub posts_per_page : ℕ
posts_per_page = 5

abbrev slug_char : ℕ → Bool
slug_char c = (leb 97 c && leb c 122) || ascii_digit c || c == b'_' || c == b'-'

abbrev without_final_newline : Text → Text
without_final_newline [] = []
without_final_newline (c ∷ []) = if c == 10 then [] else c ∷ []
without_final_newline (c ∷ d ∷ s) = c ∷ without_final_newline (d ∷ s)

-- `SLUG_PATTERN.match`, whose `$` matches before a final newline too.
unfoldable pub slug_matches : Text → Bool
slug_matches slug =
    let s = without_final_newline slug in not (null s) && leb (length s) 16 && all slug_char s

unfoldable pub strip_control_chars : Text → Text
strip_control_chars s = filter (λ c. c == 10 || c == 9 || leb 0x20 c) s

abbrev not_found : Text → Text
not_found slug = lit "! Board \"" ++ (slug ++ lit "\" not found. Try: BOARDS")

abbrev board_line : Board → Text
board_line b =
    if null b.description then b.slug else b.slug ++ (lit ": " ++ truncate b.description 60)

unfoldable pub list_text : Db → Text
list_text db =
    let boards = list_boards db in
    if null boards then lit "No boards yet." else join (lit "\n") (map board_line boards)

abbrev render_post : Db → BoardPost → Text
render_post db p =
    lit "["
    ++ (str p.id
        ++ (lit "] "
            ++ (shown_name (get_user db p.author_pubkey) p.author_pubkey
                ++ (lit ": " ++ truncate p.body 120))))

abbrev render_page : Db → Text → ℕ → List BoardPost → Text
render_page db slug page posts =
    if null posts
    then (if page == 1 then slug ++ lit ": no posts." else slug ++ lit ": no more posts.")
    else join (lit "\n") (map (render_post db) posts)
      ++ (if length posts == posts_per_page
          then lit "\n[more: READ " ++ (slug ++ (lit " " ++ (str (page + 1) ++ lit "]")))
          else [])

module _ (u : Unicode) where
  unfoldable pub read_text : Db → Text → ℕ → Result Text
  read_text db slug page = elim (get_board u db (lower u slug)) [
    | none ↦ ok (not_found (lower u slug))
    | some board ↦
        elim (list_posts u db (lower u slug) posts_per_page ((page - 1) * posts_per_page)) [
          | err e ↦ err e
          | ok posts ↦ ok (render_page db (lower u slug) page posts)
        ]
  ]

  abbrev put_post : Db → ℕ → Text → Text → Text → Result (Db × Text)
  put_post db now slug author body = elim (add_post u db slug author body now) [
    | err e ↦ err e
    | ok (posted, post_id) ↦ ok (posted, lit "OK [id=" ++ (str post_id ++ lit "]"))
  ]

  -- `max_chars` is the service's `max_body_chars`.
  unfoldable pub post : ℕ → Db → ℕ → Text → Text → Text → Result (Db × Text)
  post max_chars db now slug author body =
      if not (slug_matches (lower u slug))
      then ok (db, lit "! Bad board name.")
      else elim (get_board u db (lower u slug)) [
        | none ↦ ok (db, not_found (lower u slug))
        | some board ↦
            if null (strip body)
            then ok (db, lit "! Empty post.")
            else if ltb max_chars (length (strip body))
            then ok (db, lit "! Too long, max " ++ (str max_chars ++ lit " chars"))
            else put_post db now (lower u slug) author (strip_control_chars (strip body))
      ]

  unfoldable pub add_board_text : Db → ℕ → Text → Text → Result (Db × Text)
  add_board_text db now slug description =
      if not (slug_matches (lower u slug))
      then ok (db, lit "! Bad board name. Use [a-z0-9_-], 1-16 chars.")
      else elim (get_board u db (lower u slug)) [
        | some board ↦ ok (db, lit "! Board \"" ++ (lower u slug ++ lit "\" exists."))
        | none ↦ elim (add_board u db (lower u slug) (strip description) now) [
          | err e ↦ err e
          | ok added ↦ ok (added, lit "OK [board=" ++ (lower u slug ++ lit "]"))
        ]
      ]

  unfoldable pub delete_board_text : Db → Text → Db × Text
  delete_board_text db slug = elim (get_board u db (lower u slug)) [
    | none ↦ (db, lit "! Board \"" ++ (lower u slug ++ lit "\" not found."))
    | some board ↦
        (delete_board u db (lower u slug), lit "OK [board=" ++ (lower u slug ++ lit " deleted]"))
  ]
