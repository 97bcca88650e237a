-- ===== src/Dashboard/BoardActions.antt =====
-- The requests that change the boards and the posts, and the manual advert.
use meshcore_bbs.Dashboard.{
  Body, Reply, answered, at_path_id, member, not_json, not_object, object, raised, refused,
}
use meshcore_bbs.Db.{Db, Result, attribute_error, err, ok, value_error}
use meshcore_bbs.Db.Audit.{audit}
use meshcore_bbs.Db.Boards.{delete_post, get_post}
use meshcore_bbs.Db.Users.{get_user}
use meshcore_bbs.Dispatcher.{Bbs}
use meshcore_bbs.Models.{BoardPost}
use meshcore_bbs.Prelude.{
  Bool, Option, [], drop, if◌then◌else◌, length, ltb, none, not, null, some, take, ℕ, ◌&&◌, ◌++◌,
  ◌+◌, ◌==◌, ◌||◌, ◌∷◌,
}
use meshcore_bbs.Services.Boards.{add_board_text, delete_board_text, post}
use meshcore_bbs.Text.{Text, Unicode, lit, lower, starts_with, str_eq, strip}
use meshcore_bbs.Text.Decimal.{str}
use meshcore_bbs.Text.Integers.{int_of_text, negsuc, pos, ℤ}

-- `_boards_error`: the text behind "! ", or none. `reply[2:].strip()` where there is more than "! ".
unfoldable pub boards_error : Text → Option Text
boards_error said =
    if starts_with said (lit "!")
    then some (if ltb 2 (length said) then strip (drop 2 said) else said)
    else none

-- `if err:`, where an empty text counts as none.
abbrev pub error_shown : Text → Option Text
error_shown said = elim (boards_error said) [
  | none ↦ none
  | some [] ↦ none
  | some (c ∷ s) ↦ some (c ∷ s)
]

-- `reply.split("id=", 1)[1]` where "id=" is in the reply.
unfoldable pub behind_id : Text → Option Text
behind_id [] = none
behind_id (c ∷ s) =
    let rest = behind_id s in if starts_with (c ∷ s) (lit "id=") then some (drop 2 s) else rest

-- `rstrip("]")`.
unfoldable pub rstrip_bracket : Text → Text
rstrip_bracket [] = []
rstrip_bracket (c ∷ s) = elim (rstrip_bracket s) [
  | [] ↦ (if c == b']' then [] else c ∷ [])
  | d ∷ t ↦ c ∷ d ∷ t
]

-- `"not found" in err.lower()`.
unfoldable pub contains : Text → Text → Bool
contains [] part = null part
contains (c ∷ s) part = starts_with (c ∷ s) part || contains s part

-- The answer of a request that was done: the slug, and the id of a post.
pub record BoardDone : Type 0 where
  pub slug : Text
  pub id : ℕ

module _ (u : Unicode) (now : ℕ) where
  -- The id that the reply of the service shows, 0 if it shows none.
  unfoldable pub id_of_reply : Text → Result ℕ
  id_of_reply said = elim (behind_id said) [
    | none ↦ ok 0
    | some t ↦ elim (int_of_text u (rstrip_bracket t)) [ some (pos n) ↦ ok n | _ ↦ err value_error ]
  ]

  -- What is done with the answer of `add_board`.
  abbrev pub answer_added : Text → Result (Db × Text) → Db → Db × Reply Text
  answer_added slug (err e) db = (db, raised e)
  answer_added slug (ok (added, said)) db = elim (error_shown said) [
    | some e ↦ (added, refused 400 e)
    | none ↦ (
      audit added now none (lit "board_add")
          (lit "slug=" ++ (lower u slug ++ lit " source=dashboard")),
      answered (lower u slug),
    )
  ]

  unfoldable pub api_boards_create : Body → Db → Db × Reply Text
  api_boards_create not_json db = (db, refused 400 (lit "invalid JSON"))
  api_boards_create not_object db = (db, raised attribute_error)
  api_boards_create (object fields) db =
      let slug = strip (member fields (lit "slug")) in
      if null slug
      then (db, refused 400 (lit "slug required"))
      else answer_added slug (add_board_text u db now slug (member fields (lit "description"))) db

  unfoldable pub api_boards_delete : Text → Db → Db × Reply Text
  api_boards_delete path_slug db =
      let slug = lower u path_slug in
      let (deleted, said) = delete_board_text u db slug in
      if null slug then (db, refused 400 (lit "slug required")) else elim (error_shown said) [
        | some e ↦ (deleted, refused 404 e)
        | none ↦ (
          audit deleted now none (lit "board_del")
              (lit "slug=" ++ (slug ++ lit " source=dashboard")),
          answered slug,
        )
      ]

  -- The end of the method, behind the call of the service.
  abbrev pub answer_posted : Text → Text → Result (Db × Text) → Db → Db × Reply BoardDone
  answer_posted slug author (err e) db = (db, raised e)
  answer_posted slug author (ok (posted, said)) db = elim (error_shown said) [
    | some e ↦ (posted, refused (if contains (lower u e) (lit "not found") then 404 else 400) e)
    | none ↦ elim (id_of_reply said) [
      | err e ↦ (posted, raised e)
      | ok id ↦ (
        audit posted now none (lit "board_post") (
            lit "slug="
            ++ (slug ++ (lit " id=" ++ (str id ++ (lit " author=" ++ take 12 author))))),
        answered (record { slug = slug; id = id }),
      )
    ]
  ]

  unfoldable pub create_post : ℕ → Text → Text → Text → Db → Db × Reply BoardDone
  create_post max_chars slug author body db =
      answer_posted slug author (post u max_chars db now slug author body) db

  unfoldable pub api_board_posts_create : ℕ → Text → Body → Db → Db × Reply BoardDone
  api_board_posts_create max_chars path_slug not_json db = (db, refused 400 (lit "invalid JSON"))
  api_board_posts_create max_chars path_slug not_object db = (db, raised attribute_error)
  api_board_posts_create max_chars path_slug (object fields) db =
      let author = strip (member fields (lit "author_pubkey")) in
      if null author
      then (db, refused 400 (lit "author_pubkey required"))
      else elim (get_user db author) [
        | none ↦ (db, refused 400 (lit "author not found"))
        | some user ↦
            create_post max_chars (lower u path_slug) author (member fields (lit "body")) db
      ]

  -- The loaded post must be there, not deleted, and on the board of the path.
  abbrev is_on_board : Text → BoardPost → Bool
  is_on_board slug p = not p.deleted && str_eq p.board_slug slug

  unfoldable pub delete_on_board : Text → ℤ → Db → Db × Reply ℕ
  delete_on_board slug (negsuc n) db = (db, refused 404 (lit "post not found"))
  delete_on_board slug (pos post_id) db =
      let (deleted, updated) = delete_post db post_id in
      elim (get_post db post_id) [
        | none ↦ (db, refused 404 (lit "post not found"))
        | some p ↦
            if not (is_on_board slug p)
            then (db, refused 404 (lit "post not found"))
            else if not updated
            then (deleted, refused 404 (lit "post not found"))
            else (
              audit deleted now none (lit "board_post_del")
                  (lit "slug=" ++ (slug ++ (lit " id=" ++ str post_id))),
              answered post_id,
            )
      ]

  unfoldable pub api_board_posts_delete : Text → Text → Db → Db × Reply ℕ
  api_board_posts_delete path_slug raw_id db =
      at_path_id u raw_id (lit "invalid post id") db
        (λ id. delete_on_board (lower u path_slug) id db)

-- `problem` is the text of the exception that `send_advert` raises, if any.
unfoldable pub api_advert : ℕ → Option Text → Bbs → Bbs × Reply {0} Unit
api_advert now (some problem) bbs = (bbs, refused 500 problem)
api_advert now none bbs = (
  record bbs {
    db = audit bbs.db now none (lit "advert") (lit "source=dashboard flood=1");
    adverts = bbs.adverts + 1;
  },
  answered tt,
)
