-- ===== src/Program/Sound.antt =====
-- What is sound in a database, and the operations that keep it so.
pub mod Writes
use meshcore_bbs.Db.{Db}
use meshcore_bbs.Db.Boards.{delete_board}
use meshcore_bbs.Db.Users.{has_pubkey}
use meshcore_bbs.Dispatcher.{Bbs}
use meshcore_bbs.Dispatcher.Closed.{KeepsDb}
use meshcore_bbs.Models.{Board, BoardPost, Mail, User}
use meshcore_bbs.Onboarding.Distinct.{AreDistinct, same-AreDistinct}
use meshcore_bbs.OutboundWorker.Tables.{SameTables}
use meshcore_bbs.Prelude.{
  All, All-map, Bool, Bool-cases, List, [], any, ap, arith, false, false≢true, filter, inl, inr,
  not, refl, true, update_rows, ℕ, ◌++◌, ◌∙◌, ◌∷◌, ◌≡◌,
}
use meshcore_bbs.Text.{Text, Unicode, lower, str_eq}
use meshcore_bbs.Text.Laws.{str_eq_iff}

abbrev pub HasUser : List User → Text → Type 0
HasUser users pk = any (has_pubkey pk) users ≡ true

abbrev pub is_slug : Text → Board → Bool
is_slug slug b = str_eq b.slug slug

abbrev pub HasBoard : List Board → Text → Type 0
HasBoard boards slug = any (is_slug slug) boards ≡ true

-- No two users share a key or a name, each post is on a board that is there and by a user who is
-- there, and so are the sender and the recipient of each mail.
pub record IsSound (db : Db) : Type 0 where
  pub users_distinct : AreDistinct db.users
  pub post_boards : All (λ p. HasBoard db.boards p.board_slug) db.board_posts
  pub post_authors : All (λ p. HasUser db.users p.author_pubkey) db.board_posts
  pub mail_senders : All (λ m. HasUser db.users m.from_pubkey) db.mail
  pub mail_recipients : All (λ m. HasUser db.users m.to_pubkey) db.mail

abbrev pub SoundBbs : Bbs → Type 0
SoundBbs bbs = IsSound bbs.db

sound_kept : (db after : Db) → (IsSound db → IsSound after) → KeepsDb SoundBbs db after
sound_kept db after f = record { keeps_db = λ bbs h. f h }

-- Nothing of what is checked has changed.
pub same_kept : (db after : Db) → SameTables db after → KeepsDb SoundBbs db after
same_kept db after t = sound_kept db after (λ h. record {
  users_distinct = rw t.same_users (h.users_distinct);
  post_boards = rw (t.same_posts, t.same_boards) (h.post_boards);
  post_authors = rw (t.same_posts, t.same_users) (h.post_authors);
  mail_senders = rw (t.same_mail, t.same_users) (h.mail_senders);
  mail_recipients = rw (t.same_mail, t.same_users) (h.mail_recipients);
})

-- Other users, none of whom is gone.
pub users_kept :
    (db : Db) (users : List User)
    → (AreDistinct db.users → AreDistinct users)
    → ((pk : Text) → HasUser db.users pk → HasUser users pk)
    → KeepsDb SoundBbs db (record db { users = users })
users_kept db users distinct more = sound_kept db _ (λ h. record {
  users_distinct = distinct h.users_distinct;
  post_boards = h.post_boards;
  post_authors = All-map _ _ db.board_posts (λ p k. more p.author_pubkey k) h.post_authors;
  mail_senders = All-map _ _ db.mail (λ m k. more m.from_pubkey k) h.mail_senders;
  mail_recipients = All-map _ _ db.mail (λ m k. more m.to_pubkey k) h.mail_recipients;
})

pub any-update_rows :
    {A : Type 0} (q p : A → Bool) (f : A → A) (xs : List A)
    → ((x : A) → q (f x) ≡ q x)
    → any q (update_rows p f xs) ≡ any q xs
any-update_rows q p f [] same = refl
any-update_rows q p f (x ∷ xs) same = ground (arith, same x, any-update_rows q p f xs same)

-- An UPDATE of users that sets neither the key nor the name.
pub update_kept :
    (db : Db) (p : User → Bool) (f : User → User)
    → ((x : User) → (f x).pubkey ≡ x.pubkey)
    → ((x : User) → (f x).display_name_lc ≡ x.display_name_lc)
    → KeepsDb SoundBbs db (record db { users = update_rows p f db.users })
update_kept db p f key lc =
    users_kept db _ (same-AreDistinct p f db.users key lc) (λ pk h.
      any-update_rows (has_pubkey pk) p f db.users (λ x. ap (λ k. str_eq k pk) (key x)) ∙ h)

pub any-append :
    {A : Type 0} (q : A → Bool) (xs ys : List A) → any q xs ≡ true → any q (xs ++ ys) ≡ true
any-append q [] ys h = absurd (false≢true h)
any-append q (x ∷ xs) ys h = ground (arith, any-append q xs ys)

-- Other posts, each on a board and by a user that are there.
pub posts_kept :
    (db : Db) (posts : List BoardPost) (next : ℕ)
    → (All (λ p. HasBoard db.boards p.board_slug) db.board_posts
        → All (λ p. HasBoard db.boards p.board_slug) posts)
    → (All (λ p. HasUser db.users p.author_pubkey) db.board_posts
        → All (λ p. HasUser db.users p.author_pubkey) posts)
    → KeepsDb SoundBbs db (record db { board_posts = posts; next_post = next })
posts_kept db posts next boards authors = sound_kept db _ (λ h. record {
  users_distinct = h.users_distinct;
  post_boards = boards h.post_boards;
  post_authors = authors h.post_authors;
  mail_senders = h.mail_senders;
  mail_recipients = h.mail_recipients;
})

-- Other mail, each between users who are there.
pub mail_kept :
    (db : Db) (mail : List Mail) (next : ℕ)
    → (All (λ m. HasUser db.users m.from_pubkey) db.mail
        → All (λ m. HasUser db.users m.from_pubkey) mail)
    → (All (λ m. HasUser db.users m.to_pubkey) db.mail
        → All (λ m. HasUser db.users m.to_pubkey) mail)
    → KeepsDb SoundBbs db (record db { mail = mail; next_mail = next })
mail_kept db mail next senders recipients = sound_kept db _ (λ h. record {
  users_distinct = h.users_distinct;
  post_boards = h.post_boards;
  post_authors = h.post_authors;
  mail_senders = senders h.mail_senders;
  mail_recipients = recipients h.mail_recipients;
})

-- What is left of a list has what the whole list had.
pub All-of_filter :
    {A : Type 0} (q : A → Bool) (Q : A → Type 0) (xs : List A) → All Q xs → All Q (filter q xs)
All-of_filter q Q [] h = tt
All-of_filter q Q (x ∷ xs) h = ground (arith, h.0, All-of_filter q Q xs h.1)

pub delete_board-KeepsDb :
    (u : Unicode) (db : Db) (slug : Text) → KeepsDb SoundBbs db (delete_board u db slug)
unfolding delete_board
delete_board-KeepsDb u db slug = sound_kept db _ (λ h. record {
  users_distinct = h.users_distinct;
  post_boards = posts_left (lower u slug) db.boards db.board_posts h.post_boards;
  post_authors = All-of_filter _ _ db.board_posts h.post_authors;
  mail_senders = h.mail_senders;
  mail_recipients = h.mail_recipients;
})
  where
    board_left :
        (gone s : Text) (boards : List Board)
        → HasBoard boards s
        → str_eq s gone ≡ false
        → HasBoard (filter (λ b. not (str_eq b.slug gone)) boards) s
    board_left gone s [] h k = h
    board_left gone s (b ∷ boards) h k =
        ground (arith, board_left gone s boards, str_eq_iff b.slug s, k)

    posts_left :
        (gone : Text) (boards : List Board) (posts : List BoardPost)
        → All (λ p. HasBoard boards p.board_slug) posts
        → All
            (λ p. HasBoard (filter (λ b. not (str_eq b.slug gone)) boards) p.board_slug)
            (filter (λ p. not (str_eq p.board_slug gone)) posts)
    posts_left gone boards [] h = tt
    posts_left gone boards (p ∷ posts) h = elim (Bool-cases (str_eq p.board_slug gone)) [
      | inl off ↦ rw off (posts_left gone boards posts h.1)
      | inr on ↦
          rw on (board_left gone p.board_slug boards h.0 on, posts_left gone boards posts h.1)
    ]
