-- ===== src/Program/Sound/Writes.antt =====
-- What each writing operation of the database does to the references between the tables.
use meshcore_bbs.Db.{Db, ok}
use meshcore_bbs.Db.Boards.{add_board, add_post, delete_post}
use meshcore_bbs.Db.Mails.{add_mail, delete_mail, is_mail, new_mail, purge_old_read_mail}
use meshcore_bbs.Db.News.{insert_news_item}
use meshcore_bbs.Db.Users.{
  get_user, has_pubkey, name_taken, new_user, set_display_name, upsert_user_first_seen,
}
use meshcore_bbs.Dispatcher.Closed.{KeepsDb, unchanged}
use meshcore_bbs.Models.{BoardPost, Mail, User}
use meshcore_bbs.Onboarding.Distinct.{
  AreDistinct, any-false, rename-AreDistinct, renamed, upsert_user_first_seen-AreDistinct,
}
use meshcore_bbs.Prelude.{
  &&_left, &&_right, All-append, All-map, All-update_rows, Bool, Bool-cases, List, Option,
  Option-cases, [], any, arith, false, inl, inr, not, refl, subst, sym, true, update_rows, ℕ, ◌&&◌,
  ◌++◌, ◌+◌, ◌==◌, ◌∙◌, ◌∷◌, ◌≡◌,
}
use meshcore_bbs.Program.Sound.{
  All-of_filter, HasBoard, HasUser, SoundBbs, any-append, any-update_rows, is_slug, mail_kept,
  posts_kept, same_kept, update_kept, users_kept,
}
use meshcore_bbs.Text.{Text, Unicode, lower}

update_rows-none :
    {A : Type 0} (p : A → Bool) (f : A → A) (xs : List A)
    → any p xs ≡ false
    → update_rows p f xs ≡ xs
update_rows-none p f [] h = refl
update_rows-none p f (x ∷ xs) h = ground (arith, update_rows-none p f xs)

renamed-AreDistinct :
    (u : Unicode) (pk name : Text) (users : List User)
    → (any (has_pubkey pk) users && any (name_taken u pk name) users) ≡ false
    → AreDistinct users
    → AreDistinct (update_rows (has_pubkey pk) (renamed u pk name) users)
renamed-AreDistinct u pk name users free d = elim (Bool-cases (any (has_pubkey pk) users)) [
  | inl known ↦
      rename-AreDistinct u pk name users (any-false u pk name users (ground (arith, known, free))) d
  | inr unknown ↦
      subst AreDistinct (sym (update_rows-none (has_pubkey pk) (renamed u pk name) users unknown)) d
]

pub set_display_name-KeepsDb :
    (u : Unicode) (db : Db) (pk name : Text) → KeepsDb SoundBbs db (set_display_name u db pk name).0
unfolding set_display_name
set_display_name-KeepsDb u db pk name =
    elim (Bool-cases (any (has_pubkey pk) db.users && any (name_taken u pk name) db.users)) [
      | inl taken ↦ rw taken (unchanged db)
      | inr free ↦ rw free (
          users_kept db (update_rows (has_pubkey pk) (renamed u pk name) db.users)
            (renamed-AreDistinct u pk name db.users free)
            (λ k h.
              any-update_rows (has_pubkey k) (has_pubkey pk) (renamed u pk name) db.users
                (λ x. refl)
              ∙ h))
    ]

pub upsert-KeepsDb :
    (db : Db) (pk : Text) (adv_name : Option Text) (now : ℕ)
    → KeepsDb SoundBbs db (upsert_user_first_seen db pk adv_name now).0
unfolding upsert_user_first_seen
upsert-KeepsDb db pk adv_name now =
    let distinct = upsert_user_first_seen-AreDistinct db pk adv_name now in
    elim (Option-cases (get_user db pk)) [
      | inl absent ↦
          rw (absent, upsert_user_first_seen)
            (users_kept db (db.users ++ new_user pk adv_name now ∷ [])
              (rw (absent, upsert_user_first_seen) at distinct)
              (λ k h. any-append (has_pubkey k) db.users _ h))
      | inr (user, found) ↦
          rw (found, upsert_user_first_seen)
            (update_kept db (has_pubkey pk) _ (λ x. refl) (λ x. refl))
    ]

ok-injective : {A : Type 0} {a b : A} → ok a ≡ ok b → a ≡ b
ok-injective e = cc

pub add_post-KeepsDb :
    (u : Unicode) (db : Db) (slug author body : Text) (now : ℕ) (after : Db × ℕ)
    → add_post u db slug author body now ≡ ok after
    → KeepsDb SoundBbs db after.0
unfolding add_post
add_post-KeepsDb u db slug author body now after h =
    elim (Bool-cases (any (is_slug (lower u slug)) db.boards && any (has_pubkey author) db.users)) [
      | inl there ↦
          let put =
            posts_kept db (db.board_posts ++ new ∷ []) (db.next_post + 1)
              (λ k. All-append _ db.board_posts (new ∷ []) k (&&_left _ _ there, tt))
              (λ k. All-append _ db.board_posts (new ∷ []) k (&&_right _ _ there, tt)) in
          subst (λ a. KeepsDb SoundBbs db a.0) (ok-injective (rw there at h)) put
      | inr gone ↦ ground arith
    ]
  where
    new : BoardPost
    new = record {
      id = db.next_post;
      board_slug = lower u slug;
      author_pubkey = author;
      body = body;
      ts = now;
      deleted = false;
    }

pub add_mail-KeepsDb :
    (db : Db) (from_pk to_pk body : Text) (now : ℕ) (after : Db × ℕ)
    → add_mail db from_pk to_pk body now ≡ ok after
    → KeepsDb SoundBbs db after.0
unfolding add_mail
add_mail-KeepsDb db from_pk to_pk body now after h =
    elim (Bool-cases (any (has_pubkey from_pk) db.users && any (has_pubkey to_pk) db.users)) [
      | inl there ↦
          let new = new_mail db.next_mail from_pk to_pk body now in
          let put =
            mail_kept db (db.mail ++ new ∷ []) (db.next_mail + 1)
              (λ k. All-append _ db.mail (new ∷ []) k (&&_left _ _ there, tt))
              (λ k. All-append _ db.mail (new ∷ []) k (&&_right _ _ there, tt)) in
          subst (λ a. KeepsDb SoundBbs db a.0) (ok-injective (rw there at h)) put
      | inr gone ↦ ground arith
    ]

pub mails_updated :
    (db : Db) (p : Mail → Bool) (f : Mail → Mail)
    → ((x : Mail) → (f x).from_pubkey ≡ x.from_pubkey)
    → ((x : Mail) → (f x).to_pubkey ≡ x.to_pubkey)
    → KeepsDb SoundBbs db (record db { mail = update_rows p f db.mail })
mails_updated db p f sender recipient =
    mail_kept db _ db.next_mail
      (All-update_rows p f _ _ db.mail (λ x h. ground (arith, h, sender x)))
      (All-update_rows p f _ _ db.mail (λ x h. ground (arith, h, recipient x)))

-- What happened to a mail that is gone leaves the others as they are.
pub purge-KeepsDb :
    (db : Db) (before_ts : ℕ) → KeepsDb SoundBbs db (purge_old_read_mail db before_ts).0
unfolding purge_old_read_mail
purge-KeepsDb db before_ts =
    mail_kept db _ db.next_mail (All-of_filter _ _ db.mail) (All-of_filter _ _ db.mail)

pub delete_post-KeepsDb : (db : Db) (post_id : ℕ) → KeepsDb SoundBbs db (delete_post db post_id).0
unfolding delete_post
delete_post-KeepsDb db post_id =
    let is_it : BoardPost → Bool = λ p. p.id == post_id && not p.deleted in
    let marked : BoardPost → BoardPost = λ p. record p { deleted = true } in
    posts_kept db (update_rows is_it marked db.board_posts) db.next_post
      (All-update_rows is_it marked (λ p. HasBoard db.boards p.board_slug)
        (λ p. HasBoard db.boards p.board_slug) db.board_posts (λ x h. ground (arith, h)))
      (All-update_rows is_it marked (λ p. HasUser db.users p.author_pubkey)
        (λ p. HasUser db.users p.author_pubkey) db.board_posts (λ x h. ground (arith, h)))

pub boards_added :
    (u : Unicode) (db : Db) (slug description : Text) (now : ℕ) (after : Db)
    → add_board u db slug description now ≡ ok after
    → KeepsDb SoundBbs db after
unfolding add_board
boards_added u db slug description now after h =
    elim (Bool-cases (any (is_slug (lower u slug)) db.boards)) [
      | inl there ↦ ground arith
      | inr gone ↦ subst (KeepsDb SoundBbs db) (ok-injective (rw gone at h)) (record {
        keeps_db = λ bbs k. record {
          users_distinct = k.users_distinct;
          post_boards =
              All-map _ _ db.board_posts (λ p b. any-append (is_slug p.board_slug) db.boards _ b)
                k.post_boards;
          post_authors = k.post_authors;
          mail_senders = k.mail_senders;
          mail_recipients = k.mail_recipients;
        };
      })
    ]

pub delete_mail-KeepsDb :
    (db : Db) (mail_id : ℕ) (viewer : Text) (after : Db × Bool)
    → delete_mail db mail_id viewer ≡ ok after
    → KeepsDb SoundBbs db after.0
unfolding delete_mail
delete_mail-KeepsDb db mail_id viewer after h =
    let updated =
      mails_updated db (is_mail mail_id viewer) (λ m. record m { deleted = true }) (λ x. refl)
        (λ x. refl) in
    grind (arith, updated)

pub inserted-KeepsDb :
    (db : Db) (feed_id : ℕ) (title : Text) (url : Option Text) (ts : ℕ) (hash : Text)
    → KeepsDb SoundBbs db (insert_news_item db feed_id title url ts hash).0
unfolding insert_news_item
inserted-KeepsDb db feed_id title url ts hash = same_kept db _ (record {
  same_users = ground arith;
  same_boards = ground arith;
  same_posts = ground arith;
  same_mail = ground arith;
})
