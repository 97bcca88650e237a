-- ===== src/Dispatcher/Newcomers.antt =====
-- What a sender who has no display name yet can change.
use meshcore_bbs.Db.{Db}
use meshcore_bbs.Db.Audit.{audit}
use meshcore_bbs.Db.Outbound.{enqueue_outbound, outbound_pending_depth}
use meshcore_bbs.Db.RateWindows.{set_rate_window}
use meshcore_bbs.Db.Users.{mark_motd_sent, set_display_name, touch_user, upsert_user_first_seen}
use meshcore_bbs.Dispatcher.{
  Bbs, Setting, check_limits, enqueue, enqueue_packets, enqueue_reply, priority_normal,
  priority_notification, with_db,
}
use meshcore_bbs.Dispatcher.Inbound.{
  admit, dispatch, handle_inbound, handle_onboarding, limited_dispatch, notify_admins,
  reply_throttled,
}
use meshcore_bbs.Dispatcher.Posting.{reply_name}
use meshcore_bbs.Format.{default_packet_bytes, split_packets}
use meshcore_bbs.Models.{User, notification, response}
use meshcore_bbs.Onboarding.{try_set_name}
use meshcore_bbs.Prelude.{
  Bool, Bool-cases, List, Option, [], arith, false, if◌then◌else◌, inl, inr, leb, ltb, none, refl,
  true, ℕ, ◌&&◌, ◌∙◌, ◌∷◌, ◌≡◌,
}
use meshcore_bbs.RateLimiter.{Decision, RateLimit, check_and_consume}
use meshcore_bbs.Text.{Text, Unicode, lower, str_eq}
use meshcore_bbs.Transport.{InboundMessage}

-- The boards, the posts and the mail are the same in two databases.
record SameContent (db after : Db) : Type 0 where
  same_boards : after.boards ≡ db.boards
  same_posts : after.board_posts ≡ db.board_posts
  same_mail : after.mail ≡ db.mail

same_content : (db : Db) → SameContent db db
same_content db = record { same_boards = refl; same_posts = refl; same_mail = refl }

then_content : (a b c : Db) → SameContent a b → SameContent b c → SameContent a c
then_content a b c h k = record {
  same_boards = k.same_boards ∙ h.same_boards;
  same_posts = k.same_posts ∙ h.same_posts;
  same_mail = k.same_mail ∙ h.same_mail;
}

-- The staged broadcasts and the adverts are the same too.
record KeepsContent (bbs after : Bbs) : Type 0 where
  content : SameContent bbs.db after.db
  same_staged : after.staged ≡ bbs.staged
  same_adverts : after.adverts ≡ bbs.adverts

enqueue_packets-SameContent :
    (now : ℕ) (pk : Text) (priority : ℕ) (trigger : Option Text) (packets : List Text) (db : Db)
    → SameContent db (enqueue_packets now pk priority trigger packets db)
unfolding enqueue_packets enqueue_outbound
enqueue_packets-SameContent now pk priority trigger [] db = same_content db
enqueue_packets-SameContent now pk priority trigger (p ∷ packets) db =
    let kind = if ltb priority priority_normal then notification else response in
    let next = (enqueue_outbound db pk p now priority trigger kind).0 in
    let rest = enqueue_packets-SameContent now pk priority trigger packets next in
    record {
      same_boards = rest.same_boards;
      same_posts = rest.same_posts;
      same_mail = rest.same_mail;
    }

enqueue_reply-SameContent :
    (max_depth now : ℕ) (db : Db) (pk text : Text) (priority : ℕ) (trigger : Option Text)
    → SameContent db (enqueue_reply max_depth now db pk text priority trigger)
unfolding enqueue_reply
enqueue_reply-SameContent max_depth now db pk text priority trigger =
    elim (Bool-cases (leb max_depth (outbound_pending_depth db) && ltb priority priority_normal)) [
      | inl full ↦ rw full (same_content db)
      | inr free ↦ rw free (
          enqueue_packets-SameContent now pk priority trigger
            (split_packets text default_packet_bytes) db)
    ]

check_and_consume-SameContent :
    (db : Db) (now : ℕ) (pk bucket : Text) (limit : RateLimit)
    → SameContent db (check_and_consume db now pk bucket limit).0
unfolding check_and_consume set_rate_window
check_and_consume-SameContent db now pk bucket limit = record {
  same_boards = ground arith;
  same_posts = ground arith;
  same_mail = ground arith;
}

check_limits-SameContent :
    (db : Db) (now : ℕ) (pk : Text) (limits : List (Text × RateLimit))
    → SameContent db (check_limits db now pk limits).0
unfolding check_limits
check_limits-SameContent db now pk [] = same_content db
check_limits-SameContent db now pk ((bucket, limit) ∷ limits) =
    let step = check_and_consume-SameContent db now pk bucket limit in
    let rest =
      check_limits-SameContent (check_and_consume db now pk bucket limit).0 now pk limits in
    record {
      same_boards = ground (arith, step.same_boards, rest.same_boards);
      same_posts = ground (arith, step.same_posts, rest.same_posts);
      same_mail = ground (arith, step.same_mail, rest.same_mail);
    }

try_set_name-SameContent :
    (u : Unicode) (db : Db) (now : ℕ) (pk name : Text)
    → SameContent db (try_set_name u db now pk name).0
unfolding try_set_name set_display_name mark_motd_sent audit
try_set_name-SameContent u db now pk name = record {
  same_boards = ground arith;
  same_posts = ground arith;
  same_mail = ground arith;
}

upsert-SameContent :
    (db : Db) (pk : Text) (adv_name : Option Text) (now : ℕ)
    → SameContent db (upsert_user_first_seen db pk adv_name now).0
unfolding upsert_user_first_seen
upsert-SameContent db pk adv_name now = record {
  same_boards = ground arith;
  same_posts = ground arith;
  same_mail = ground arith;
}

touch_user-SameContent :
    (db : Db) (pk : Text) (now : ℕ) (hops : Option ℕ) → SameContent db (touch_user db pk now hops)
unfolding touch_user
touch_user-SameContent db pk now hops = record {
  same_boards = refl;
  same_posts = refl;
  same_mail = refl;
}

module _ (e : Setting) (now : ℕ) where
  unmoved_content : (bbs : Bbs) → KeepsContent bbs bbs
  unmoved_content bbs = record {
    content = same_content bbs.db;
    same_staged = refl;
    same_adverts = refl;
  }

  then-KeepsContent : (a b c : Bbs) → KeepsContent a b → KeepsContent b c → KeepsContent a c
  then-KeepsContent a b c h k = record {
    content = then_content a.db b.db c.db h.content k.content;
    same_staged = k.same_staged ∙ h.same_staged;
    same_adverts = k.same_adverts ∙ h.same_adverts;
  }

  with_db-KeepsContent :
      (db : Db) (bbs : Bbs) → SameContent bbs.db db → KeepsContent bbs (with_db db bbs)
  with_db-KeepsContent db bbs h = record { content = h; same_staged = refl; same_adverts = refl }

  enqueue-KeepsContent :
      (pk text : Text) (priority : ℕ) (trigger : Option Text) (bbs : Bbs)
      → KeepsContent bbs (enqueue e now pk text priority trigger bbs)
  unfolding enqueue
  enqueue-KeepsContent pk text priority trigger bbs = record {
    content =
        enqueue_reply-SameContent e.cfg.limits.outbound_queue_max_depth now bbs.db pk text priority
          trigger;
    same_staged = refl;
    same_adverts = refl;
  }

  notify_admins-KeepsContent :
      (msg pk : Text) (admins : List Text) (bbs : Bbs)
      → KeepsContent bbs (notify_admins e now msg pk admins bbs)
  unfolding notify_admins
  notify_admins-KeepsContent msg pk [] bbs = unmoved_content bbs
  notify_admins-KeepsContent msg pk (admin ∷ admins) bbs =
      let next = enqueue e now (lower e.unicode admin) msg priority_notification none bbs in
      let same = notify_admins-KeepsContent msg pk admins bbs in
      let rest =
        then-KeepsContent bbs next _
          (enqueue-KeepsContent (lower e.unicode admin) msg priority_notification none bbs)
          (notify_admins-KeepsContent msg pk admins next) in
      either_content (str_eq (lower e.unicode admin) (lower e.unicode pk)) _ _ bbs same rest
    where
      either_content :
          (own : Bool) (x y bbs : Bbs)
          → KeepsContent bbs x
          → KeepsContent bbs y
          → KeepsContent bbs (elim own as (λ _. Bbs) [ true ↦ x | false ↦ y ])
      either_content true x y bbs h k = h
      either_content false x y bbs h k = k

  reply_name-KeepsContent :
      (pk : Text) (trigger : Option Text) (name : Text) (bbs : Bbs)
      → KeepsContent bbs (reply_name e now pk trigger name bbs).0
  reply_name-KeepsContent pk trigger name bbs =
      let tried = try_set_name e.unicode bbs.db now pk name in
      then-KeepsContent bbs (with_db tried.0 bbs) _
        (with_db-KeepsContent tried.0 bbs (try_set_name-SameContent e.unicode bbs.db now pk name))
        (enqueue-KeepsContent pk tried.2 priority_normal trigger (with_db tried.0 bbs))

  handle_onboarding-KeepsContent :
      (inbound : InboundMessage) (bbs : Bbs)
      → KeepsContent bbs (handle_onboarding e now inbound bbs)
  unfolding handle_onboarding
  handle_onboarding-KeepsContent inbound bbs =
      grind (arith, enqueue-KeepsContent, reply_name-KeepsContent)

  reply_throttled-KeepsContent :
      (pk : Text) (decision : Decision) (bbs : Bbs)
      → KeepsContent bbs (reply_throttled e now pk decision bbs)
  unfolding reply_throttled
  reply_throttled-KeepsContent pk decision bbs = grind (
    arith, enqueue-KeepsContent, then-KeepsContent, with_db-KeepsContent,
    check_and_consume-SameContent,
  )

  dispatch-KeepsContent :
      (user : User) (inbound : InboundMessage) (bbs : Bbs)
      → user.onboarded ≡ false
      → KeepsContent bbs (dispatch e now user inbound bbs)
  unfolding dispatch
  dispatch-KeepsContent user inbound bbs h = simp h (handle_onboarding-KeepsContent inbound bbs)

  limited_dispatch-KeepsContent :
      (user : User) (inbound : InboundMessage) (bbs : Bbs)
      → user.onboarded ≡ false
      → KeepsContent bbs (limited_dispatch e now user inbound bbs)
  unfolding limited_dispatch
  limited_dispatch-KeepsContent user inbound bbs h = grind (
    arith, then-KeepsContent, with_db-KeepsContent, check_limits-SameContent,
    reply_throttled-KeepsContent, dispatch-KeepsContent,
  )

  admit-KeepsContent :
      (user : User) (is_new : Bool) (inbound : InboundMessage) (bbs : Bbs)
      → user.onboarded ≡ false
      → KeepsContent bbs (admit e now user is_new inbound bbs)
  unfolding admit
  admit-KeepsContent user is_new inbound bbs h = grind (
    arith, unmoved_content, then-KeepsContent, notify_admins-KeepsContent,
    limited_dispatch-KeepsContent,
  )

  -- A message from a sender who is new or has not been onboarded, an administrator or not, leaves
  -- the boards, the posts, the mail, the staged broadcasts and the adverts as they are.
  pub handle_inbound_newcomer :
      (inbound : InboundMessage) (bbs : Bbs)
      → (upsert_user_first_seen bbs.db inbound.pubkey inbound.adv_name now).1.onboarded ≡ false
      → let after = handle_inbound e now inbound bbs in
        (after.db.boards ≡ bbs.db.boards)
        × (after.db.board_posts ≡ bbs.db.board_posts)
        × (after.db.mail ≡ bbs.db.mail)
        × (after.staged ≡ bbs.staged)
        × (after.adverts ≡ bbs.adverts)
  unfolding handle_inbound
  handle_inbound_newcomer inbound bbs h =
      let pk = inbound.pubkey in
      let up = upsert_user_first_seen bbs.db pk inbound.adv_name now in
      let touched = touch_user up.0 pk now inbound.hops in
      let seen =
        then_content bbs.db up.0 touched (upsert-SameContent bbs.db pk inbound.adv_name now)
          (touch_user-SameContent up.0 pk now inbound.hops) in
      let kept =
        then-KeepsContent bbs (with_db touched bbs) _ (with_db-KeepsContent touched bbs seen)
          (admit-KeepsContent up.1 up.2 inbound (with_db touched bbs) h) in
      elim (Bool-cases (str_eq pk (lower e.unicode e.self_pubkey))) [
        | inl own ↦ rw own (refl, refl, refl, refl, refl)
        | inr other ↦ rw other (
          kept.content.same_boards, kept.content.same_posts, kept.content.same_mail,
          kept.same_staged, kept.same_adverts,
        )
      ]
