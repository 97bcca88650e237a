-- ===== src/Dispatcher/Closed/Whole.antt =====
-- The handling of a whole message.
use meshcore_bbs.Commands.{ParsedCommand}
use meshcore_bbs.Db.{Db}
use meshcore_bbs.Db.Users.{touch_user, upsert_user_first_seen}
use meshcore_bbs.Dispatcher.{
  Bbs, Setting, check_limits, enqueue, priority_notification, reply, with_db,
}
use meshcore_bbs.Dispatcher.Closed.{
  Arrivals, Keeps, KeepsDb, Operations, then-Keeps, then_unchanged, unmoved, with_db-Keeps,
}
use meshcore_bbs.Dispatcher.Closed.Handlers.{Powers, handle_command-Keeps}
use meshcore_bbs.Dispatcher.Closed.Ordinary.{reply-Keeps}
use meshcore_bbs.Dispatcher.Closed.Services.{
  check_and_consume-KeepsDb, check_limits-KeepsDb, enqueue-Keeps, try_set_name-KeepsDb,
}
use meshcore_bbs.Dispatcher.Inbound.{
  admit, dispatch, handle_command, handle_inbound, handle_onboarding, limited_dispatch,
  notify_admins, record_mesh_activity, reply_throttled,
}
use meshcore_bbs.Models.{User}
use meshcore_bbs.Onboarding.{try_set_name}
use meshcore_bbs.Prelude.{
  Bool, Bool-cases, List, Option, [], arith, false, inl, inr, none, some, true, ℕ, ◌∷◌,
}
use meshcore_bbs.RateLimiter.{Decision, RateLimit, check_and_consume}
use meshcore_bbs.Text.{Text, lower, str_eq}
use meshcore_bbs.Transport.{InboundMessage}

module _ (P : Bbs → Type 0) (e : Setting) (now : ℕ) (o : Operations e.unicode P)
    (Allowed : Text → Type 0) (powers : Powers P e now Allowed) where
  enqueue_kept :
      (pk text : Text) (priority : ℕ) (trigger : Option Text) (bbs : Bbs)
      → Keeps P bbs (enqueue e now pk text priority trigger bbs)
  enqueue_kept = enqueue-Keeps P e.unicode o e now

  replied :
      (db : Db) (pk text : Text) (trigger : Option Text) (bbs : Bbs)
      → KeepsDb P bbs.db db
      → Keeps P bbs (reply e now pk trigger text (with_db db bbs)).0
  replied = reply-Keeps P e now o

  named_kept : (db : Db) (pk name : Text) → KeepsDb P db (try_set_name e.unicode db now pk name).0
  named_kept db pk name = try_set_name-KeepsDb P e.unicode o db now pk name

  consumed_kept :
      (db : Db) (pk bucket : Text) (limit : RateLimit)
      → KeepsDb P db (check_and_consume db now pk bucket limit).0
  consumed_kept db pk bucket limit = check_and_consume-KeepsDb P e.unicode o db now pk bucket limit

  limits_kept :
      (db : Db) (pk : Text) (limits : List (Text × RateLimit))
      → KeepsDb P db (check_limits db now pk limits).0
  limits_kept db pk limits = check_limits-KeepsDb P e.unicode o db now pk limits

  command_kept :
      (inbound : InboundMessage) (parsed : ParsedCommand) (bbs : Bbs)
      → Allowed inbound.pubkey
      → Keeps P bbs (handle_command e now inbound parsed bbs)
  command_kept = handle_command-Keeps P e now o Allowed powers

  handle_onboarding-Keeps :
      (inbound : InboundMessage) (bbs : Bbs) → Keeps P bbs (handle_onboarding e now inbound bbs)
  unfolding handle_onboarding
  handle_onboarding-Keeps inbound bbs = grind (arith, enqueue_kept, replied, named_kept)

  reply_throttled-Keeps :
      (pk : Text) (decision : Decision) (bbs : Bbs)
      → Keeps P bbs (reply_throttled e now pk decision bbs)
  unfolding reply_throttled
  reply_throttled-Keeps pk decision bbs = grind (arith, replied, with_db-Keeps, consumed_kept)

  own_or_other :
      (own : Bool) (x y bbs : Bbs)
      → Keeps P bbs x
      → Keeps P bbs y
      → Keeps P bbs (elim own as (λ _. Bbs) [ true ↦ x | false ↦ y ])
  own_or_other true x y bbs h k = h
  own_or_other false x y bbs h k = k

  notify_admins-Keeps :
      (msg pk : Text) (admins : List Text) (bbs : Bbs)
      → Keeps P bbs (notify_admins e now msg pk admins bbs)
  unfolding notify_admins
  notify_admins-Keeps msg pk [] bbs = unmoved bbs
  notify_admins-Keeps msg pk (admin ∷ admins) bbs =
      let next = enqueue e now (lower e.unicode admin) msg priority_notification none bbs in
      let same = notify_admins-Keeps msg pk admins bbs in
      let rest =
        then-Keeps bbs next _
          (enqueue_kept (lower e.unicode admin) msg priority_notification none bbs)
          (notify_admins-Keeps msg pk admins next) in
      own_or_other (str_eq (lower e.unicode admin) (lower e.unicode pk)) _ _ bbs same rest

  dispatch-Keeps :
      (user : User) (inbound : InboundMessage) (bbs : Bbs)
      → Allowed inbound.pubkey
      → Keeps P bbs (dispatch e now user inbound bbs)
  unfolding dispatch
  dispatch-Keeps user inbound bbs h =
      grind (arith, enqueue_kept, handle_onboarding-Keeps, command_kept)

  limited_dispatch-Keeps :
      (user : User) (inbound : InboundMessage) (bbs : Bbs)
      → Allowed inbound.pubkey
      → Keeps P bbs (limited_dispatch e now user inbound bbs)
  unfolding limited_dispatch
  limited_dispatch-Keeps user inbound bbs h =
      grind (arith, then-Keeps, with_db-Keeps, limits_kept, reply_throttled-Keeps, dispatch-Keeps)

  pub admit-Keeps :
      (user : User) (is_new : Bool) (inbound : InboundMessage) (bbs : Bbs)
      → Allowed inbound.pubkey
      → Keeps P bbs (admit e now user is_new inbound bbs)
  unfolding admit
  admit-Keeps user is_new inbound bbs h =
      grind (arith, unmoved, then-Keeps, notify_admins-Keeps, limited_dispatch-Keeps)

module _ (P : Bbs → Type 0) (e : Setting) (now : ℕ) (o : Operations e.unicode P)
    (Allowed : Text → Type 0) (powers : Powers P e now Allowed) (a : Arrivals P) where
  -- A property that the operations keep holds after a message if it held before, whatever becomes
  -- of the message.
  pub handle_inbound-Keeps :
      (inbound : InboundMessage) (bbs : Bbs)
      → Allowed inbound.pubkey
      → Keeps P bbs (handle_inbound e now inbound bbs)
  unfolding handle_inbound
  handle_inbound-Keeps inbound bbs h =
      let pk = inbound.pubkey in
      let up = upsert_user_first_seen bbs.db pk inbound.adv_name now in
      let touched = touch_user up.0 pk now inbound.hops in
      let noted = with_db-Keeps touched bbs (
        then_unchanged (a.upsert_kept bbs.db pk inbound.adv_name now)
          (a.touch_kept up.0 pk now inbound.hops)) in
      elim (Bool-cases (str_eq pk (lower e.unicode e.self_pubkey))) [
        | inl own ↦ rw own (unmoved bbs)
        | inr other ↦ rw other (
            then-Keeps bbs (with_db touched bbs) _ noted
              (admit-Keeps P e now o Allowed powers up.1 up.2 inbound (with_db touched bbs) h))
      ]

  pub record_mesh_activity-Keeps :
      (pubkey : Option Text) (bbs : Bbs) → Keeps P bbs (record_mesh_activity e now pubkey bbs)
  unfolding record_mesh_activity
  record_mesh_activity-Keeps none bbs = unmoved bbs
  record_mesh_activity-Keeps (some pubkey) bbs =
      let noted = with_db-Keeps _ bbs (a.touch_activity_kept bbs.db (lower e.unicode pubkey) now) in
      grind (arith, unmoved, noted)
