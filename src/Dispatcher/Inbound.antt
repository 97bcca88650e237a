-- ===== src/Dispatcher/Inbound.antt =====
-- dispatcher.py: `handle_inbound` and the choice of the handler.
use meshcore_bbs.Commands.{ParsedCommand, help_text, parse}
use meshcore_bbs.Db.Users.{touch_user, touch_user_activity, upsert_user_first_seen}
use meshcore_bbs.Dispatcher.{
  Bbs, Handled, Setting, check_limits, enqueue, hop_multiplier, priority_normal,
  priority_notification, rate_limited_text, reply, with_db,
}
use meshcore_bbs.Dispatcher.Admins.{handle_admin, handle_advert}
use meshcore_bbs.Dispatcher.Mailing.{handle_delete_mail, handle_readmail, handle_send}
use meshcore_bbs.Dispatcher.Posting.{handle_name, handle_post, reply_name}
use meshcore_bbs.Dispatcher.Simple.{
  handle_inbox, handle_news, handle_ping, handle_read, handle_status, handle_who, handle_whoami,
  handle_wx, is_direct,
}
use meshcore_bbs.Models.{User}
use meshcore_bbs.Onboarding.{welcome_text}
use meshcore_bbs.Prelude.{
  Bool, List, Option, [], false, head?, if◌then◌else◌, none, not, null, some, take, true, ℕ, ◌*◌,
  ◌++◌, ◌||◌, ◌∷◌,
}
use meshcore_bbs.RateLimiter.{Decision, RateLimit, check_and_consume}
use meshcore_bbs.Services.{text_or}
use meshcore_bbs.Services.Admin.{is_admin}
use meshcore_bbs.Services.Boards.{list_text}
use meshcore_bbs.Services.Mails.{counts_text}
use meshcore_bbs.Text.{Text, lit, lower, starts_with, str_eq}
use meshcore_bbs.Transport.{InboundMessage}

module _ (e : Setting) (now : ℕ) where
  -- The chain of tests on the verb.
  unfoldable pub run_handler : InboundMessage → ParsedCommand → Bbs → Handled
  run_handler inbound parsed bbs =
      let v = parsed.verb in
      let pk = inbound.pubkey in
      if str_eq v (lit "HELP")
      then reply e now pk (some v) (help_text e.unicode (head? parsed.args)) bbs
      else if str_eq v (lit "WHO")
      then handle_who e now v pk bbs
      else if str_eq v (lit "PING")
      then handle_ping e now v inbound bbs
      else if str_eq v (lit "WHOAMI")
      then handle_whoami e now v pk bbs
      else if str_eq v (lit "NAME")
      then handle_name e now v pk parsed bbs
      else if str_eq v (lit "NEWS")
      then handle_news e now v pk parsed bbs
      else if str_eq v (lit "WX")
      then handle_wx e now v pk parsed bbs
      else if str_eq v (lit "BOARDS")
      then reply e now pk (some v) (list_text bbs.db) bbs
      else if str_eq v (lit "READ")
      then handle_read e now v pk parsed bbs
      else if str_eq v (lit "POST")
      then handle_post e now v pk parsed bbs
      else if str_eq v (lit "MAIL")
      then reply e now pk (some v) (counts_text bbs.db pk) bbs
      else if str_eq v (lit "INBOX")
      then handle_inbox e now v pk parsed bbs
      else if str_eq v (lit "READMAIL")
      then handle_readmail e now v pk parsed bbs
      else if str_eq v (lit "SEND")
      then handle_send e now v pk parsed bbs
      else if str_eq v (lit "DELETE")
      then handle_delete_mail e now v pk parsed bbs
      else if str_eq v (lit "STATUS")
      then handle_status e now v pk bbs
      else if str_eq v (lit "ADVERT")
      then handle_advert e now v pk bbs
      else if starts_with v (lit "ADMIN")
      then handle_admin e now v pk parsed bbs
      else reply e now pk (some v) (lit "? Unknown command. Try: HELP") bbs

  -- The `try` around the handlers. What a handler did before it raised stays done.
  abbrev pub caught : Text → Text → Handled → Bbs
  caught v pk (bbs, none) = bbs
  caught v pk (bbs, some error) =
      enqueue e now pk (lit "! Internal error.") priority_normal (some v) bbs

  unfoldable pub handle_command : InboundMessage → ParsedCommand → Bbs → Bbs
  handle_command inbound parsed bbs =
      caught parsed.verb inbound.pubkey (run_handler inbound parsed bbs)

  abbrev pub send_welcome : Text → Bbs → Bbs
  send_welcome pk bbs = enqueue e now pk (welcome_text e.cfg.bbs.name) priority_normal none bbs

  abbrev pub onboard_as : Text → List Text → Bbs → Bbs
  onboard_as pk [] bbs = enqueue e now pk (lit "! NAME <yourname>") priority_normal none bbs
  onboard_as pk (name ∷ args) bbs =
      if null name
      then enqueue e now pk (lit "! NAME <yourname>") priority_normal none bbs
      else (reply_name e now pk none name bbs).0

  unfoldable pub handle_onboarding : InboundMessage → Bbs → Bbs
  handle_onboarding inbound bbs = elim (parse e.unicode inbound.body) [
    | none ↦ send_welcome inbound.pubkey bbs
    | some parsed ↦
        if str_eq parsed.verb (lit "NAME")
        then onboard_as inbound.pubkey parsed.args bbs
        else send_welcome inbound.pubkey bbs
  ]

  unfoldable pub reply_throttled : Text → Decision → Bbs → Bbs
  reply_throttled pk decision bbs =
      let (db, d) =
        check_and_consume bbs.db now pk (lit "rate_notify")
          (record { limit = 1; window_seconds = 60 }) in
      if d.allowed
      then enqueue e now pk (rate_limited_text decision) priority_normal none (with_db db bbs)
      else with_db db bbs

  -- The loop over the administrators.
  unfoldable pub notify_admins : Text → Text → List Text → Bbs → Bbs
  notify_admins msg pk [] bbs = bbs
  notify_admins msg pk (admin ∷ admins) bbs =
      elim (str_eq (lower e.unicode admin) (lower e.unicode pk)) [
        | true ↦ notify_admins msg pk admins bbs
        | false ↦
            notify_admins msg pk admins
              (enqueue e now (lower e.unicode admin) msg priority_notification none bbs)
      ]

  abbrev pub new_user_text : Text → Text → Text
  new_user_text display pk = lit "New user: " ++ (display ++ (lit " (" ++ (take 12 pk ++ lit ")")))

  abbrev pub inbound_limits : ℕ → List (Text × RateLimit)
  inbound_limits mul =
      (
        lit "inbound_min",
        record { limit = e.cfg.limits.inbound_per_minute * mul; window_seconds = 60 },
      )
      ∷ (
        lit "inbound_hour",
        record { limit = e.cfg.limits.inbound_per_hour * mul; window_seconds = 3600 },
      )
      ∷ []

  -- The end of the method, behind the rate limits.
  unfoldable pub dispatch : User → InboundMessage → Bbs → Bbs
  dispatch user inbound bbs =
      if not user.onboarded
      then handle_onboarding inbound bbs
      else elim (parse e.unicode inbound.body) [
        | none ↦ enqueue e now inbound.pubkey (lit "? Empty. Try: HELP") priority_normal none bbs
        | some parsed ↦ handle_command inbound parsed bbs
      ]

  -- The rate limits of messages that are not direct and not from an administrator.
  unfoldable pub limited_dispatch : User → InboundMessage → Bbs → Bbs
  limited_dispatch user inbound bbs =
      let (db, refusal) =
        check_limits bbs.db now inbound.pubkey (inbound_limits (hop_multiplier inbound.hops)) in
      if is_admin e.unicode e.services.admin inbound.pubkey || is_direct inbound.hops
      then dispatch user inbound bbs
      else elim refusal [
        | some decision ↦ reply_throttled inbound.pubkey decision (with_db db bbs)
        | none ↦ dispatch user inbound (with_db db bbs)
      ]

  -- `user` and `is_new` are what `upsert_user_first_seen` returned.
  unfoldable pub admit : User → Bool → InboundMessage → Bbs → Bbs
  admit user is_new inbound bbs =
      let display = text_or user.display_name (text_or inbound.adv_name (take 12 inbound.pubkey)) in
      if user.banned
      then bbs
      else if is_new
      then limited_dispatch user inbound (
          notify_admins (new_user_text display inbound.pubkey) inbound.pubkey
            e.cfg.bbs.admin_pubkeys bbs)
      else limited_dispatch user inbound bbs

  unfoldable pub handle_inbound : InboundMessage → Bbs → Bbs
  handle_inbound inbound bbs =
      let (seen, user, is_new) =
        upsert_user_first_seen bbs.db inbound.pubkey inbound.adv_name now in
      let touched = touch_user seen inbound.pubkey now inbound.hops in
      if str_eq inbound.pubkey (lower e.unicode e.self_pubkey)
      then bbs
      else admit user is_new inbound (with_db touched bbs)

  unfoldable pub record_mesh_activity : Option Text → Bbs → Bbs
  record_mesh_activity none bbs = bbs
  record_mesh_activity (some pubkey) bbs =
      if null pubkey || str_eq (lower e.unicode pubkey) (lower e.unicode e.self_pubkey)
      then bbs
      else with_db (touch_user_activity bbs.db (lower e.unicode pubkey) now).0 bbs
