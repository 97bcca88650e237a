-- ===== src/Dispatcher/Closed/Services.antt =====
-- The services and the queue, as far as the commands of ordinary users use them.
use meshcore_bbs.Config.{WeatherConfig}
use meshcore_bbs.Db.{Db, ok}
use meshcore_bbs.Db.Audit.{audit}
use meshcore_bbs.Db.Outbound.{enqueue_outbound, outbound_pending_depth}
use meshcore_bbs.Db.Users.{set_display_name}
use meshcore_bbs.Dispatcher.{
  Bbs, Setting, check_limits, enqueue, enqueue_packets, enqueue_reply, priority_normal,
}
use meshcore_bbs.Dispatcher.Closed.{
  Keeps, KeepsDb, Operations, then_unchanged, unchanged, with_db-Keeps,
}
use meshcore_bbs.Format.{default_packet_bytes, split_packets}
use meshcore_bbs.Models.{User, notification, response}
use meshcore_bbs.Onboarding.{try_set_name}
use meshcore_bbs.Prelude.{
  Bool-cases, List, Option, [], arith, if◌then◌else◌, inl, inr, leb, ltb, none, some, ℕ, ◌&&◌, ◌++◌,
  ◌∷◌, ◌≡◌,
}
use meshcore_bbs.RateLimiter.{RateLimit, check_and_consume}
use meshcore_bbs.Services.Boards.{post}
use meshcore_bbs.Services.Mails.{delete_mail_text, read_mail, send}
use meshcore_bbs.Services.Weather.{Json, WeatherData, fetch_summary, summary_for}
use meshcore_bbs.Text.{Text, Unicode, lit}

module _ (P : Bbs → Type 0) (u : Unicode) (o : Operations u P) where
  enqueue_packets-KeepsDb :
      (now : ℕ) (pk : Text) (priority : ℕ) (trigger : Option Text) (packets : List Text) (db : Db)
      → KeepsDb P db (enqueue_packets now pk priority trigger packets db)
  unfolding enqueue_packets
  enqueue_packets-KeepsDb now pk priority trigger [] db = unchanged db
  enqueue_packets-KeepsDb now pk priority trigger (p ∷ packets) db =
      let kind = if ltb priority priority_normal then notification else response in
      then_unchanged (o.enqueue_outbound_kept db pk p now priority trigger kind) (
        enqueue_packets-KeepsDb now pk priority trigger packets
          (enqueue_outbound db pk p now priority trigger kind).0)

  enqueue_reply-KeepsDb :
      (max_depth now : ℕ) (db : Db) (pk text : Text) (priority : ℕ) (trigger : Option Text)
      → KeepsDb P db (enqueue_reply max_depth now db pk text priority trigger)
  unfolding enqueue_reply
  enqueue_reply-KeepsDb max_depth now db pk text priority trigger =
      elim (Bool-cases
        (leb max_depth (outbound_pending_depth db) && ltb priority priority_normal)) [
          | inl full ↦ rw full (unchanged db)
          | inr free ↦ rw free (
              enqueue_packets-KeepsDb now pk priority trigger
                (split_packets text default_packet_bytes) db)
        ]

  pub check_and_consume-KeepsDb :
      (db : Db) (now : ℕ) (pk bucket : Text) (limit : RateLimit)
      → KeepsDb P db (check_and_consume db now pk bucket limit).0
  unfolding check_and_consume
  check_and_consume-KeepsDb db now pk bucket limit =
      grind (arith, unchanged, o.set_rate_window_kept)

  pub check_limits-KeepsDb :
      (db : Db) (now : ℕ) (pk : Text) (limits : List (Text × RateLimit))
      → KeepsDb P db (check_limits db now pk limits).0
  unfolding check_limits
  check_limits-KeepsDb db now pk [] = unchanged db
  check_limits-KeepsDb db now pk ((bucket, limit) ∷ limits) =
      let step = check_and_consume-KeepsDb db now pk bucket limit in
      let rest =
        then_unchanged step
          (check_limits-KeepsDb (check_and_consume db now pk bucket limit).0 now pk limits) in
      grind (arith, step, rest)

  pub try_set_name-KeepsDb :
      (db : Db) (now : ℕ) (pk name : Text) → KeepsDb P db (try_set_name u db now pk name).0
  unfolding try_set_name
  try_set_name-KeepsDb db now pk name =
      let named = set_display_name u db pk name in
      let audited = audit named.0 now (some pk) (lit "onboarded") (lit "name=" ++ name) in
      let greeted = then_unchanged (o.set_display_name_kept db pk name) (
        then_unchanged (o.audit_kept named.0 now (some pk) (lit "onboarded") (lit "name=" ++ name))
          (o.mark_motd_sent_kept audited pk)) in
      grind (arith, unchanged, greeted)

  pub post-KeepsDb :
      (max_chars : ℕ) (db : Db) (now : ℕ) (slug author body : Text) (after : Db × Text)
      → post u max_chars db now slug author body ≡ ok after
      → KeepsDb P db after.0
  unfolding post
  post-KeepsDb max_chars db now slug author body after h = grind (arith, unchanged, o.add_post_kept)

  pub read_mail-KeepsDb :
      (db : Db) (now : ℕ) (pk : Text) (mail_id : ℕ) (after : Db × Text)
      → read_mail db now pk mail_id ≡ ok after
      → KeepsDb P db after.0
  unfolding read_mail
  read_mail-KeepsDb db now pk mail_id after h = grind (arith, unchanged, o.mark_mail_read_kept)

  pub delete_mail_text-KeepsDb :
      (db : Db) (pk : Text) (mail_id : ℕ) (after : Db × Text)
      → delete_mail_text db pk mail_id ≡ ok after
      → KeepsDb P db after.0
  unfolding delete_mail_text
  delete_mail_text-KeepsDb db pk mail_id after h = grind (arith, o.delete_mail_kept)

  pub send-KeepsDb :
      (max_chars : ℕ) (db : Db) (now : ℕ) (from_pk recipient_id body : Text)
      (after : Db × Text × Option User)
      → send u max_chars db now from_pk recipient_id body ≡ ok after
      → KeepsDb P db after.0
  unfolding send
  send-KeepsDb max_chars db now from_pk recipient_id body after h =
      grind (arith, unchanged, o.add_mail_kept)

  pub summary_for-KeepsDb :
      (cfg : WeatherConfig) (json : Json) (fetched : Option WeatherData) (now : ℕ) (db : Db)
      → KeepsDb P db (summary_for cfg json fetched now db).0
  unfolding summary_for fetch_summary
  summary_for-KeepsDb cfg json none now db = grind (arith, unchanged)
  summary_for-KeepsDb cfg json (some w) now db = grind (arith, unchanged, o.set_weather_cache_kept)

  pub enqueue-Keeps :
      (e : Setting) (now : ℕ) (pk text : Text) (priority : ℕ) (trigger : Option Text) (bbs : Bbs)
      → Keeps P bbs (enqueue e now pk text priority trigger bbs)
  unfolding enqueue
  enqueue-Keeps e now pk text priority trigger bbs = with_db-Keeps _ bbs (
      enqueue_reply-KeepsDb e.cfg.limits.outbound_queue_max_depth now bbs.db pk text priority
        trigger)
