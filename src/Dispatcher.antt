-- ===== src/Dispatcher.antt =====
-- dispatcher.py: what is done with a message that comes in. `now` is what the clock reads, in whole
-- seconds; one reading serves the handling of one message.
pub mod Simple
pub mod Mailing
pub mod Posting
pub mod Admins
pub mod Inbound
pub mod Queueing
pub mod Gates
pub mod Banned
pub mod Broadcasts
pub mod Newcomers
pub mod Rights
pub mod Closed
use meshcore_bbs.Config.{Config, ServiceConfig}
use meshcore_bbs.Db.{Db, Error, Result, err, ok, value_error}
use meshcore_bbs.Db.Outbound.{enqueue_outbound, outbound_pending_depth}
use meshcore_bbs.Format.{default_packet_bytes, split_packets}
use meshcore_bbs.Models.{notification, response}
use meshcore_bbs.Prelude.{
  List, Option, [], drop, false, get_elem?, if◌then◌else◌, leb, length, ltb, map, none, not, some,
  take, true, ℕ, ◌%◌, ◌&&◌, ◌++◌, ◌/◌, ◌==◌, ◌∷◌,
}
use meshcore_bbs.RateLimiter.{Decision, RateLimit, check_and_consume}
use meshcore_bbs.Services.Admin.{PendingBroadcast}
use meshcore_bbs.Services.Weather.{Json, WeatherData}
use meshcore_bbs.Text.{Text, Unicode, is_digit, join, lit, lower, parse_int, starts_with, strip}
use meshcore_bbs.Text.Decimal.{str}

abbrev pub priority_normal : ℕ
priority_normal = 10

abbrev pub priority_notification : ℕ
priority_notification = 1

-- The database, what the services keep in memory, and the flood adverts handed to the radio.
pub record Bbs : Type 0 where
  pub db : Db
  pub staged : List (Text × PendingBroadcast)
  pub notified : List (Text × ℕ)
  pub adverts : ℕ

-- What the dispatcher is given: its configuration, the one that the services were made with, the
-- installed version, and the answers from outside (the weather's server and the radio's paths).
pub record Setting : Type 0 where
  pub unicode : Unicode
  pub cfg : Config
  pub services : ServiceConfig
  pub self_pubkey : Text
  pub started_at : ℕ
  pub version : Text
  pub json : Json
  pub fetched : Option WeatherData
  pub resolve_inbound_path : Text → List Text

-- Where a handler ends: the exception that it raises, if any.
abbrev pub Handled : Type 0
Handled = Bbs × Option Error

-- The loop over the packets.
unfoldable pub enqueue_packets : ℕ → Text → ℕ → Option Text → List Text → Db → Db
enqueue_packets now pk priority trigger [] db = db
enqueue_packets now pk priority trigger (p ∷ packets) db =
    enqueue_packets now pk priority trigger packets
      (enqueue_outbound db pk p now priority trigger
        (if ltb priority priority_normal then notification else response)).0

-- `_enqueue_reply` on the database.
unfoldable pub enqueue_reply : ℕ → ℕ → Db → Text → Text → ℕ → Option Text → Db
enqueue_reply max_depth now db pk text priority trigger =
    if leb max_depth (outbound_pending_depth db) && ltb priority priority_normal
    then db
    else enqueue_packets now pk priority trigger (split_packets text default_packet_bytes) db

-- `self._enqueue_reply(pk, text, priority, trigger_command=trigger)`.
unfoldable pub enqueue : Setting → ℕ → Text → Text → ℕ → Option Text → Bbs → Bbs
enqueue e now pk text priority trigger bbs = record bbs {
  db = enqueue_reply e.cfg.limits.outbound_queue_max_depth now bbs.db pk text priority trigger;
}

-- A reply at the usual priority, at the end of a handler.
abbrev pub reply : Setting → ℕ → Text → Option Text → Text → Bbs → Handled
reply e now pk trigger text bbs = (enqueue e now pk text priority_normal trigger bbs, none)

-- A reply with a text that may raise.
abbrev pub reply_result : Setting → ℕ → Text → Option Text → Result Text → Bbs → Handled
reply_result e now pk trigger (ok text) bbs = reply e now pk trigger text bbs
reply_result e now pk trigger (err error) bbs = (bbs, some error)

abbrev pub with_db : Db → Bbs → Bbs
with_db db bbs = record bbs { db = db }

-- A reply with the text of an operation on the database, which may raise.
abbrev pub reply_written : Setting → ℕ → Text → Option Text → Result (Db × Text) → Bbs → Handled
reply_written e now pk trigger (ok (db, text)) bbs = reply e now pk trigger text (with_db db bbs)
reply_written e now pk trigger (err error) bbs = (bbs, some error)

-- The loops over the rate limits: the first refusal, if any. An allowed request is counted in the
-- windows before the refusal.
unfoldable pub check_limits : Db → ℕ → Text → List (Text × RateLimit) → Db × Option Decision
check_limits db now pk [] = (db, none)
check_limits db now pk ((bucket, limit) ∷ limits) =
    elim (check_and_consume db now pk bucket limit).1.allowed [
      | true ↦ check_limits (check_and_consume db now pk bucket limit).0 now pk limits
      | false ↦ (
        (check_and_consume db now pk bucket limit).0,
        some (check_and_consume db now pk bucket limit).1,
      )
    ]

abbrev pub rate_limited_text : Decision → Text
rate_limited_text d = lit "! Rate limited. Try again in " ++ (str d.retry_in_seconds ++ lit "s.")

-- `int(text)` of digits.
abbrev pub int_of : Unicode → Text → Result ℕ
int_of u text = elim (parse_int u 0 text) [ none ↦ err value_error | some n ↦ ok n ]

-- `_maybe_int(args, idx, default)`.
unfoldable pub maybe_int : Unicode → List Text → ℕ → ℕ → Result ℕ
maybe_int u args idx default = elim (get_elem? args idx) [
  | none ↦ ok default
  | some a ↦ if is_digit u a then int_of u a else ok default
]

-- `_fmt_path(path)`; `truncate`d at 16 characters without an ellipsis.
unfoldable pub fmt_path : List Text → Text
fmt_path path = join (lit " → ") (map (take 16) path)

-- `_hop_multiplier(hops)`.
unfoldable pub hop_multiplier : Option ℕ → ℕ
hop_multiplier none = 4
hop_multiplier (some hops) = if hops == 1 then 4 else if hops == 2 then 2 else 1

-- `_fmt_age(secs)`; an age below 0, which is 0 here, is "just now" too.
unfoldable pub fmt_age : ℕ → Text
fmt_age secs =
    if ltb secs 120
    then lit "just now"
    else if ltb secs 3600
    then str (secs / 60) ++ lit "min ago"
    else if ltb secs 86400
    then str (secs / 3600) ++ lit "h ago"
    else str (secs / 86400) ++ lit "d ago"

-- `_fmt_uptime(secs)`.
unfoldable pub fmt_uptime : ℕ → Text
fmt_uptime secs =
    let days = secs / 86400 in
    let hours = (secs % 86400) / 3600 in
    let mins = ((secs % 86400) % 3600) / 60 in
    if not (days == 0)
    then str days ++ (lit "d" ++ (str hours ++ lit "h"))
    else if not (hours == 0)
    then str hours ++ (lit "h" ++ (str mins ++ lit "m"))
    else str mins ++ lit "m"

-- `body` without the argument in front: `body[len(arg):].strip()` where `body` starts with `arg`.
unfoldable pub without_arg : Unicode → Text → Text → Text
without_arg u arg body =
    if starts_with (lower u body) (lower u arg) then strip (drop (length arg) body) else body
