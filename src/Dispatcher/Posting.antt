-- ===== src/Dispatcher/Posting.antt =====
-- dispatcher.py: the handlers of names and posts.
use meshcore_bbs.Commands.{ParsedCommand}
use meshcore_bbs.Dispatcher.{
  Bbs, Handled, Setting, check_limits, rate_limited_text, reply, reply_written, with_db,
  without_arg,
}
use meshcore_bbs.Onboarding.{try_set_name}
use meshcore_bbs.Prelude.{List, Option, [], if◌then◌else◌, none, null, some, ℕ, ◌∷◌}
use meshcore_bbs.RateLimiter.{RateLimit}
use meshcore_bbs.Services.Boards.{post}
use meshcore_bbs.Text.{Text, lit}

module _ (e : Setting) (now : ℕ) where
  -- `try_set_name`, and its reply.
  abbrev pub reply_name : Text → Option Text → Text → Bbs → Handled
  reply_name pk trigger name bbs =
      let (db, given, text) = try_set_name e.unicode bbs.db now pk name in
      reply e now pk trigger text (with_db db bbs)

  unfoldable pub handle_name : Text → Text → ParsedCommand → Bbs → Handled
  handle_name verb pk parsed bbs = elim parsed.args [
    | [] ↦ reply e now pk (some verb) (lit "! NAME <new>") bbs
    | name ∷ args ↦ reply_name pk (some verb) name bbs
  ]

  abbrev pub post_limits : List (Text × RateLimit)
  post_limits =
      (lit "post_hour", record { limit = e.cfg.limits.post_per_hour; window_seconds = 3600 })
      ∷ (lit "post_day", record { limit = e.cfg.limits.post_per_day; window_seconds = 86400 })
      ∷ []

  abbrev pub post_body : Text → Text → Text → Text → Bbs → Handled
  post_body verb pk slug body bbs =
      if null body
      then reply e now pk (some verb) (lit "! POST <board> <text>") bbs
      else reply_written e now pk (some verb)
          (post e.unicode e.services.max_body_chars bbs.db now slug pk body) bbs

  abbrev pub post_on : Text → Text → Text → Text → Bbs → Handled
  post_on verb pk slug rest bbs =
      let (db, refusal) = check_limits bbs.db now pk post_limits in
      elim refusal [
        | some d ↦ reply e now pk (some verb) (rate_limited_text d) (with_db db bbs)
        | none ↦ post_body verb pk slug (without_arg e.unicode slug rest) (with_db db bbs)
      ]

  unfoldable pub handle_post : Text → Text → ParsedCommand → Bbs → Handled
  handle_post verb pk parsed bbs = elim parsed.args [
    | [] ↦ reply e now pk (some verb) (lit "! POST <board> <text>") bbs
    | slug ∷ args ↦ post_on verb pk slug parsed.rest bbs
  ]
