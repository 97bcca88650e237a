-- ===== src/RateLimiter.antt =====
-- rate_limit.py. `now` is what `int(time.time())` reads.
pub mod Window
pub mod Bounds
pub mod Refinement
use meshcore_bbs.Db.{Db}
use meshcore_bbs.Db.RateWindows.{get_rate_window, set_rate_window}
use meshcore_bbs.Prelude.{Bool, false, if◌then◌else◌, leb, ltb, max, none, some, true, ℕ, ◌+◌, ◌-◌}
use meshcore_bbs.Text.{Text}

pub record RateLimit : Type 0 where
  pub limit : ℕ
  pub window_seconds : ℕ

pub record Decision : Type 0 where
  pub allowed : Bool
  pub retry_in_seconds : ℕ

abbrev pub allow : Decision
allow = record { allowed = true; retry_in_seconds = 0 }

-- The two tests on the clock are written without a subtraction: `now - window_start >= w` as
-- `window_start + w <= now`, which is the same also where the clock has been set back.
unfoldable pub check_and_consume : Db → ℕ → Text → Text → RateLimit → Db × Decision
check_and_consume db now pubkey bucket limit = elim (get_rate_window db pubkey bucket) [
  | none ↦ (set_rate_window db pubkey bucket now 1, allow)
  | some (window_start, n) ↦
      if leb (window_start + limit.window_seconds) now
      then (set_rate_window db pubkey bucket now 1, allow)
      else if ltb limit.limit (n + 1)
      then (
        db,
        record {
          allowed = false;
          retry_in_seconds = max 1 (limit.window_seconds + window_start - now);
        },
      )
      else (set_rate_window db pubkey bucket window_start (n + 1), allow)
]
