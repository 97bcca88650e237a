-- ===== src/RateLimiter/Window.antt =====
-- What `check_and_consume` does to the window of its own key, and to the others.
use meshcore_bbs.Db.{Db}
use meshcore_bbs.Db.RateWindows.{get_rate_window, get_rate_window-set_rate_window}
use meshcore_bbs.Prelude.{
  Bool, Option, Option-cases, arith, false, if◌then◌else◌, inl, inr, leb, ltb, none, not, some,
  true, ℕ, ◌&&◌, ◌+◌, ◌||◌, ◌≡◌, ◌≤◌,
}
use meshcore_bbs.RateLimiter.{RateLimit, check_and_consume}
use meshcore_bbs.Text.{Text, str_eq}
use meshcore_bbs.Text.Laws.{str_eq_iff}

-- The window of one key after a request.
unfoldable pub consume : Option (ℕ × ℕ) → ℕ → RateLimit → Option (ℕ × ℕ)
consume none now limit = some (now, 1)
consume (some (start, n)) now limit =
    if leb (start + limit.window_seconds) now
    then some (now, 1)
    else if ltb limit.limit (n + 1)
    then some (start, n)
    else some (start, n + 1)

-- Whether the request is allowed.
unfoldable pub allows : Option (ℕ × ℕ) → ℕ → RateLimit → Bool
allows none now limit = true
allows (some (start, n)) now limit =
    leb (start + limit.window_seconds) now || not (ltb limit.limit (n + 1))

module _ (db : Db) (now : ℕ) (pk bucket : Text) (limit : RateLimit) where
  pub check_and_consume-allowed :
      (check_and_consume db now pk bucket limit).1.allowed
      ≡ allows (get_rate_window db pk bucket) now limit
  unfolding check_and_consume allows
  check_and_consume-allowed = ground arith

  -- A request moves the window of its own key as `consume` says, and no other window.
  pub get_rate_window-check_and_consume :
      (pk' bucket' : Text)
      → get_rate_window (check_and_consume db now pk bucket limit).0 pk' bucket' ≡ (
          if str_eq pk pk' && str_eq bucket bucket'
          then consume (get_rate_window db pk bucket) now limit
          else get_rate_window db pk' bucket')
  unfolding check_and_consume consume
  get_rate_window-check_and_consume pk' bucket' =
      elim (Option-cases (get_rate_window db pk bucket)) [
        | inl e ↦ ground (arith, get_rate_window-set_rate_window db pk bucket now 1 pk' bucket')
        | inr (w, e) ↦ ground (
          arith,
          str_eq_iff pk pk',
          str_eq_iff bucket bucket',
          get_rate_window-set_rate_window db pk bucket now 1 pk' bucket',
          get_rate_window-set_rate_window db pk bucket w.0 (w.1 + 1) pk' bucket',
        )
      ]

  -- A request that is refused changes nothing, and is told to wait between one second and the
  -- length of the window, if the clock has not been set back since the window began.
  pub check_and_consume_refused :
      (check_and_consume db now pk bucket limit).1.allowed ≡ false
      → (check_and_consume db now pk bucket limit).0 ≡ db
  unfolding check_and_consume
  check_and_consume_refused h = ground arith

  -- A refused request changes nothing and is told to wait at least a second, and one made after
  -- that wait is allowed, whatever the limit.
  pub check_and_consume_retry :
      (later : ℕ)
      → (check_and_consume db now pk bucket limit).1.allowed ≡ false
      → now + (check_and_consume db now pk bucket limit).1.retry_in_seconds ≤ later
      → ((check_and_consume db now pk bucket limit).0 ≡ db)
        × (1 ≤ (check_and_consume db now pk bucket limit).1.retry_in_seconds)
        × ((check_and_consume db later pk bucket limit).1.allowed ≡ true)
  unfolding check_and_consume
  check_and_consume_retry later h wait = (ground arith, ground arith, ground arith)
