-- ===== src/RateLimiter/Bounds.antt =====
-- How many requests the limiter lets through.
use native.Mathlib.Nat.{le_trans}
use meshcore_bbs.Db.{Db}
use meshcore_bbs.Db.RateWindows.{get_rate_window}
use meshcore_bbs.Prelude.{
  All, Bool, List, Option, [], arith, if◌then◌else◌, inl, inr, leb, none, some, true, ℕ, ◌&&◌, ◌*◌,
  ◌+◌, ◌-◌, ◌<◌, ◌∷◌, ◌≡◌, ◌≤◌, ◌⊎◌,
}
use meshcore_bbs.RateLimiter.{RateLimit, check_and_consume}
use meshcore_bbs.RateLimiter.Window.{
  allows, check_and_consume-allowed, consume, get_rate_window-check_and_consume,
}
use meshcore_bbs.Text.{Text, str_eq}
use meshcore_bbs.Text.Laws.{str_eq_iff}

-- A call of `check_and_consume`.
pub record Request : Type 0 where
  pub pubkey : Text
  pub bucket : Text
  pub limit : RateLimit
  pub now : ℕ

-- The database after some requests, one after the other.
unfoldable pub serve : Db → List Request → Db
serve db [] = db
serve db (r ∷ rs) = serve (check_and_consume db r.now r.pubkey r.bucket r.limit).0 rs

abbrev is_for : Text → Text → Request → Bool
is_for pk bucket r = str_eq r.pubkey pk && str_eq r.bucket bucket

-- How many of the requests for one key are allowed.
unfoldable pub count_allowed : Db → Text → Text → List Request → ℕ
count_allowed db pk bucket [] = 0
count_allowed db pk bucket (r ∷ rs) =
    (if is_for pk bucket r && (check_and_consume db r.now r.pubkey r.bucket r.limit).1.allowed
      then 1
      else 0)
    + count_allowed (check_and_consume db r.now r.pubkey r.bucket r.limit).0 pk bucket rs

-- A request for the key in the interval of length `window` from `since` on, under a limit of at
-- most `most`. Requests for other keys are free.
abbrev pub IsWithin : Text → Text → ℕ → ℕ → ℕ → Request → Type 0
IsWithin pk bucket since window most r =
    is_for pk bucket r ≡ true
    → (since ≤ r.now)
      × (r.now < since + window)
      × (r.limit.window_seconds ≡ window)
      × (r.limit.limit ≤ most)

-- What a window leaves for the interval: after a window that began in it there is no other.
room : ℕ → ℕ → Option (ℕ × ℕ) → ℕ
room since most none = most
room since most (some (start, n)) = if leb since start then most - n else (most - n) + most

room_of :
    (since window most now : ℕ) (limit : RateLimit) (w : Option (ℕ × ℕ))
    → 1 ≤ most
    → since ≤ now
    → now < since + window
    → limit.window_seconds ≡ window
    → limit.limit ≤ most
    → (if allows w now limit then 1 else 0) + room since most (consume w now limit)
      ≤ room since most w
unfolding room consume allows
room_of since window most now limit none p a b c d = ground arith
room_of since window most now limit (some (start, n)) p a b c d = ground arith

count_allowed-le-room :
    (db : Db) (pk bucket : Text) (since window most : ℕ) (rs : List Request)
    → 1 ≤ most
    → All (IsWithin pk bucket since window most) rs
    → count_allowed db pk bucket rs ≤ room since most (get_rate_window db pk bucket)
unfolding count_allowed
count_allowed-le-room db pk bucket since window most [] p h = omega arith
count_allowed-le-room db pk bucket since window most (r ∷ rs) p h = ground (
  arith,
  h.0,
  check_and_consume-allowed db r.now r.pubkey r.bucket r.limit,
  get_rate_window-check_and_consume db r.now r.pubkey r.bucket r.limit pk bucket,
  room_of since window most r.now r.limit (get_rate_window db pk bucket) p,
  str_eq_iff r.pubkey pk,
  str_eq_iff r.bucket bucket,
  count_allowed-le-room (check_and_consume db r.now r.pubkey r.bucket r.limit).0 pk bucket since
      window most rs p h.1,
)

room-le : (since most : ℕ) (w : Option (ℕ × ℕ)) → room since most w ≤ most + most
unfolding room
room-le since most none = omega arith
room-le since most (some (start, n)) = ground arith

-- In no interval as long as the window are more than twice `most` requests of a key allowed,
-- whatever the requests of other keys between them, if each limit of the key is at most `most`,
-- which is at least one.
pub count_allowed-le-double :
    (db : Db) (pk bucket : Text) (since window most : ℕ) (rs : List Request)
    → 1 ≤ most
    → All (IsWithin pk bucket since window most) rs
    → count_allowed db pk bucket rs ≤ 2 * most
count_allowed-le-double db pk bucket since window most rs p h = omega (
  arith,
  count_allowed-le-room db pk bucket since window most rs p h,
  room-le since most (get_rate_window db pk bucket),
)

-- In an interval that begins with the window of the key, or where the key has no window yet, at
-- most `most` of its requests are allowed, if each limit is at most `most`, which is at least one.
pub count_allowed-le :
    (db : Db) (pk bucket : Text) (since window most : ℕ) (rs : List Request)
    → 1 ≤ most
    → (get_rate_window db pk bucket ≡ none)
      ⊎ ((n : ℕ) × (get_rate_window db pk bucket ≡ some (since, n)))
    → All (IsWithin pk bucket since window most) rs
    → count_allowed db pk bucket rs ≤ most
count_allowed-le db pk bucket since window most rs p (inl fresh) h =
    le_trans (count_allowed-le-room db pk bucket since window most rs p h)
      (rw fresh (unfold room in omega arith))
count_allowed-le db pk bucket since window most rs p (inr (n, begun)) h =
    le_trans (count_allowed-le-room db pk bucket since window most rs p h)
      (rw begun (unfold room in ground arith))
