-- ===== src/RateLimiter/Refinement.antt =====
-- The limiter as a function from keys to windows, of which the table is one representation.
use meshcore_bbs.Db.{Db}
use meshcore_bbs.Db.RateWindows.{get_rate_window}
use meshcore_bbs.Prelude.{
  Bool, List, Option, [], ap, ap₂, arith, if◌then◌else◌, refl, ℕ, ◌&&◌, ◌∙◌, ◌∷◌, ◌≡◌,
}
use meshcore_bbs.RateLimiter.{check_and_consume}
use meshcore_bbs.RateLimiter.Bounds.{Request, serve}
use meshcore_bbs.RateLimiter.Window.{
  allows, check_and_consume-allowed, consume, get_rate_window-check_and_consume,
}
use meshcore_bbs.Text.{Text, str_eq}

abbrev pub Windows : Type 0
Windows = Text → Text → Option (ℕ × ℕ)

-- The windows after a request.
unfoldable pub moved : Windows → Request → Windows
moved windows r pk bucket =
    if str_eq r.pubkey pk && str_eq r.bucket bucket
    then consume (windows r.pubkey r.bucket) r.now r.limit
    else windows pk bucket

unfoldable pub moved_all : Windows → List Request → Windows
moved_all windows [] = windows
moved_all windows (r ∷ rs) = moved_all (moved windows r) rs

-- What the requests are answered by the function, one after the other.
unfoldable pub expected : Windows → List Request → List Bool
expected windows [] = []
expected windows (r ∷ rs) =
    allows (windows r.pubkey r.bucket) r.now r.limit ∷ expected (moved windows r) rs

-- What they are answered by the limiter on the table.
unfoldable pub answers : Db → List Request → List Bool
answers db [] = []
answers db (r ∷ rs) =
    (check_and_consume db r.now r.pubkey r.bucket r.limit).1.allowed
    ∷ answers (check_and_consume db r.now r.pubkey r.bucket r.limit).0 rs

-- The table shows the windows.
Shows : Db → Windows → Type 0
Shows db windows = (pk bucket : Text) → get_rate_window db pk bucket ≡ windows pk bucket

Shows-moved :
    (db : Db) (windows : Windows) (r : Request)
    → Shows db windows
    → Shows (check_and_consume db r.now r.pubkey r.bucket r.limit).0 (moved windows r)
unfolding Shows moved
Shows-moved db windows r shows pk bucket = ground (
  arith,
  get_rate_window-check_and_consume db r.now r.pubkey r.bucket r.limit pk bucket,
  shows r.pubkey r.bucket,
  shows pk bucket,
)

answers-expected :
    (rs : List Request) (db : Db) (windows : Windows)
    → Shows db windows
    → (answers db rs ≡ expected windows rs) × Shows (serve db rs) (moved_all windows rs)
unfolding answers expected serve moved_all Shows
answers-expected [] db windows shows = (refl, shows)
answers-expected (r ∷ rs) db windows shows =
    let next = (check_and_consume db r.now r.pubkey r.bucket r.limit).0 in
    let rest = answers-expected rs next (moved windows r) (Shows-moved db windows r shows) in
    let first : (check_and_consume db r.now r.pubkey r.bucket r.limit).1.allowed
        ≡ allows (windows r.pubkey r.bucket) r.now r.limit =
      check_and_consume-allowed db r.now r.pubkey r.bucket r.limit
      ∙ ap (λ w. allows w r.now r.limit) (shows r.pubkey r.bucket) in
    (ap₂ (λ b bs. b ∷ bs) first rest.0, rest.1)

-- The limiter on the table refines the function: it answers every run of requests as the function
-- does that starts from the windows of the table, and shows the function's windows at the end.
pub serve_refines :
    (rs : List Request) (db : Db)
    → (answers db rs ≡ expected (get_rate_window db) rs)
      × ((pk bucket : Text)
          → get_rate_window (serve db rs) pk bucket ≡ moved_all (get_rate_window db) rs pk bucket)
unfolding Shows
serve_refines rs db = answers-expected rs db (get_rate_window db) (λ pk bucket. refl)
