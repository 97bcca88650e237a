-- ===== src/Db/RateWindows.antt =====
-- The section `rate limit` of db.py.
use meshcore_bbs.Db.{Db, RateWindow}
use meshcore_bbs.Prelude.{
  Bool, List, Option, [], arith, find_row, if◌then◌else◌, none, some, ℕ, ◌&&◌, ◌∷◌, ◌≡◌,
}
use meshcore_bbs.Text.{Text, str_eq}
use meshcore_bbs.Text.Laws.{str_eq_iff}

abbrev pub is_window : Text → Text → RateWindow → Bool
is_window pk bucket w = str_eq w.pubkey pk && str_eq w.bucket bucket

unfoldable pub get_rate_window : Db → Text → Text → Option (ℕ × ℕ)
get_rate_window db pk bucket = elim (find_row (is_window pk bucket) db.rate_limits) [
  | none ↦ none
  | some w ↦ some (w.window_start, w.count)
]

-- `INSERT … ON CONFLICT(pubkey, bucket) DO UPDATE`.
put_window : Text → Text → ℕ → ℕ → List RateWindow → List RateWindow
put_window pk bucket start n [] =
    record { pubkey = pk; bucket = bucket; window_start = start; count = n } ∷ []
put_window pk bucket start n (w ∷ ws) =
    if is_window pk bucket w
    then record w { window_start = start; count = n } ∷ ws
    else w ∷ put_window pk bucket start n ws

unfoldable pub set_rate_window : Db → Text → Text → ℕ → ℕ → Db
unfolding put_window
set_rate_window db pk bucket start n = record db {
  rate_limits = put_window pk bucket start n db.rate_limits;
}

window_of : Option RateWindow → Option (ℕ × ℕ)
window_of none = none
window_of (some w) = some (w.window_start, w.count)

find-put_window :
    (pk bucket : Text) (start n : ℕ) (pk' bucket' : Text) (ws : List RateWindow)
    → window_of (find_row (is_window pk' bucket') (put_window pk bucket start n ws)) ≡ (
        if str_eq pk pk' && str_eq bucket bucket'
        then some (start, n)
        else window_of (find_row (is_window pk' bucket') ws))
unfolding put_window window_of
find-put_window pk bucket start n pk' bucket' [] = ground arith
find-put_window pk bucket start n pk' bucket' (w ∷ ws) = ground (
  arith,
  str_eq_iff pk pk',
  str_eq_iff bucket bucket',
  str_eq_iff w.pubkey pk,
  str_eq_iff w.pubkey pk',
  str_eq_iff w.bucket bucket,
  str_eq_iff w.bucket bucket',
  find-put_window pk bucket start n pk' bucket' ws,
)

-- A window that is read after a write is the one written, for its key, and else the old one.
pub get_rate_window-set_rate_window :
    (db : Db) (pk bucket : Text) (start n : ℕ) (pk' bucket' : Text)
    → get_rate_window (set_rate_window db pk bucket start n) pk' bucket' ≡ (
        if str_eq pk pk' && str_eq bucket bucket'
        then some (start, n)
        else get_rate_window db pk' bucket')
unfolding get_rate_window set_rate_window window_of
get_rate_window-set_rate_window db pk bucket start n pk' bucket' =
    ground (arith, find-put_window pk bucket start n pk' bucket' db.rate_limits)
