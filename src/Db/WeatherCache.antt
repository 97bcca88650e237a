-- ===== src/Db/WeatherCache.antt =====
-- The section `weather cache` of db.py.
use meshcore_bbs.Db.{CachedWeather, Db}
use meshcore_bbs.Prelude.{List, Option, [], arith, find_row, if◌then◌else◌, none, some, ℕ, ◌∷◌, ◌≡◌}
use meshcore_bbs.Text.{Text, str_eq}
use meshcore_bbs.Text.Laws.{str_eq_refl}

unfoldable pub get_weather_cache : Db → Text → Option (Text × ℕ)
get_weather_cache db key = elim (find_row (λ c. str_eq c.location_key key) db.weather_cache) [
  | none ↦ none
  | some c ↦ some (c.payload, c.fetched_at)
]

-- `INSERT … ON CONFLICT(location_key) DO UPDATE`.
put_cached : Text → Text → ℕ → List CachedWeather → List CachedWeather
put_cached key payload now [] =
    record { location_key = key; payload = payload; fetched_at = now } ∷ []
put_cached key payload now (c ∷ cs) =
    if str_eq c.location_key key
    then record c { payload = payload; fetched_at = now } ∷ cs
    else c ∷ put_cached key payload now cs

unfoldable pub set_weather_cache : Db → Text → Text → ℕ → Db
unfolding put_cached
set_weather_cache db key payload now = record db {
  weather_cache = put_cached key payload now db.weather_cache;
}

cached_of : Option CachedWeather → Option (Text × ℕ)
cached_of none = none
cached_of (some c) = some (c.payload, c.fetched_at)

find-put_cached :
    (key payload : Text) (now : ℕ) (cs : List CachedWeather)
    → cached_of (find_row (λ c. str_eq c.location_key key) (put_cached key payload now cs))
      ≡ some (payload, now)
unfolding put_cached cached_of
find-put_cached key payload now [] = ground (arith, str_eq_refl key)
find-put_cached key payload now (c ∷ cs) = ground (arith, find-put_cached key payload now cs)

-- What is read after a write is what was written.
pub get_weather_cache-set_weather_cache :
    (db : Db) (key payload : Text) (now : ℕ)
    → get_weather_cache (set_weather_cache db key payload now) key ≡ some (payload, now)
unfolding get_weather_cache set_weather_cache cached_of
get_weather_cache-set_weather_cache db key payload now =
    ground (arith, find-put_cached key payload now db.weather_cache)
