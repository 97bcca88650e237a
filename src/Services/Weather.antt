-- ===== src/Services/Weather.antt =====
-- services/weather.py: the current conditions, from the cache or from the server.
use meshcore_bbs.Config.{WeatherConfig}
use meshcore_bbs.Db.{Db}
use meshcore_bbs.Db.WeatherCache.{
  get_weather_cache, get_weather_cache-set_weather_cache, set_weather_cache,
}
use meshcore_bbs.Prelude.{
  Bool, List, Option, [], arith, find_row, get_elem?, if◌then◌else◌, ltb, none, or_else, some, ℕ,
  ◌%◌, ◌++◌, ◌+◌, ◌/◌, ◌<◌, ◌==◌, ◌∷◌, ◌≡◌,
}
use meshcore_bbs.Text.{Text, join, lit, strip}
use meshcore_bbs.Text.Decimal.{str}

-- A temperature or a speed as the server sends it, with one decimal place: tenths and a sign.
pub record Tenths : Type 0 where
  pub negative : Bool
  pub tenths : ℕ

-- What `_format_summary` reads of the answer. A missing value is none; the codes, degrees and
-- percentages are whole numbers.
pub record WeatherData : Type 0 where
  pub temperature : Option Tenths
  pub weather_code : Option ℕ
  pub wind_speed : Option Tenths
  pub wind_direction : Option ℕ
  pub precipitation : List (Option ℕ)

-- JSON, whose reader and writer are Python's: none is an exception of the reader or the formatter.
pub record Json : Type 0 where
  pub dumps : WeatherData → Text
  pub loads : Text → Option WeatherData

-- `n / d` rounded to the nearest whole number, and to an even one from the middle.
unfoldable pub round_half_even : ℕ → ℕ → ℕ
round_half_even n d =
    let q = n / d in
    let r = n % d in
    if ltb (r + r) d then q else if ltb d (r + r) then q + 1 else if q % 2 == 0 then q else q + 1

-- `f"{x:.0f}"`.
unfoldable pub fmt_whole : Tenths → Text
fmt_whole x = (if x.negative then lit "-" else []) ++ str (round_half_even x.tenths 10)

-- The icons are written by their code points.
abbrev pub wmo_codes : List (ℕ × Text × Text)
wmo_codes =
    (0, 0x2600 ∷ 0xfe0f ∷ [], lit "clear")
    ∷ (1, 0x1f324 ∷ 0xfe0f ∷ [], lit "mainly clear")
    ∷ (2, 0x26c5 ∷ [], lit "partly cloudy")
    ∷ (3, 0x2601 ∷ 0xfe0f ∷ [], lit "overcast")
    ∷ (45, 0x1f32b ∷ 0xfe0f ∷ [], lit "fog")
    ∷ (48, 0x1f32b ∷ 0xfe0f ∷ [], lit "icy fog")
    ∷ (51, 0x1f326 ∷ 0xfe0f ∷ [], lit "light drizzle")
    ∷ (53, 0x1f326 ∷ 0xfe0f ∷ [], lit "drizzle")
    ∷ (55, 0x1f327 ∷ 0xfe0f ∷ [], lit "heavy drizzle")
    ∷ (61, 0x1f327 ∷ 0xfe0f ∷ [], lit "light rain")
    ∷ (63, 0x1f327 ∷ 0xfe0f ∷ [], lit "rain")
    ∷ (65, 0x1f327 ∷ 0xfe0f ∷ [], lit "heavy rain")
    ∷ (71, 0x1f328 ∷ 0xfe0f ∷ [], lit "light snow")
    ∷ (73, 0x1f328 ∷ 0xfe0f ∷ [], lit "snow")
    ∷ (75, 0x2744 ∷ 0xfe0f ∷ [], lit "heavy snow")
    ∷ (77, 0x1f328 ∷ 0xfe0f ∷ [], lit "snow grains")
    ∷ (80, 0x1f326 ∷ 0xfe0f ∷ [], lit "light showers")
    ∷ (81, 0x1f327 ∷ 0xfe0f ∷ [], lit "showers")
    ∷ (82, 0x26c8 ∷ 0xfe0f ∷ [], lit "heavy showers")
    ∷ (85, 0x1f328 ∷ 0xfe0f ∷ [], lit "snow showers")
    ∷ (86, 0x2744 ∷ 0xfe0f ∷ [], lit "heavy snow showers")
    ∷ (95, 0x26c8 ∷ 0xfe0f ∷ [], lit "thunderstorm")
    ∷ (96, 0x26c8 ∷ 0xfe0f ∷ [], lit "thunderstorm w/hail")
    ∷ (99, 0x26c8 ∷ 0xfe0f ∷ [], lit "thunderstorm w/hail")
    ∷ []

abbrev pub wind_dirs : List Text
wind_dirs = lit "N" ∷ lit "NE" ∷ lit "E" ∷ lit "SE" ∷ lit "S" ∷ lit "SW" ∷ lit "W" ∷ lit "NW" ∷ []

-- `_WIND_DIRS[round(wind_deg / 45) % 8]`.
unfoldable pub compass : ℕ → Text
compass degrees = or_else (get_elem? wind_dirs (round_half_even degrees 45 % 8)) []

abbrev code_part : ℕ → Text
code_part code = elim (find_row (λ row. row.0 == code) wmo_codes) [
  | none ↦ strip (lit " code " ++ str code)
  | some row ↦ strip (row.1 ++ (lit " " ++ row.2))
]

abbrev wind_part : Option Tenths → Option ℕ → List Text
wind_part (some speed) (some degrees) =
    (lit "💨" ++ (compass degrees ++ (lit " " ++ (fmt_whole speed ++ lit "km/h")))) ∷ []
wind_part _ _ = []

abbrev one_part {ℓ} : {A : Type ℓ} → (A → Text) → Option A → List Text
one_part f none = []
one_part f (some a) = f a ∷ []

-- `precip_list[0] if precip_list else None`.
abbrev first_precipitation : List (Option ℕ) → Option ℕ
first_precipitation [] = none
first_precipitation (p ∷ ps) = p

unfoldable pub format_summary : WeatherData → Text → Text
format_summary w location_name = join (lit " ") (
    location_name
    ∷ (one_part code_part w.weather_code
        ++ (one_part (λ t. fmt_whole t ++ lit "°C") w.temperature
            ++ (one_part (λ p. lit "💧" ++ (str p ++ lit "%")) (first_precipitation w.precipitation)
                ++ wind_part w.wind_speed w.wind_direction))))

abbrev pub cache_key : Text
cache_key = lit "obs:default"

-- The part behind the cache: `fetched` is the server's answer, none for an exception.
unfoldable pub fetch_summary : WeatherConfig → Json → Option WeatherData → ℕ → Db → Db × Text
fetch_summary cfg json none now db = (db, lit "! Weather lookup failed.")
fetch_summary cfg json (some w) now db =
    (set_weather_cache db cache_key (json.dumps w) now, format_summary w cfg.location_name)

-- The age is compared without a subtraction: `now - fetched_at < seconds`.
unfoldable pub summary_for : WeatherConfig → Json → Option WeatherData → ℕ → Db → Db × Text
summary_for cfg json fetched now db = elim (get_weather_cache db cache_key) [
  | none ↦ fetch_summary cfg json fetched now db
  | some (payload, fetched_at) ↦
      if ltb now (fetched_at + cfg.cache_observation_seconds)
      then elim (json.loads payload) [
        | some w ↦ (db, format_summary w cfg.location_name)
        | none ↦ fetch_summary cfg json fetched now db
      ]
      else fetch_summary cfg json fetched now db
]

-- If JSON is read as it was written, an answer that was fetched is repeated from the cache, with no
-- other fetch and no change, until the cache has expired.
pub summary_for_cached :
    (cfg : WeatherConfig) (json : Json) (w : WeatherData) (now later : ℕ) (db : Db)
    (fetched : Option WeatherData)
    → json.loads (json.dumps w) ≡ some w
    → later < now + cfg.cache_observation_seconds
    → summary_for cfg json fetched later (fetch_summary cfg json (some w) now db).0
      ≡ fetch_summary cfg json (some w) now db
unfolding summary_for fetch_summary
summary_for_cached cfg json w now later db fetched reads fresh =
    ground (arith, get_weather_cache-set_weather_cache db cache_key (json.dumps w) now)
