-- ===== src/Db.antt =====
-- db.py: the tables of the database. Each table is the list of its rows, in the order in which
-- they were inserted; a counter holds the next id of an AUTOINCREMENT column. The operations stand
-- in the modules below this one, a module for each section of db.py.
pub mod Users
pub mod Boards
pub mod Mails
pub mod RateWindows
pub mod Audit
pub mod Outbound
pub mod News
pub mod WeatherCache
use meshcore_bbs.Models.{Board, BoardPost, Mail, NewsItem, OutboundMessage, User}
use meshcore_bbs.Prelude.{Bool, List, Option, [], if◌then◌else◌, ltb, ℕ, ◌^◌}
use meshcore_bbs.Text.{Text}

pub record RateWindow : Type 0 where
  pub pubkey : Text
  pub bucket : Text
  pub window_start : ℕ
  pub count : ℕ

pub record AuditEntry : Type 0 where
  pub ts : ℕ
  pub actor_pubkey : Option Text
  pub action : Text
  pub detail : Text

pub record Pause : Type 0 where
  pub pubkey : Text
  pub paused_until : ℕ

pub record NewsFeed : Type 0 where
  pub id : ℕ
  pub slug : Text
  pub url : Text
  pub enabled : Bool

pub record CachedWeather : Type 0 where
  pub location_key : Text
  pub payload : Text
  pub fetched_at : ℕ

pub record Db : Type 0 where
  pub users : List User
  pub boards : List Board
  pub board_posts : List BoardPost
  pub next_post : ℕ
  pub mail : List Mail
  pub next_mail : ℕ
  pub rate_limits : List RateWindow
  pub audit_log : List AuditEntry
  pub outbound_queue : List OutboundMessage
  pub next_outbound : ℕ
  pub outbound_pause : List Pause
  pub news_feeds : List NewsFeed
  pub next_feed : ℕ
  pub news_items : List NewsItem
  pub next_item : ℕ
  pub weather_cache : List CachedWeather

-- What the schema makes of a new file.
abbrev pub empty_db : Db
empty_db = record {
  users = [];
  boards = [];
  board_posts = [];
  next_post = 1;
  mail = [];
  next_mail = 1;
  rate_limits = [];
  audit_log = [];
  outbound_queue = [];
  next_outbound = 1;
  outbound_pause = [];
  news_feeds = [];
  next_feed = 1;
  news_items = [];
  next_item = 1;
  weather_cache = [];
}

-- The exceptions that an operation may end in: a broken constraint, an integer that SQLite cannot
-- hold, a text that `int` does not read, a method that an object does not have, a place in a file
-- that is none, and a radio that does not start.
pub data Error : Type 0 where
  integrity_error overflow_error value_error attribute_error os_error runtime_error : Error

pub data Result {ℓ} (A : Type ℓ) : Type ℓ where
  ok : A → Result A
  err : Error → Result A

-- Binding a parameter: SQLite's integers are below 2 ^ 63.
abbrev pub sql_int {ℓ} : {A : Type ℓ} → ℕ → Result A → Result A
sql_int n r = if ltb n (2 ^ 63) then r else err overflow_error
