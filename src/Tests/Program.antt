-- ===== src/Tests/Program.antt =====
-- A run of the whole program, and the parts around the dispatcher.
use meshcore_bbs.Config.{DeviceConfig, default_config, validate_device}
use meshcore_bbs.Config.Validation.{validate_device_lem}
use meshcore_bbs.Dashboard.QueueView.{Paths}
use meshcore_bbs.Dashboard.Status.{StatusSources}
use meshcore_bbs.Db.{Db, empty_db}
use meshcore_bbs.Db.Mails.{new_mail}
use meshcore_bbs.Db.News.{trim_feed_to}
use meshcore_bbs.Db.News.Trim.{in_feed, trim_feed_to-le}
use meshcore_bbs.Db.Outbound.{new_message}
use meshcore_bbs.Db.RateWindows.{get_rate_window}
use meshcore_bbs.Dispatcher.{Setting}
use meshcore_bbs.Health.{health}
use meshcore_bbs.Models.{NewsItem, response}
use meshcore_bbs.OutboundWorker.{Surroundings, max_attempts}
use meshcore_bbs.Prelude.{
  List, [], arith, count_rows, false, filter, get_elem?, none, null, refl, some, true, ℕ, ◌∷◌, ◌≡◌,
  ◌≢◌, ◌≤◌, ◌⊎◌,
}
use meshcore_bbs.Program.{
  Happening, System, bbs_of, board_deleted, mail_notify, radio_event, run, worker_ticks,
}
use meshcore_bbs.Program.Sends.{count_sends, count_sends-le_five}
use meshcore_bbs.Program.Sound.{IsSound}
use meshcore_bbs.Program.Soundness.{run-IsSound}
use meshcore_bbs.RateLimiter.Bounds.{Request, serve}
use meshcore_bbs.RateLimiter.Refinement.{answers, expected, moved_all, serve_refines}
use meshcore_bbs.Services.Mails.{last_notify, should_notify}
use meshcore_bbs.Services.Mails.Notices.{AreQuiet, asked, should_notify-AreQuiet}
use meshcore_bbs.Services.Weather.{
  Json, WeatherData, fetch_summary, summary_for, summary_for_cached,
}
use meshcore_bbs.Tests.{alice_key, bob_key, direct_message, plain, some_bbs, some_db, some_setting}
use meshcore_bbs.Text.{Text, is_space, lit, lower, lstrip, opt_eq, rstrip, str_eq, strip}
use meshcore_bbs.Text.Decimal.{str}
use meshcore_bbs.Transport.{contact_msg_recv, delivered}
use meshcore_bbs.Transport.MeshCore.{MeshCore}
use meshcore_bbs.Transport.MeshCore.Backoff.{backoff_after, backoff_after-bounds}
use meshcore_bbs.Transport.MeshCore.Paths.{resolve_path_hex}
use meshcore_bbs.Transport.MeshCore.Splitting.{relay_at, resolve_path_hex_at}

abbrev posted_db : Db
posted_db = record some_db {
  boards = record { slug = lit "chat"; description = []; created_at = 1 } ∷ [];
  board_posts =
      record {
        id = 1;
        board_slug = lit "chat";
        author_pubkey = alice_key;
        body = lit "hi";
        ts = 100;
        deleted = false;
      }
      ∷ [];
  next_post = 2;
  mail = new_mail 1 alice_key bob_key (lit "hello") 100 ∷ [];
  next_mail = 2;
}

abbrev some_system : System
some_system = record {
  front = record {
    bbs = record some_bbs { db = posted_db };
    health = record { transport_connected = true; last_event_at = 1000 };
    messages_in = 0;
    serial_reconnects = 0;
  };
  worker = record {
    db = empty_db;
    last_send_at = 0;
    last_send_to = [];
    sends_attempted = 0;
    sends_succeeded = 0;
    sends_failed = 0;
  };
}

abbrev calm_tick : Surroundings
calm_tick = record {
  at_start = 300000;
  at_pause = 300000;
  at_throttle = 300000;
  at_deferral = 300000;
  after_send = 300100;
  at_audit = 300100;
  at_backoff = 300100;
  at_requeue = 300100;
  radio_available = true;
  outcome = delivered;
}

abbrev some_happenings : List (Setting × Happening)
some_happenings =
    (
      some_setting,
      radio_event 200000 (contact_msg_recv (some (direct_message alice_key (lit "SEND Bob hi")))),
    )
    ∷ (some_setting, worker_ticks calm_tick)
    ∷ (some_setting, mail_notify 300)
    ∷ (some_setting, board_deleted 310 (lit "chat"))
    ∷ []

posted_db-IsSound : IsSound posted_db
unfolding str_eq opt_eq
posted_db-IsSound = record {
  users_distinct = ((refl, (refl, tt)), ((refl, tt), (tt, tt)));
  post_boards = (refl, tt);
  post_authors = (refl, tt);
  mail_senders = (refl, tt);
  mail_recipients = (refl, tt);
}

run-IsSound_example : IsSound (bbs_of (run some_happenings some_system)).db
run-IsSound_example = run-IsSound some_happenings some_system posted_db-IsSound

count_sends-le_five_example : count_sends 1 some_happenings some_system ≤ max_attempts
count_sends-le_five_example =
    count_sends-le_five 1 some_happenings some_system
      (record { distinct = tt; known = tt; young = tt })

abbrev quiet_paths : Paths
quiet_paths = record { radio_available = true; resolve_inbound_path = λ pk. some (pk ∷ []) }

abbrev waiting_db : Db
waiting_db = record some_db {
  outbound_queue =
      new_message 1 alice_key (lit "one") 10 10 none response
      ∷ new_message 2 alice_key (lit "two") 11 10 none response
      ∷ [];
  next_outbound = 3;
  outbound_pause = record { pubkey = alice_key; paused_until = 15 } ∷ [];
}

abbrev two_requests : List Request
two_requests =
    record {
      pubkey = alice_key;
      bucket = lit "post";
      limit = record { limit = 1; window_seconds = 60 };
      now = 10;
    }
    ∷ record {
      pubkey = alice_key;
      bucket = lit "post";
      limit = record { limit = 1; window_seconds = 60 };
      now = 20;
    }
    ∷ []

serve_refines_example :
    (answers some_db two_requests ≡ expected (get_rate_window some_db) two_requests)
    × ((pk bucket : Text)
        → get_rate_window (serve some_db two_requests) pk bucket
          ≡ moved_all (get_rate_window some_db) two_requests pk bucket)
serve_refines_example = serve_refines two_requests some_db

should_notify-AreQuiet_example :
    AreQuiet alice_key 1600 ((1100, bob_key) ∷ (1200, alice_key) ∷ []) (
      asked default_config.mail
        (should_notify default_config.mail 1000 [] alice_key).0
        ((1100, bob_key) ∷ (1200, alice_key) ∷ []))
should_notify-AreQuiet_example =
    should_notify-AreQuiet default_config.mail alice_key 1000 []
      ((1100, bob_key) ∷ (1200, alice_key) ∷ []) (unfold should_notify last_notify in refl)
      (omega arith, (omega arith, tt))

abbrev no_contacts : MeshCore
no_contacts = record {
  is_connected = true;
  contact_count = 0;
  contact_of = λ pk. none;
  get_contact_by_key_prefix = λ p. none;
}

resolve_path_hex_at_example :
    get_elem? (resolve_path_hex plain no_contacts (lit "a1b2c") 1) 1
    ≡ relay_at plain no_contacts 2 (strip (lower plain (lit "a1b2c"))) 1
resolve_path_hex_at_example = resolve_path_hex_at plain no_contacts (lit "a1b2c") 1 1

abbrev news_item : ℕ → ℕ → ℕ → NewsItem
news_item id feed_id ts = record {
  id = id;
  feed_id = feed_id;
  title = lit "news";
  url = none;
  ts = ts;
  hash = str id;
}

abbrev news_db : Db
news_db = record empty_db {
  news_items = news_item 1 1 10 ∷ news_item 2 1 20 ∷ news_item 3 2 5 ∷ [];
}

trim_feed_to-le_example :
    (count_rows (in_feed 1) (trim_feed_to news_db 1 1).news_items ≤ 1)
    × (◌≢◌ {A = ℕ} 2 1
        → filter (in_feed 2) (trim_feed_to news_db 1 1).news_items
          ≡ filter (in_feed 2) news_db.news_items)
trim_feed_to-le_example =
    trim_feed_to-le news_db 1 1 2 ((omega arith, (omega arith, tt)), ((omega arith, tt), (tt, tt)))

abbrev mild : WeatherData
mild = record {
  temperature = some (record { negative = false; tenths = 215 });
  weather_code = some 3;
  wind_speed = none;
  wind_direction = none;
  precipitation = [];
}

abbrev exact_json : Json
exact_json = record { dumps = λ w. lit "x"; loads = λ t. some mild }

summary_for_cached_example :
    summary_for default_config.weather exact_json none 1500
      (fetch_summary default_config.weather exact_json (some mild) 1000 empty_db).0
    ≡ fetch_summary default_config.weather exact_json (some mild) 1000 empty_db
summary_for_cached_example =
    summary_for_cached default_config.weather exact_json mild 1000 1500 empty_db none refl
      (omega arith)

abbrev some_sources : StatusSources
some_sources = record {
  health = record { transport_connected = true; last_event_at = 1000 };
  db_failure = none;
  radio_available = true;
  contact_capacity = some (3, 200);
  metrics_enabled = false;
}

abbrev tcp_device : DeviceConfig
tcp_device = record default_config.device { connection = lit "tcp"; tcp_host = lit "host" }

validate_device_example :
    (lit "tcp" ≡ lit "serial")
    ⊎ ((lit "tcp" ≡ lit "tcp") × (null (strip (lit "host")) ≡ false) × (1 ≤ 5000) × (5000 ≤ 65535))
validate_device_example =
    validate_device_lem plain tcp_device tcp_device
      (unfold validate_device lower strip lstrip rstrip is_space str_eq in refl)

backoff_after-bounds_example :
    (1 ≤ backoff_after ((false, false) ∷ (false, true) ∷ []) 40)
    × (backoff_after ((false, false) ∷ (false, true) ∷ []) 40 ≤ 60)
backoff_after-bounds_example =
    backoff_after-bounds ((false, false) ∷ (false, true) ∷ []) 40 (omega arith) (omega arith)
