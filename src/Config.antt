-- ===== src/Config.antt =====
-- config.py: the settings of the parts, and what becomes of them at a reload. A file is read by
-- PyYAML, and the answer of `Config.load` is an argument here.
pub mod Validation
use meshcore_bbs.Db.{Result, err, ok, value_error}
use meshcore_bbs.Prelude.{
  Bool, List, Option, [], false, if◌then◌else◌, leb, none, not, null, some, true, ℕ, ◌&&◌, ◌||◌,
}
use meshcore_bbs.Text.{Text, Unicode, lit, lower, str_eq, strip}

pub record DeviceConfig : Type 0 where
  pub connection : Text
  pub serial_path : Text
  pub baud : ℕ
  pub tcp_host : Text
  pub tcp_port : ℕ
  pub expected_pubkey : Text
  pub max_reconnect_attempts : ℕ

pub record BbsConfig : Type 0 where
  pub name : Text
  pub motd : Text
  pub admin_pubkeys : List Text
  pub default_location : Text
  pub max_msg_chars : ℕ

pub record LimitsConfig : Type 0 where
  pub inbound_per_hour : ℕ
  pub inbound_per_minute : ℕ
  pub post_per_hour : ℕ
  pub post_per_day : ℕ
  pub mail_send_per_day : ℕ
  pub outbound_min_interval_ms : ℕ
  pub outbound_per_recipient_min_interval_ms : ℕ
  pub outbound_queue_max_depth : ℕ

-- `NewsFeed` of config.py.
pub record ConfiguredFeed : Type 0 where
  pub slug : Text
  pub url : Text

pub record NewsConfig : Type 0 where
  pub feeds : List ConfiguredFeed
  pub max_items_per_feed : ℕ
  pub refresh_interval_seconds : ℕ

-- The coordinates go to the weather's server alone, and are left out.
pub record WeatherConfig : Type 0 where
  pub location_name : Text
  pub user_agent : Text
  pub cache_observation_seconds : ℕ
  pub cache_forecast_seconds : ℕ

pub record ContactsConfig : Type 0 where
  pub prune_after_days : ℕ

pub record MailConfig : Type 0 where
  pub online_threshold_seconds : ℕ
  pub notify_min_interval_seconds : ℕ
  pub read_retention_days : ℕ

-- The sections for the HTTP servers and the log file are left out.
pub record Config : Type 0 where
  pub device : DeviceConfig
  pub bbs : BbsConfig
  pub limits : LimitsConfig
  pub news : NewsConfig
  pub weather : WeatherConfig
  pub contacts : ContactsConfig
  pub mail : MailConfig

-- The defaults of the dataclasses.
abbrev pub default_config : Config
default_config = record {
  device = record {
    connection = lit "serial";
    serial_path = lit "/dev/ttyUSB0";
    baud = 115200;
    tcp_host = [];
    tcp_port = 5000;
    expected_pubkey = [];
    max_reconnect_attempts = 0;
  };
  bbs = record {
    name = lit "MeshCore BBS";
    motd = lit "Welcome! Try HELP.";
    admin_pubkeys = [];
    default_location = lit "Sydney";
    max_msg_chars = 200;
  };
  limits = record {
    inbound_per_hour = 20;
    inbound_per_minute = 5;
    post_per_hour = 5;
    post_per_day = 20;
    mail_send_per_day = 10;
    outbound_min_interval_ms = 1000;
    outbound_per_recipient_min_interval_ms = 3000;
    outbound_queue_max_depth = 100;
  };
  news = record { feeds = []; max_items_per_feed = 50; refresh_interval_seconds = 900 };
  weather = record {
    location_name = lit "Sydney";
    user_agent = lit "Mozilla/5.0 (compatible; meshcore-bbs/0.1)";
    cache_observation_seconds = 600;
    cache_forecast_seconds = 3600;
  };
  contacts = record { prune_after_days = 30 };
  mail = record {
    online_threshold_seconds = 900;
    notify_min_interval_seconds = 600;
    read_retention_days = 90;
  };
}

-- `_validate_device`; the `ValueError` is `err`. A text that may be None is empty here.
unfoldable pub validate_device : Unicode → DeviceConfig → Result DeviceConfig
validate_device u device =
    let given = if null device.connection then lit "serial" else device.connection in
    let conn = lower u (strip given) in
    let checked : DeviceConfig = record device { connection = conn } in
    if not (str_eq conn (lit "serial") || str_eq conn (lit "tcp"))
    then err value_error
    else if str_eq conn (lit "tcp")
    then (if null (strip device.tcp_host)
        then err value_error
        else if not (leb 1 device.tcp_port && leb device.tcp_port 65535)
        then err value_error
        else ok checked)
    else ok checked

-- What the services were given when they were made: parts of the configuration of that time, and
-- no reference to the `Config` itself.
pub record ServiceConfig : Type 0 where
  pub admin : BbsConfig
  pub mail : MailConfig
  pub max_body_chars : ℕ
  pub news : NewsConfig
  pub weather : WeatherConfig
  pub worker_limits : LimitsConfig

-- The constructor calls of `run` in __main__.py.
unfoldable pub make_services : Config → ServiceConfig
make_services cfg = record {
  admin = cfg.bbs;
  mail = cfg.mail;
  max_body_chars = cfg.bbs.max_msg_chars;
  news = cfg.news;
  weather = cfg.weather;
  worker_limits = cfg.limits;
}

-- `Config.reload` with what `Config.load` returned, none for an exception: the new configuration,
-- and whether it was taken. The services' parts are not reached.
unfoldable pub reload : Option Config → Config → Config × Bool
reload none cfg = (cfg, false)
reload (some new) cfg = (new, true)
