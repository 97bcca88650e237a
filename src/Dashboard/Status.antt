-- ===== src/Dashboard/Status.antt =====
-- build_status: what the board reports of itself.
use meshcore_bbs.Dashboard.{short_key}
use meshcore_bbs.Db.Outbound.{outbound_pending_depth}
use meshcore_bbs.Dispatcher.{Setting}
use meshcore_bbs.Health.{HealthState, check_db, health, health_problems}
use meshcore_bbs.OutboundWorker.{Worker}
use meshcore_bbs.Prelude.{
  Bool, List, Option, if◌then◌else◌, ltb, none, null, or_else, some, ℕ, ◌++◌, ◌-◌, ◌/◌,
}
use meshcore_bbs.Text.{Text, lit, str_eq}

-- What the page reads outside of the database. `contact_capacity` is none where the call raises.
pub record StatusSources : Type 0 where
  pub health : HealthState
  pub db_failure : Option Text
  pub radio_available : Bool
  pub contact_capacity : Option (ℕ × ℕ)
  pub metrics_enabled : Bool

pub record StatusPage : Type 0 where
  pub status : Text
  pub problems : List Text
  pub version : Text
  pub bbs_name : Text
  pub location : Text
  pub uptime_seconds : ℕ
  pub started_at : ℕ
  pub self_pubkey_prefix : Text
  pub transport_connected : Bool
  pub last_event_age_seconds : Option ℕ
  pub contacts_used : ℕ
  pub contacts_capacity : ℕ
  pub outbound_pending : ℕ
  pub attempted : ℕ
  pub succeeded : ℕ
  pub failed : ℕ
  pub metrics_enabled : Bool

abbrev shown_contacts : StatusSources → ℕ × ℕ
shown_contacts s = if s.radio_available then or_else s.contact_capacity (0, 0) else (0, 0)

-- `now` is in milliseconds. The worker holds the database and the counters of the sends.
unfoldable pub build_status : Setting → StatusSources → ℕ → Worker → StatusPage
build_status e s now w =
    let problems = health_problems s.health now ++ check_db s.db_failure in
    record {
      status = if null problems then lit "ok" else lit "unhealthy";
      problems = problems;
      version = e.version;
      bbs_name = e.cfg.bbs.name;
      location = e.cfg.weather.location_name;
      uptime_seconds = now / 1000 - e.started_at;
      started_at = e.started_at;
      self_pubkey_prefix = short_key e.self_pubkey;
      transport_connected = s.health.transport_connected;
      last_event_age_seconds =
          if ltb 0 s.health.last_event_at
          then some ((now - s.health.last_event_at) / 1000)
          else none;
      contacts_used = (shown_contacts s).0;
      contacts_capacity = (shown_contacts s).1;
      outbound_pending = outbound_pending_depth w.db;
      attempted = w.sends_attempted;
      succeeded = w.sends_succeeded;
      failed = w.sends_failed;
      metrics_enabled = s.metrics_enabled;
    }

-- `health` of health.py with a dashboard: the HTTP status and the page.
unfoldable pub health_with_dashboard : Setting → StatusSources → ℕ → Worker → ℕ × StatusPage
health_with_dashboard e s now w =
    let page = build_status e s now w in (if str_eq page.status (lit "ok") then 200 else 503, page)
