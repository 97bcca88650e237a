-- ===== src/Program.antt =====
-- The running program of __main__.py: the board, the worker and the dashboard over one database. The
-- tasks of asyncio take turns at every `await`, and here each turn is taken as a whole: a `run` is any
-- sequence of the things that can happen, and a thing that has begun ends before the next. No tick of
-- the worker raises. A new setting may come with each of them.
pub mod Kept
pub mod Sound
pub mod Soundness
pub mod Sends
use meshcore_bbs.Dashboard.{Body}
use meshcore_bbs.Dashboard.BoardActions.{
  api_advert, api_board_posts_create, api_board_posts_delete, api_boards_create, api_boards_delete,
}
use meshcore_bbs.Dashboard.QueueActions.{Action, queue_action_response}
use meshcore_bbs.Dashboard.QueueView.{Paths, build_queue}
use meshcore_bbs.Db.{Db}
use meshcore_bbs.Dispatcher.{Bbs, Setting, with_db}
use meshcore_bbs.EventPump.{Pump, pump}
use meshcore_bbs.Models.{OutboundMessage}
use meshcore_bbs.OutboundWorker.{Surroundings, Ticked, Worker, tick}
use meshcore_bbs.Prelude.{List, Option, [], none, ℕ, ◌∷◌}
use meshcore_bbs.Scheduler.{audit_prune_job, mail_notify_job, news_job, wx_job}
use meshcore_bbs.Services.News.{Entry}
use meshcore_bbs.Text.{Text}
use meshcore_bbs.Transport.{TransportEvent}

-- The front holds the database; the worker's own is overwritten before a tick.
pub record System : Type 0 where
  pub front : Pump
  pub worker : Worker

-- What the program reacts to: the radio, its own tasks, and the requests to the dashboard.
pub data Happening : Type 0 where
  radio_event : ℕ → TransportEvent → Happening
  worker_ticks : Surroundings → Happening
  mail_notify audit_prune weather_refresh : ℕ → Happening
  news_refresh : ℕ → (Text → Text) → (Text → Option (List Entry)) → Happening
  queue_action : ℕ → Action → Text → Happening
  queue_viewed : Paths → ℕ → Happening
  board_created : ℕ → Body → Happening
  board_deleted : ℕ → Text → Happening
  post_created : ℕ → Text → Body → Happening
  post_deleted : ℕ → Text → Text → Happening
  advert_requested : ℕ → Option Text → Happening

abbrev pub bbs_of : System → Bbs
bbs_of s = s.front.bbs

abbrev pub put_bbs : System → Bbs → System
put_bbs s bbs = record s { front = record s.front { bbs = bbs } }

abbrev put_db : System → Db → System
put_db s db = put_bbs s (with_db db (bbs_of s))

-- The worker with the database that it shares.
abbrev pub worker_of : System → Worker
worker_of s = record s.worker { db = (bbs_of s).db }

unfoldable pub ticked : Setting → Surroundings → System → Ticked
ticked e sur s =
    tick e.services.worker_limits.outbound_per_recipient_min_interval_ms sur (worker_of s)

-- One turn, from its beginning to its end.
unfoldable pub step : Setting → Happening → System → System
step e (radio_event now event) s = record s { front = pump e now event s.front }
step e (worker_ticks sur) s = record (put_db s (ticked e sur s).worker.db) {
  worker = (ticked e sur s).worker;
}
step e (mail_notify now) s = put_bbs s (mail_notify_job e now (bbs_of s))
step e (audit_prune now) s = put_bbs s (audit_prune_job e now (bbs_of s))
step e (weather_refresh now) s = put_bbs s (wx_job e now (bbs_of s))
step e (news_refresh now sha256 respond) s = put_bbs s (news_job e now sha256 respond (bbs_of s))
step e (queue_action now action raw) s =
    put_db s (queue_action_response e.unicode now action raw (bbs_of s).db).0
step e (queue_viewed paths now) s = put_db s (build_queue paths now (bbs_of s).db).0
step e (board_created now body) s = put_db s (api_boards_create e.unicode now body (bbs_of s).db).0
step e (board_deleted now slug) s = put_db s (api_boards_delete e.unicode now slug (bbs_of s).db).0
step e (post_created now slug body) s =
    put_db s
      (api_board_posts_create e.unicode now e.services.max_body_chars slug body (bbs_of s).db).0
step e (post_deleted now slug raw) s =
    put_db s (api_board_posts_delete e.unicode now slug raw (bbs_of s).db).0
step e (advert_requested now problem) s = put_bbs s (api_advert now problem (bbs_of s)).0

-- What the turn hands to the radio.
unfoldable pub handed_in : Setting → Happening → System → Option OutboundMessage
handed_in e (worker_ticks sur) s = (ticked e sur s).handed
handed_in e _ s = none

unfoldable pub run : List (Setting × Happening) → System → System
run [] s = s
run ((e, h) ∷ rest) s = run rest (step e h s)
