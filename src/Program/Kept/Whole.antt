-- ===== src/Program/Kept/Whole.antt =====
-- A property of the board that every operation of the database keeps outlives the whole run.
use meshcore_bbs.Dashboard.QueueView.{build_queue}
use meshcore_bbs.Dispatcher.{Bbs, Setting}
use meshcore_bbs.Dispatcher.Closed.{Keeps, then_unchanged, unmoved, with_db-Keeps}
use meshcore_bbs.Dispatcher.Closed.Admins.{all_powers}
use meshcore_bbs.Dispatcher.Closed.Services.{summary_for-KeepsDb}
use meshcore_bbs.Dispatcher.Closed.Whole.{handle_inbound-Keeps, record_mesh_activity-Keeps}
use meshcore_bbs.Dispatcher.Inbound.{handle_inbound, record_mesh_activity}
use meshcore_bbs.EventPump.{Pump, pump}
use meshcore_bbs.Prelude.{List, Option, [], none, some, ℕ, ◌*◌, ◌-◌, ◌/◌, ◌∷◌}
use meshcore_bbs.Program.{
  Happening, System, advert_requested, audit_prune, bbs_of, board_created, board_deleted,
  mail_notify, news_refresh, post_created, post_deleted, queue_action, queue_viewed, radio_event,
  run, step, ticked, weather_refresh, worker_of, worker_ticks,
}
use meshcore_bbs.Program.Kept.{Every}
use meshcore_bbs.Program.Kept.Jobs.{
  notify_recipients-Keeps, purge_old_read-KeepsDb, refresh_feeds-KeepsDb,
}
use meshcore_bbs.Program.Kept.Requests.{
  api_advert-Keeps, api_board_posts_create-KeepsDb, api_board_posts_delete-KeepsDb,
  api_boards_create-KeepsDb, api_boards_delete-KeepsDb, queue_action_response-KeepsDb,
  queue_items-KeepsDb,
}
use meshcore_bbs.Scheduler.{audit_prune_job, mail_notify_job, news_job, wx_job}
use meshcore_bbs.Services.News.{refresh_all}
use meshcore_bbs.Text.{Text, Unicode}
use meshcore_bbs.Transport.{
  InboundMessage, TransportEvent, advertisement, connected, contact_msg_recv, disconnected,
  mesh_activity, new_contact,
}

module _ (P : Bbs → Type 0) (e : Setting) (k : Every e.unicode P) where
  inbound_kept :
      (now : ℕ) (inbound : InboundMessage) (bbs : Bbs)
      → Keeps P bbs (handle_inbound e now inbound bbs)
  inbound_kept now inbound bbs =
      handle_inbound-Keeps P e now k.operations (λ pk. Unit)
        (all_powers P e now k.operations k.admin) k.arrivals inbound bbs tt

  overheard_kept :
      (now : ℕ) (pubkey : Option Text) (bbs : Bbs)
      → Keeps P bbs (record_mesh_activity e now pubkey bbs)
  overheard_kept now =
      record_mesh_activity-Keeps P e now k.operations (λ pk. Unit)
        (all_powers P e now k.operations k.admin) k.arrivals

  pump-Keeps :
      (now : ℕ) (event : TransportEvent) (p : Pump) → Keeps P p.bbs (pump e now event p).bbs
  unfolding pump
  pump-Keeps now (contact_msg_recv (some inbound)) p = inbound_kept (now / 1000) inbound p.bbs
  pump-Keeps now (contact_msg_recv none) p = unmoved p.bbs
  pump-Keeps now (connected reconnected) p = unmoved p.bbs
  pump-Keeps now disconnected p = unmoved p.bbs
  pump-Keeps now (new_contact pubkey) p = overheard_kept (now / 1000) pubkey p.bbs
  pump-Keeps now (advertisement pubkey) p = overheard_kept (now / 1000) pubkey p.bbs
  pump-Keeps now (mesh_activity pubkey) p = overheard_kept (now / 1000) pubkey p.bbs

  pub step-Keeps : (h : Happening) (s : System) → Keeps P (bbs_of s) (bbs_of (step e h s))
  unfolding step ticked mail_notify_job audit_prune_job wx_job news_job refresh_all build_queue
  step-Keeps (radio_event now event) s = pump-Keeps now event s.front
  step-Keeps (worker_ticks sur) s =
      with_db-Keeps _ (bbs_of s) (k.background.tick_kept _ sur (worker_of s))
  step-Keeps (mail_notify now) s = notify_recipients-Keeps P e k now _ (bbs_of s)
  step-Keeps (audit_prune now) s = with_db-Keeps _ (bbs_of s) (
      then_unchanged (k.background.purge_old_audit_kept (bbs_of s).db (now - 90 * 86400))
        (purge_old_read-KeepsDb P e k e.services.mail _ now))
  step-Keeps (weather_refresh now) s = with_db-Keeps _ (bbs_of s) (
      summary_for-KeepsDb P e.unicode k.operations e.services.weather e.json e.fetched now
        (bbs_of s).db)
  step-Keeps (news_refresh now sha256 respond) s =
      with_db-Keeps _ (bbs_of s) (refresh_feeds-KeepsDb P e k sha256 now respond _ (bbs_of s).db)
  step-Keeps (queue_action now action raw) s =
      with_db-Keeps _ (bbs_of s) (queue_action_response-KeepsDb P e k now action raw (bbs_of s).db)
  step-Keeps (queue_viewed paths now) s =
      with_db-Keeps _ (bbs_of s) (queue_items-KeepsDb P e k paths now _ [] (bbs_of s).db)
  step-Keeps (board_created now body) s =
      with_db-Keeps _ (bbs_of s) (api_boards_create-KeepsDb P e k now body (bbs_of s).db)
  step-Keeps (board_deleted now slug) s =
      with_db-Keeps _ (bbs_of s) (api_boards_delete-KeepsDb P e k now slug (bbs_of s).db)
  step-Keeps (post_created now slug body) s =
      with_db-Keeps _ (bbs_of s)
        (api_board_posts_create-KeepsDb P e k now _ slug body (bbs_of s).db)
  step-Keeps (post_deleted now slug raw) s =
      with_db-Keeps _ (bbs_of s) (api_board_posts_delete-KeepsDb P e k now slug raw (bbs_of s).db)
  step-Keeps (advert_requested now problem) s = api_advert-Keeps P e k now problem (bbs_of s)

-- Whatever happens, and in whatever order, a property that every operation keeps holds at the end if
-- it held at the start.
pub run-Keeps :
    (P : Bbs → Type 0)
    → ((u : Unicode) → Every u P)
    → (happenings : List (Setting × Happening)) (s : System) → P (bbs_of s)
    → P (bbs_of (run happenings s))
unfolding run
run-Keeps P every [] s h = h
run-Keeps P every ((e, happening) ∷ rest) s h =
    run-Keeps P every rest (step e happening s)
      ((step-Keeps P e (every e.unicode) happening s).keeps h)
