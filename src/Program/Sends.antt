-- ===== src/Program/Sends.antt =====
-- How often the running program sends a message.
use native.Mathlib.Nat.{le_trans}
use meshcore_bbs.Db.{Db}
use meshcore_bbs.Db.Audit.{audit, purge_old_audit}
use meshcore_bbs.Db.Boards.{add_board, add_post, delete_board, delete_post}
use meshcore_bbs.Db.Mails.{add_mail, delete_mail, mark_mail_read, purge_old_read_mail}
use meshcore_bbs.Db.News.{insert_news_item, trim_feed_to}
use meshcore_bbs.Db.Outbound.Chances.{IsQueue}
use meshcore_bbs.Db.Outbound.Keeps.{
  Calm, Calm-cancel_outbound, Calm-enqueue_outbound, Calm-get_outbound_pause_until,
  Calm-move_outbound_to_back, Calm-refl, Calm-same, Calm-trans, chances_left,
}
use meshcore_bbs.Db.Outbound.Pauses.{Calm-pause_outbound_recipient}
use meshcore_bbs.Db.RateWindows.{set_rate_window}
use meshcore_bbs.Db.Users.{
  mark_motd_sent, set_banned, set_display_name, touch_user, touch_user_activity,
  upsert_user_first_seen,
}
use meshcore_bbs.Db.WeatherCache.{set_weather_cache}
use meshcore_bbs.Dispatcher.{Bbs, Setting}
use meshcore_bbs.Dispatcher.Closed.{KeepsDb}
use meshcore_bbs.Models.{OutboundMessage}
use meshcore_bbs.OutboundWorker.{max_attempts}
use meshcore_bbs.OutboundWorker.Limit.{chances_left-le}
use meshcore_bbs.OutboundWorker.Retries.{Costs, Costs-none, cost, tick-Costs}
use meshcore_bbs.Prelude.{List, Option, [], arith, refl, ℕ, ◌+◌, ◌∷◌, ◌≡◌, ◌≤◌}
use meshcore_bbs.Program.{
  Happening, System, bbs_of, handed_in, step, ticked, worker_of, worker_ticks,
}
use meshcore_bbs.Program.Kept.{Every}
use meshcore_bbs.Program.Kept.Whole.{step-Keeps}
use meshcore_bbs.Text.{Text, Unicode}

-- The queue of a start is sound here, and no message has more sends left than it had there.
abbrev CalmFrom : Db → Bbs → Type 0
CalmFrom start_db bbs = Calm start_db bbs.db

Calm-kept :
    (start_db db after : Db) → (IsQueue db → Calm db after) → KeepsDb (CalmFrom start_db) db after
Calm-kept start_db db after f = record { keeps_db = λ bbs h. Calm-trans h (f h.queue) }

-- An operation that touches neither the queue nor the next id.
apart_kept :
    (start_db db after : Db)
    → after.outbound_queue ≡ db.outbound_queue
    → after.next_outbound ≡ db.next_outbound
    → KeepsDb (CalmFrom start_db) db after
apart_kept start_db db after queue next =
    Calm-kept start_db db after (Calm-same db after queue next)

Calm-of_Costs : {db after : Db} {o : Option OutboundMessage} → Costs db after o → Calm db after
Calm-of_Costs c = record { queue = c.queue; left = λ id. omega (arith, c.paid id) }

module _ (start_db : Db) where
  set_display_name-KeepsDb :
      (u : Unicode) (db : Db) (pk name : Text)
      → KeepsDb (CalmFrom start_db) db (set_display_name u db pk name).0
  unfolding set_display_name
  set_display_name-KeepsDb u db pk name = apart_kept start_db db _ (ground arith) (ground arith)

  upsert-KeepsDb :
      (db : Db) (pk : Text) (adv_name : Option Text) (now : ℕ)
      → KeepsDb (CalmFrom start_db) db (upsert_user_first_seen db pk adv_name now).0
  unfolding upsert_user_first_seen
  upsert-KeepsDb db pk adv_name now = apart_kept start_db db _ (ground arith) (ground arith)

  inserted-KeepsDb :
      (db : Db) (feed_id : ℕ) (title : Text) (url : Option Text) (ts : ℕ) (hash : Text)
      → KeepsDb (CalmFrom start_db) db (insert_news_item db feed_id title url ts hash).0
  unfolding insert_news_item
  inserted-KeepsDb db feed_id title url ts hash =
      apart_kept start_db db _ (ground arith) (ground arith)

  calm_every : (u : Unicode) → Every u (CalmFrom start_db)
  unfolding set_rate_window mark_motd_sent audit add_post add_mail mark_mail_read delete_mail
      set_weather_cache touch_user touch_user_activity set_banned add_board delete_board
      purge_old_audit purge_old_read_mail trim_feed_to delete_post
  calm_every u = record {
    operations = record {
      enqueue_outbound_kept = λ db pk body now priority trigger kind.
          Calm-kept start_db db _
            (λ v. Calm-enqueue_outbound db v pk body now priority trigger kind);
      set_rate_window_kept = λ db pk bucket start n. apart_kept start_db db _ refl refl;
      set_display_name_kept = set_display_name-KeepsDb u;
      mark_motd_sent_kept = λ db pk. apart_kept start_db db _ refl refl;
      audit_kept = λ db now actor action detail. apart_kept start_db db _ refl refl;
      add_post_kept = λ db slug author body now after h.
          apart_kept start_db db after.0 (ground arith) (ground arith);
      add_mail_kept = λ db from_pk to_pk body now after h.
          apart_kept start_db db after.0 (ground arith) (ground arith);
      mark_mail_read_kept = λ db mail_id now. apart_kept start_db db _ refl refl;
      delete_mail_kept =
          λ db mail_id viewer after h. apart_kept start_db db after.0 (ground arith) (ground arith);
      set_weather_cache_kept = λ db key payload now. apart_kept start_db db _ refl refl;
      notified_kept = λ bbs notified. record { keeps = λ h. h };
    };
    arrivals = record {
      upsert_kept = upsert-KeepsDb;
      touch_kept = λ db pk now hops. apart_kept start_db db _ refl refl;
      touch_activity_kept = λ db pk now. apart_kept start_db db _ refl refl;
    };
    admin = record {
      set_banned_kept = λ db pk banned reason. apart_kept start_db db _ refl refl;
      add_board_kept = λ db slug description now after h.
          apart_kept start_db db after (ground arith) (ground arith);
      delete_board_kept = λ db slug. apart_kept start_db db _ refl refl;
      staged_kept = λ bbs staged. record { keeps = λ h. h };
      adverts_kept = λ bbs n. record { keeps = λ h. h };
    };
    background = record {
      tick_kept =
          λ gap sur w. Calm-kept start_db w.db _ (λ v. Calm-of_Costs (tick-Costs gap sur w v));
      purge_old_audit_kept = λ db before_ts. apart_kept start_db db _ refl refl;
      purge_old_read_mail_kept = λ db before_ts. apart_kept start_db db _ refl refl;
      insert_news_item_kept = inserted-KeepsDb;
      trim_feed_to_kept = λ db feed_id keep_n. apart_kept start_db db _ refl refl;
      delete_post_kept = λ db post_id. apart_kept start_db db _ refl refl;
      cancel_kept = λ db msg_id. Calm-kept start_db db _ (λ v. Calm-cancel_outbound db v msg_id);
      move_kept = λ db clock msg_id.
          Calm-kept start_db db _ (λ v. Calm-move_outbound_to_back db v clock msg_id);
      pause_kept = λ db clock pk seconds.
          Calm-kept start_db db _ (λ v. Calm-pause_outbound_recipient db v clock pk seconds);
      get_pause_kept =
          λ db clock pk. Calm-kept start_db db _ (λ v. Calm-get_outbound_pause_until db v clock pk);
    };
  }

-- How often the message with an id is handed to the radio in a run.
unfoldable pub count_sends : ℕ → List (Setting × Happening) → System → ℕ
unfolding step handed_in cost
count_sends id [] s = 0
count_sends id ((e, h) ∷ rest) s = cost id (handed_in e h s) + count_sends id rest (step e h s)

step-Costs :
    (e : Setting) (h : Happening) (s : System)
    → IsQueue (bbs_of s).db
    → Costs (bbs_of s).db (bbs_of (step e h s)).db (handed_in e h s)
unfolding step handed_in ticked
step-Costs e (worker_ticks sur) s v = tick-Costs _ sur (worker_of s) v
step-Costs e h s v = Costs-none (
    (step-Keeps (CalmFrom (bbs_of s).db) e (calm_every (bbs_of s).db e.unicode) h s).keeps
      (Calm-refl (bbs_of s).db v))

count_sends-le-chances :
    (id : ℕ) (happenings : List (Setting × Happening)) (s : System)
    → IsQueue (bbs_of s).db
    → count_sends id happenings s ≤ chances_left id (bbs_of s).db
unfolding count_sends
count_sends-le-chances id [] s v = omega arith
count_sends-le-chances id ((e, h) ∷ rest) s v =
    let c = step-Costs e h s v in
    omega (arith, c.paid id, count_sends-le-chances id rest (step e h s) c.queue)

-- In a run of the program in which each turn of a task is taken as a whole and no tick of the worker
-- raises, whatever else happens (messages, ticks, jobs, requests to the dashboard), and in whatever
-- order the turns come, from a queue with distinct ids below the next id and no pending row past its
-- attempts no message is handed to the radio more than five times.
pub count_sends-le_five :
    (id : ℕ) (happenings : List (Setting × Happening)) (s : System)
    → IsQueue (bbs_of s).db
    → count_sends id happenings s ≤ max_attempts
count_sends-le_five id happenings s v =
    le_trans (count_sends-le-chances id happenings s v) (chances_left-le id (bbs_of s).db v)
