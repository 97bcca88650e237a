-- ===== src/Program/Soundness.antt =====
-- The database stays sound, whatever happens.
use meshcore_bbs.Db.Audit.{audit, purge_old_audit}
use meshcore_bbs.Db.Mails.{delete_mail, is_unread, mark_mail_read}
use meshcore_bbs.Db.News.{insert_news_item, trim_feed_to}
use meshcore_bbs.Db.Outbound.{enqueue_outbound}
use meshcore_bbs.Db.RateWindows.{set_rate_window}
use meshcore_bbs.Db.Users.{mark_motd_sent, set_banned, touch_user, touch_user_activity}
use meshcore_bbs.Db.WeatherCache.{set_weather_cache}
use meshcore_bbs.Dispatcher.{Setting}
use meshcore_bbs.OutboundWorker.Tables.{
  cancel_outbound-SameTables, get_outbound_pause_until-SameTables, move_outbound_to_back-SameTables,
  pause_outbound_recipient-SameTables, tick-SameTables,
}
use meshcore_bbs.Prelude.{List, refl, some, ◌&&◌, ◌==◌}
use meshcore_bbs.Program.{Happening, System, bbs_of, run}
use meshcore_bbs.Program.Kept.{Every}
use meshcore_bbs.Program.Kept.Whole.{run-Keeps}
use meshcore_bbs.Program.Sound.{IsSound, SoundBbs, delete_board-KeepsDb, same_kept, update_kept}
use meshcore_bbs.Program.Sound.Writes.{
  add_mail-KeepsDb, add_post-KeepsDb, boards_added, delete_mail-KeepsDb, delete_post-KeepsDb,
  inserted-KeepsDb, mails_updated, purge-KeepsDb, set_display_name-KeepsDb, upsert-KeepsDb,
}
use meshcore_bbs.Text.{Unicode}

-- Every operation of the database keeps it sound.
sound_every : (u : Unicode) → Every u SoundBbs
unfolding enqueue_outbound set_rate_window mark_motd_sent audit mark_mail_read delete_mail
    set_weather_cache touch_user touch_user_activity set_banned purge_old_audit insert_news_item
    trim_feed_to
sound_every u = record {
  operations = record {
    enqueue_outbound_kept = λ db pk body now priority trigger kind.
        same_kept db _
          (record { same_users = refl; same_boards = refl; same_posts = refl; same_mail = refl });
    set_rate_window_kept = λ db pk bucket start n.
        same_kept db _
          (record { same_users = refl; same_boards = refl; same_posts = refl; same_mail = refl });
    set_display_name_kept = set_display_name-KeepsDb u;
    mark_motd_sent_kept = λ db pk. update_kept db _ _ (λ x. refl) (λ x. refl);
    audit_kept = λ db now actor action detail.
        same_kept db _
          (record { same_users = refl; same_boards = refl; same_posts = refl; same_mail = refl });
    add_post_kept = add_post-KeepsDb u;
    add_mail_kept = add_mail-KeepsDb;
    mark_mail_read_kept = λ db mail_id now.
        mails_updated db (λ m. m.id == mail_id && is_unread m)
          (λ m. record m { read_at = some now }) (λ x. refl) (λ x. refl);
    delete_mail_kept = delete_mail-KeepsDb;
    set_weather_cache_kept = λ db key payload now.
        same_kept db _
          (record { same_users = refl; same_boards = refl; same_posts = refl; same_mail = refl });
    notified_kept = λ bbs notified. record { keeps = λ h. h };
  };
  arrivals = record {
    upsert_kept = upsert-KeepsDb;
    touch_kept = λ db pk now hops. update_kept db _ _ (λ x. refl) (λ x. refl);
    touch_activity_kept = λ db pk now. update_kept db _ _ (λ x. refl) (λ x. refl);
  };
  admin = record {
    set_banned_kept = λ db pk banned reason. update_kept db _ _ (λ x. refl) (λ x. refl);
    add_board_kept = boards_added u;
    delete_board_kept = delete_board-KeepsDb u;
    staged_kept = λ bbs staged. record { keeps = λ h. h };
    adverts_kept = λ bbs n. record { keeps = λ h. h };
  };
  background = record {
    tick_kept = λ gap sur w. same_kept w.db _ (tick-SameTables gap sur w);
    purge_old_audit_kept = λ db before_ts.
        same_kept db _
          (record { same_users = refl; same_boards = refl; same_posts = refl; same_mail = refl });
    purge_old_read_mail_kept = purge-KeepsDb;
    insert_news_item_kept = inserted-KeepsDb;
    trim_feed_to_kept = λ db feed_id keep_n.
        same_kept db _
          (record { same_users = refl; same_boards = refl; same_posts = refl; same_mail = refl });
    delete_post_kept = delete_post-KeepsDb;
    cancel_kept = λ db msg_id. same_kept db _ (cancel_outbound-SameTables db msg_id);
    move_kept =
        λ db clock msg_id. same_kept db _ (move_outbound_to_back-SameTables db clock msg_id);
    pause_kept = λ db clock pk seconds.
        same_kept db _ (pause_outbound_recipient-SameTables db clock pk seconds);
    get_pause_kept =
        λ db clock pk. same_kept db _ (get_outbound_pause_until-SameTables db clock pk);
  };
}

-- Whatever happens to the running program, and in whatever order, a sound database stays sound: no
-- two users share a key or a name in lower case, each post is on a board that is there and by a user
-- who is there, and each mail is between users who are there.
pub run-IsSound :
    (happenings : List (Setting × Happening)) (s : System)
    → IsSound (bbs_of s).db
    → IsSound (bbs_of (run happenings s)).db
run-IsSound = run-Keeps SoundBbs sound_every
