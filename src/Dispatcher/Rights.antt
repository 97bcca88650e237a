-- ===== src/Dispatcher/Rights.antt =====
-- What only an administrator can change.
use meshcore_bbs.Db.{Db}
use meshcore_bbs.Db.Audit.{audit}
use meshcore_bbs.Db.Boards.{add_post}
use meshcore_bbs.Db.Mails.{add_mail, delete_mail, mark_mail_read}
use meshcore_bbs.Db.Outbound.{enqueue_outbound}
use meshcore_bbs.Db.RateWindows.{set_rate_window}
use meshcore_bbs.Db.Users.{has_pubkey, mark_motd_sent, set_display_name}
use meshcore_bbs.Db.WeatherCache.{set_weather_cache}
use meshcore_bbs.Dispatcher.{Bbs, Setting}
use meshcore_bbs.Dispatcher.Admins.{handle_admin, handle_advert}
use meshcore_bbs.Dispatcher.Closed.{KeepsDb, Operations, unchanged}
use meshcore_bbs.Dispatcher.Closed.Handlers.{Powers}
use meshcore_bbs.Dispatcher.Closed.Services.{enqueue-Keeps}
use meshcore_bbs.Dispatcher.Closed.Whole.{admit-Keeps}
use meshcore_bbs.Dispatcher.Inbound.{admit}
use meshcore_bbs.Models.{User}
use meshcore_bbs.Prelude.{
  Bool, List, arith, false, map, map-update_rows, refl, some, true, update_rows, ℕ, ◌∙◌, ◌≡◌,
}
use meshcore_bbs.Services.Admin.{is_admin}
use meshcore_bbs.Text.{Text, Unicode, lower}
use meshcore_bbs.Transport.{InboundMessage}

-- The boards, and for every user the key and whether the user is banned.
abbrev pub bans : Db → List (Text × Bool)
bans db = map (λ user. (user.pubkey, user.banned)) db.users

-- The boards, the bans, the staged broadcasts and the adverts are the same.
pub record KeepsRights (bbs after : Bbs) : Type 0 where
  pub same_boards : after.db.boards ≡ bbs.db.boards
  pub same_bans : bans after.db ≡ bans bbs.db
  pub same_staged : after.staged ≡ bbs.staged
  pub same_adverts : after.adverts ≡ bbs.adverts

module _ (start : Bbs) where
  rights_kept :
      (db after : Db)
      → after.boards ≡ db.boards
      → bans after ≡ bans db
      → KeepsDb (KeepsRights start) db after
  rights_kept db after boards banned = record {
    keeps_db = λ bbs h. record {
      same_boards = boards ∙ h.same_boards;
      same_bans = banned ∙ h.same_bans;
      same_staged = h.same_staged;
      same_adverts = h.same_adverts;
    };
  }

  users_kept :
      (db : Db) (p : User → Bool) (f : User → User)
      → ((x : User) → ◌≡◌ {A = Text × Bool} ((f x).pubkey, (f x).banned) (x.pubkey, x.banned))
      → KeepsDb (KeepsRights start) db (record db { users = update_rows p f db.users })
  users_kept db p f same =
      rights_kept db _ refl
        (map-update_rows {B = Text × Bool} (λ user. (user.pubkey, user.banned)) p f db.users same)

  set_display_name-KeepsDb :
      (u : Unicode) (db : Db) (pk name : Text)
      → KeepsDb (KeepsRights start) db (set_display_name u db pk name).0
  unfolding set_display_name
  set_display_name-KeepsDb u db pk name =
      let renamed =
        users_kept db (has_pubkey pk)
          (λ user. record user {
            display_name = some name;
            display_name_lc = some (lower u name);
            onboarded = true;
          })
          (λ x. refl) in
      grind (arith, unchanged, renamed)

  -- No command of an ordinary user touches them.
  pub rights_operations : (u : Unicode) → Operations u (KeepsRights start)
  unfolding enqueue_outbound set_rate_window mark_motd_sent audit add_post add_mail mark_mail_read
      delete_mail set_weather_cache
  rights_operations u = record {
    enqueue_outbound_kept = λ db pk body now priority trigger kind. rights_kept db _ refl refl;
    set_rate_window_kept = λ db pk bucket start n. rights_kept db _ refl refl;
    set_display_name_kept = set_display_name-KeepsDb u;
    mark_motd_sent_kept = λ db pk. users_kept db _ _ (λ x. refl);
    audit_kept = λ db now actor action detail. rights_kept db _ refl refl;
    add_post_kept =
        λ db slug author body now after h. rights_kept db after.0 (ground arith) (ground arith);
    add_mail_kept =
        λ db from_pk to_pk body now after h. rights_kept db after.0 (ground arith) (ground arith);
    mark_mail_read_kept = λ db mail_id now. rights_kept db _ refl refl;
    delete_mail_kept =
        λ db mail_id viewer after h. rights_kept db after.0 (ground arith) (ground arith);
    set_weather_cache_kept = λ db key payload now. rights_kept db _ refl refl;
    notified_kept = λ bbs notified. record {
      keeps = λ h. record {
        same_boards = h.same_boards;
        same_bans = h.same_bans;
        same_staged = h.same_staged;
        same_adverts = h.same_adverts;
      };
    };
  }

  -- For a caller who is no administrator, their commands only answer.
  pub no_powers :
      (e : Setting) (now : ℕ)
      → Powers (KeepsRights start) e now (λ pk. is_admin e.unicode e.services.admin pk ≡ false)
  unfolding handle_advert handle_admin
  no_powers e now =
      let sent = enqueue-Keeps (KeepsRights start) e.unicode (rights_operations e.unicode) e now in
      record {
        advert_kept = λ verb pk bbs h. rw h (sent pk _ _ _ bbs);
        admin_kept = λ verb pk parsed bbs h. rw h (sent pk _ _ _ bbs);
      }

  -- What happens to a message of an ordinary user, once its arrival is noted.
  pub admit-KeepsRights :
      (e : Setting) (now : ℕ) (user : User) (is_new : Bool) (inbound : InboundMessage)
      → is_admin e.unicode e.services.admin inbound.pubkey ≡ false
      → KeepsRights start (admit e now user is_new inbound start)
  admit-KeepsRights e now user is_new inbound h =
      (admit-Keeps (KeepsRights start) e now (rights_operations e.unicode)
          (λ pk. is_admin e.unicode e.services.admin pk ≡ false) (no_powers e now) user is_new
          inbound start h).keeps
        (record { same_boards = refl; same_bans = refl; same_staged = refl; same_adverts = refl })
