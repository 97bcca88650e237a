-- ===== src/Dispatcher/Closed.antt =====
-- What it takes for a property of the board to outlive the handling of a message: the operations of
-- the database that the handlers are made of keep it.
pub mod Services
pub mod Ordinary
pub mod Writing
pub mod Handlers
pub mod Whole
pub mod Admins
use meshcore_bbs.Db.{Db, ok}
use meshcore_bbs.Db.Audit.{audit}
use meshcore_bbs.Db.Boards.{add_board, add_post, delete_board}
use meshcore_bbs.Db.Mails.{add_mail, delete_mail, mark_mail_read}
use meshcore_bbs.Db.Outbound.{enqueue_outbound}
use meshcore_bbs.Db.RateWindows.{set_rate_window}
use meshcore_bbs.Db.Users.{
  mark_motd_sent, set_banned, set_display_name, touch_user, touch_user_activity,
  upsert_user_first_seen,
}
use meshcore_bbs.Db.WeatherCache.{set_weather_cache}
use meshcore_bbs.Dispatcher.{Bbs, with_db}
use meshcore_bbs.Models.{MsgKind}
use meshcore_bbs.Prelude.{Bool, List, Option, ℕ, ◌≡◌}
use meshcore_bbs.Services.Admin.{PendingBroadcast}
use meshcore_bbs.Text.{Text, Unicode}
use meshcore_bbs.Transport.MeshCore.Link.{start}

-- A property of the board that outlives a step from `a` to `b`.
pub record Keeps (P : Bbs → Type 0) (a b : Bbs) : Type 0 where
  pub keeps : P a → P b

-- A property that outlives the change of the database, whatever the services hold in memory.
pub record KeepsDb (P : Bbs → Type 0) (db after : Db) : Type 0 where
  pub keeps_db : (bbs : Bbs) → P (with_db db bbs) → P (with_db after bbs)

-- The operations that the commands of ordinary users end in.
pub record Operations (u : Unicode) (P : Bbs → Type 0) : Type 0 where
  pub enqueue_outbound_kept :
      (db : Db) (pk body : Text) (now priority : ℕ) (trigger : Option Text) (kind : MsgKind)
      → KeepsDb P db (enqueue_outbound db pk body now priority trigger kind).0
  pub set_rate_window_kept :
      (db : Db) (pk bucket : Text) (start n : ℕ)
      → KeepsDb P db (set_rate_window db pk bucket start n)
  pub set_display_name_kept :
      (db : Db) (pk name : Text) → KeepsDb P db (set_display_name u db pk name).0
  pub mark_motd_sent_kept : (db : Db) (pk : Text) → KeepsDb P db (mark_motd_sent db pk)
  pub audit_kept :
      (db : Db) (now : ℕ) (actor : Option Text) (action detail : Text)
      → KeepsDb P db (audit db now actor action detail)
  pub add_post_kept :
      (db : Db) (slug author body : Text) (now : ℕ) (after : Db × ℕ)
      → add_post u db slug author body now ≡ ok after
      → KeepsDb P db after.0
  pub add_mail_kept :
      (db : Db) (from_pk to_pk body : Text) (now : ℕ) (after : Db × ℕ)
      → add_mail db from_pk to_pk body now ≡ ok after
      → KeepsDb P db after.0
  pub mark_mail_read_kept :
      (db : Db) (mail_id now : ℕ) → KeepsDb P db (mark_mail_read db mail_id now)
  pub delete_mail_kept :
      (db : Db) (mail_id : ℕ) (viewer : Text) (after : Db × Bool)
      → delete_mail db mail_id viewer ≡ ok after
      → KeepsDb P db after.0
  pub set_weather_cache_kept :
      (db : Db) (key payload : Text) (now : ℕ) → KeepsDb P db (set_weather_cache db key payload now)
  pub notified_kept :
      (bbs : Bbs) (notified : List (Text × ℕ)) → Keeps P bbs (record bbs { notified = notified })

-- The two operations that note the sender of a message, and the one for overheard traffic.
pub record Arrivals (P : Bbs → Type 0) : Type 0 where
  pub upsert_kept :
      (db : Db) (pk : Text) (adv_name : Option Text) (now : ℕ)
      → KeepsDb P db (upsert_user_first_seen db pk adv_name now).0
  pub touch_kept :
      (db : Db) (pk : Text) (now : ℕ) (hops : Option ℕ) → KeepsDb P db (touch_user db pk now hops)
  pub touch_activity_kept :
      (db : Db) (pk : Text) (now : ℕ) → KeepsDb P db (touch_user_activity db pk now).0

-- The operations of the administrators' commands.
pub record AdminOperations (u : Unicode) (P : Bbs → Type 0) : Type 0 where
  pub set_banned_kept :
      (db : Db) (pk : Text) (banned : Bool) (reason : Option Text)
      → KeepsDb P db (set_banned db pk banned reason)
  pub add_board_kept :
      (db : Db) (slug description : Text) (now : ℕ) (after : Db)
      → add_board u db slug description now ≡ ok after
      → KeepsDb P db after
  pub delete_board_kept : (db : Db) (slug : Text) → KeepsDb P db (delete_board u db slug)
  pub staged_kept :
      (bbs : Bbs) (staged : List (Text × PendingBroadcast))
      → Keeps P bbs (record bbs { staged = staged })
  pub adverts_kept : (bbs : Bbs) (n : ℕ) → Keeps P bbs (record bbs { adverts = n })

module _ {P : Bbs → Type 0} where
  pub unmoved : (bbs : Bbs) → Keeps P bbs bbs
  unmoved bbs = record { keeps = λ h. h }

  pub then-Keeps : (a b c : Bbs) → Keeps P a b → Keeps P b c → Keeps P a c
  then-Keeps a b c h k = record { keeps = λ p. k.keeps (h.keeps p) }

  pub unchanged : (db : Db) → KeepsDb P db db
  unchanged db = record { keeps_db = λ bbs p. p }

  pub then_unchanged : {a b c : Db} → KeepsDb P a b → KeepsDb P b c → KeepsDb P a c
  then_unchanged h k = record { keeps_db = λ bbs p. k.keeps_db bbs (h.keeps_db bbs p) }

  pub with_db-Keeps : (db : Db) (bbs : Bbs) → KeepsDb P bbs.db db → Keeps P bbs (with_db db bbs)
  with_db-Keeps db bbs h = record { keeps = λ p. h.keeps_db bbs p }
