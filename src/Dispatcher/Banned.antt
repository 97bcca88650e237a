-- ===== src/Dispatcher/Banned.antt =====
-- What a message from a banned user can change.
use mathlib.Core.Option
use meshcore_bbs.Db.{Db}
use meshcore_bbs.Db.Users.{coalesce, touch_user, upsert_user_first_seen}
use meshcore_bbs.Models.{User}
use meshcore_bbs.Prelude.{Bool, Option, ℕ, ◌+◌}
use meshcore_bbs.Text.{Text}

-- What a row says of its user, without the traces of the last message.
abbrev pub Identity : Type 0
Identity = Text × Option Text × Option Text × ℕ × Bool × Bool × Bool × Option Text

abbrev pub identity_of : User → Identity
identity_of user = (
  user.pubkey, user.display_name, user.display_name_lc, user.first_seen, user.onboarded,
  user.motd_sent, user.banned, user.banned_reason,
)

-- The time of the last message and the number of them.
abbrev pub traces_of : User → ℕ × ℕ
traces_of user = (user.last_seen, user.msg_count)

module _ (now : ℕ) (pk : Text) (adv_name : Option Text) (hops : Option ℕ) where
  abbrev noted : Db → Db
  noted db = touch_user (upsert_user_first_seen db pk adv_name now).0 pk now hops

  abbrev seen : User → User
  seen user = record user { last_seen = now; adv_name = coalesce adv_name user.adv_name }

  abbrev touched : User → User
  touched user = record user {
    last_seen = now;
    msg_count = user.msg_count + 1;
    last_hops = coalesce hops user.last_hops;
  }
