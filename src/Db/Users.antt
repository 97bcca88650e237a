-- ===== src/Db/Users.antt =====
-- The section `users` of db.py.
use meshcore_bbs.Db.{Db}
use meshcore_bbs.Format.{prefix}
use meshcore_bbs.Models.{User}
use meshcore_bbs.Prelude.{
  Bool, List, Option, [], any, false, filter, find_row, if◌then◌else◌, leb, ltb, map, none, not,
  null, or_else, order_by, some, take, true, update_rows, ℕ, ◌&&◌, ◌++◌, ◌+◌, ◌==◌, ◌||◌, ◌∷◌,
}
use meshcore_bbs.Text.{Text, Unicode, ascii_lower, lit, lower, opt_eq, str_eq}

-- SQLite's LIKE: `%` stands for any text, `_` for any character, and the case of ASCII letters
-- does not matter. `like_any` tries the rest of the pattern at each place of the text.
like_any : (Text → Bool) → Text → Bool
like_any rest [] = rest []
like_any rest (c ∷ s) = rest (c ∷ s) || like_any rest s

abbrev like_one : ℕ → (Text → Bool) → Text → Bool
like_one p rest [] = false
like_one p rest (c ∷ s) = (p == b'_' || ascii_lower p == ascii_lower c) && rest s

unfoldable pub like : Text → Text → Bool
unfolding like_any
like [] s = null s
like (p ∷ pattern') s =
    if p == b'%' then like_any (like pattern') s else like_one p (like pattern') s

-- SQLite's order of texts: by bytes, which is by code points.
unfoldable pub text_le : Text → Text → Bool
text_le [] t = true
text_le (c ∷ s) [] = false
text_le (c ∷ s) (d ∷ t) = ltb c d || (c == d && text_le s t)

abbrev pub has_pubkey : Text → User → Bool
has_pubkey pk user = str_eq user.pubkey pk

unfoldable pub get_user : Db → Text → Option User
get_user db pk = find_row (has_pubkey pk) db.users

-- A row as `INSERT INTO users (pubkey, adv_name, first_seen, last_seen)` makes it.
abbrev pub new_user : Text → Option Text → ℕ → User
new_user pk adv_name now = record {
  pubkey = pk;
  display_name = none;
  display_name_lc = none;
  adv_name = adv_name;
  first_seen = now;
  last_seen = now;
  msg_count = 0;
  onboarded = false;
  motd_sent = false;
  banned = false;
  banned_reason = none;
  last_hops = none;
}

-- `COALESCE(a, b)`.
abbrev pub coalesce {ℓ} : {A : Type ℓ} → Option A → Option A → Option A
coalesce none b = b
coalesce (some a) b = some a

-- The user as it was before the update, and whether it is new.
unfoldable pub upsert_user_first_seen : Db → Text → Option Text → ℕ → Db × User × Bool
unfolding get_user
upsert_user_first_seen db pk adv_name now = elim (get_user db pk) [
  | some existing ↦ (
    record db {
      users =
          update_rows (has_pubkey pk)
            (λ user. record user { last_seen = now; adv_name = coalesce adv_name user.adv_name })
            db.users;
    },
    existing,
    false,
  )
  | none ↦ (
    record db { users = db.users ++ new_user pk adv_name now ∷ [] },
    new_user pk adv_name now,
    true,
  )
]

unfoldable pub touch_user : Db → Text → ℕ → Option ℕ → Db
touch_user db pk now hops = record db {
  users =
      update_rows (has_pubkey pk)
        (λ user. record user {
          last_seen = now;
          msg_count = user.msg_count + 1;
          last_hops = coalesce hops user.last_hops;
        })
        db.users;
}

-- Whether a row was updated.
unfoldable pub touch_user_activity : Db → Text → ℕ → Db × Bool
touch_user_activity db pk now = (
  record db {
    users = update_rows (has_pubkey pk) (λ user. record user { last_seen = now }) db.users;
  },
  any (has_pubkey pk) db.users,
)

module _ (u : Unicode) where
  unfoldable pub get_user_by_name : Db → Text → Option User
  unfolding lower
  get_user_by_name db name =
      find_row (λ user. opt_eq user.display_name_lc (some (lower u name))) db.users

  unfoldable pub find_users_by_name_substring : Db → Text → List User
  unfolding lower
  find_users_by_name_substring db needle =
      if null needle
      then []
      else order_by (λ a b. text_le (or_else a.display_name_lc []) (or_else b.display_name_lc []))
          (filter
            (λ user. user.onboarded && not user.banned && elim user.display_name_lc [
              | none ↦ false
              | some name ↦ like (lit "%" ++ (lower u needle ++ lit "%")) name
            ])
            db.users)

  unfoldable pub get_user_by_prefix : Db → Text → Option User
  unfolding lower
  get_user_by_prefix db prefix =
      find_row (λ user. like (lower u prefix ++ lit "%") user.pubkey) db.users

  -- Another row has the name, in either of the two UNIQUE columns.
  abbrev pub name_taken : Text → Text → User → Bool
  name_taken pk name user =
      not (has_pubkey pk user)
      && (opt_eq user.display_name (some name) || opt_eq user.display_name_lc (some (lower u name)))

  -- `false` is the IntegrityError of a UNIQUE column, which the UPDATE of no row cannot meet.
  unfoldable pub set_display_name : Db → Text → Text → Db × Bool
  set_display_name db pk name =
      if any (has_pubkey pk) db.users && any (name_taken pk name) db.users then (db, false) else (
        record db {
          users =
              update_rows (has_pubkey pk)
                (λ user. record user {
                  display_name = some name;
                  display_name_lc = some (lower u name);
                  onboarded = true;
                })
                db.users;
        },
        true,
      )

unfoldable pub mark_motd_sent : Db → Text → Db
mark_motd_sent db pk = record db {
  users = update_rows (has_pubkey pk) (λ user. record user { motd_sent = true }) db.users;
}

unfoldable pub set_banned : Db → Text → Bool → Option Text → Db
set_banned db pk banned reason = record db {
  users =
      update_rows (has_pubkey pk) (λ user. record user { banned = banned; banned_reason = reason })
        db.users;
}

unfoldable pub all_user_pubkeys : Db → List Text
all_user_pubkeys db = map (λ user. user.pubkey) (filter (λ user. not user.banned) db.users)

unfoldable pub recent_active_users : Db → ℕ → List User
recent_active_users db limit = take limit (
    order_by (λ a b. leb b.last_seen a.last_seen)
      (filter (λ user. user.onboarded && not user.banned) db.users))

unfoldable pub list_all_users : Db → List User
list_all_users db = order_by (λ a b. leb b.last_seen a.last_seen) db.users
