-- ===== src/Dashboard/Stats.antt =====
-- build_stats: the sizes of the tables.
use meshcore_bbs.Db.{CachedWeather, Db}
use meshcore_bbs.Db.Mails.{is_unread}
use meshcore_bbs.Models.{OutboundMessage, Status, cancelled, dropped, failed, pending, sent}
use meshcore_bbs.Prelude.{
  Bool, List, Option, [], count_rows, false, filter, head?, leb, length, ltb, map, none, not,
  order_by, some, true, ℕ, ◌&&◌, ◌+◌, ◌∷◌,
}

pub record Counts : Type 0 where
  pub users : ℕ
  pub onboarded : ℕ
  pub banned : ℕ
  pub boards : ℕ
  pub board_posts : ℕ
  pub mail_unread : ℕ
  pub mail_read : ℕ
  pub news_items : ℕ
  pub audit_rows : ℕ
  pub rate_limit_buckets : ℕ

pub record StatsPage : Type 0 where
  pub counts : Counts
  pub outbound_by_status : List (Status × ℕ)
  pub weather_fetched_at : Option ℕ
  pub news_feeds_enabled : ℕ

abbrev pub same_status : Status → Status → Bool
same_status pending s = elim s [ pending ↦ true | _ ↦ false ]
same_status sent s = elim s [ sent ↦ true | _ ↦ false ]
same_status failed s = elim s [ failed ↦ true | _ ↦ false ]
same_status dropped s = elim s [ dropped ↦ true | _ ↦ false ]
same_status cancelled s = elim s [ cancelled ↦ true | _ ↦ false ]

-- `GROUP BY status`: a status without rows has no entry. SQLite orders the groups by their texts.
abbrev statuses : List Status
statuses = cancelled ∷ dropped ∷ failed ∷ pending ∷ sent ∷ []

unfoldable pub outbound_by_status : List OutboundMessage → List (Status × ℕ)
outbound_by_status queue =
    filter (λ row. ltb 0 row.1)
      (map (λ s. (s, count_rows (λ m. same_status m.status s) queue)) statuses)

-- `ORDER BY fetched_at DESC LIMIT 1`.
unfoldable pub last_fetched : List CachedWeather → Option ℕ
last_fetched cache = elim (head? (order_by (λ a b. leb b.fetched_at a.fetched_at) cache)) [
  | none ↦ none
  | some c ↦ some c.fetched_at
]

unfoldable pub build_stats : Db → StatsPage
build_stats db = record {
  counts = record {
    users = length db.users;
    onboarded = count_rows (λ u. u.onboarded) db.users;
    banned = count_rows (λ u. u.banned) db.users;
    boards = length db.boards;
    board_posts = count_rows (λ p. not p.deleted) db.board_posts;
    mail_unread = count_rows (λ m. is_unread m && not m.deleted) db.mail;
    mail_read = count_rows (λ m. not (is_unread m) && not m.deleted) db.mail;
    news_items = length db.news_items;
    audit_rows = length db.audit_log;
    rate_limit_buckets = length db.rate_limits;
  };
  outbound_by_status = outbound_by_status db.outbound_queue;
  weather_fetched_at = last_fetched db.weather_cache;
  news_feeds_enabled = count_rows (λ f. f.enabled) db.news_feeds;
}

sum : List (Status × ℕ) → ℕ
sum [] = 0
sum (row ∷ rows) = row.1 + sum rows
