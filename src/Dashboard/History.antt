-- ===== src/Dashboard/History.antt =====
-- build_history: how many rows fall on each of the last days. `date` is SQLite's
-- date(…, 'unixepoch').
use meshcore_bbs.Db.{Db}
use meshcore_bbs.Db.Users.{text_le}
use meshcore_bbs.Models.{Status, cancelled, dropped, failed, pending, sent}
use meshcore_bbs.Prelude.{List, [], filter, if◌then◌else◌, leb, map, ℕ, ◌*◌, ◌+◌, ◌-◌, ◌∷◌}
use meshcore_bbs.Text.{Text, lit, str_eq}

abbrev pub history_days : ℕ
history_days = 14

-- `GROUP BY` a text with `COUNT(*)`: one more row for a group, in the order of the texts.
unfoldable pub add_to_group : Text → List (Text × ℕ) → List (Text × ℕ)
add_to_group key [] = (key, 1) ∷ []
add_to_group key ((k, n) ∷ groups) =
    let rest = add_to_group key groups in
    if str_eq k key
    then (k, n + 1) ∷ groups
    else if text_le k key
    then (k, n) ∷ rest
    else (key, 1) ∷ (k, n) ∷ groups

unfoldable pub group_count : List Text → List (Text × ℕ)
group_count [] = []
group_count (key ∷ keys) = add_to_group key (group_count keys)

-- Days with the counts of each action or status.
abbrev ByDay : Type 0
ByDay = List (Text × List (Text × ℕ))

unfoldable pub group_by_day : List (Text × Text) → ByDay
group_by_day rows =
    map (λ day. (day.0, group_count (map (λ r. r.1) (filter (λ r. str_eq r.0 day.0) rows))))
      (group_count (map (λ r. r.0) rows))

pub record HistoryPage : Type 0 where
  pub days : ℕ
  pub active_users_by_day : List (Text × ℕ)
  pub new_users_by_day : List (Text × ℕ)
  pub audit_by_day : ByDay
  pub outbound_by_day : ByDay

-- The values of the column.
abbrev pub status_text : Status → Text
status_text pending = lit "pending"
status_text sent = lit "sent"
status_text failed = lit "failed"
status_text dropped = lit "dropped"
status_text cancelled = lit "cancelled"

unfoldable pub build_history : (ℕ → Text) → Db → ℕ → HistoryPage
build_history date db now =
    let since = now - history_days * 86400 in
    record {
      days = history_days;
      active_users_by_day =
          group_count (map (λ u. date u.last_seen) (filter (λ u. leb since u.last_seen) db.users));
      new_users_by_day =
          group_count
            (map (λ u. date u.first_seen) (filter (λ u. leb since u.first_seen) db.users));
      audit_by_day =
          group_by_day
            (map (λ a. (date a.ts, a.action)) (filter (λ a. leb since a.ts) db.audit_log));
      outbound_by_day = group_by_day (
          map (λ m. (date m.enqueued_at, status_text m.status))
            (filter (λ m. leb since m.enqueued_at) db.outbound_queue));
    }
