-- ===== src/Dashboard/Pages.antt =====
-- build_activity, build_users, build_boards and build_board_posts: pages that list rows.
use meshcore_bbs.Dashboard.{Reply, answered, name_of_user, query_int, raised, refused, short_key}
use meshcore_bbs.Db.{AuditEntry, Db, Result, err, ok}
use meshcore_bbs.Db.Boards.{get_board, list_boards, list_posts}
use meshcore_bbs.Db.Outbound.{sent_before}
use meshcore_bbs.Db.Users.{get_user, list_all_users}
use meshcore_bbs.Models.{Board, BoardPost, OutboundMessage, Status, User, is_pending}
use meshcore_bbs.Prelude.{
  Bool, List, Option, [], count_rows, filter, leb, map, none, not, or_else, order_by, some, take, ℕ,
  ◌&&◌, ◌++◌, ◌-◌, ◌∷◌,
}
use meshcore_bbs.Text.{Text, Unicode, lit, lower, str_eq}
use meshcore_bbs.Text.Integers.{at_least_zero, clamp}

pub record RecentUser : Type 0 where
  pub who : Text
  pub pubkey_prefix : Text
  pub msg_count : ℕ
  pub last_seen : ℕ
  pub last_hops : Option ℕ
  pub onboarded : Bool
  pub banned : Bool

pub record AuditRow : Type 0 where
  pub ts : ℕ
  pub actor : Option Text
  pub action : Text
  pub detail : Text

pub record PendingRow : Type 0 where
  pub id : ℕ
  pub to_prefix : Text
  pub status : Status
  pub attempts : ℕ
  pub enqueued_at : ℕ
  pub priority : ℕ

pub record ActivityPage : Type 0 where
  pub recent_users : List RecentUser
  pub audit : List AuditRow
  pub pending_outbound : List PendingRow

-- A text, or null where it is empty.
abbrev non_empty : Text → Option Text
non_empty [] = none
non_empty (c ∷ s) = some (c ∷ s)

-- `COALESCE(display_name, substr(pubkey, 1, 8))`, which keeps an empty name.
abbrev recent_user : User → RecentUser
recent_user u = record {
  who = or_else u.display_name (take 8 u.pubkey);
  pubkey_prefix = short_key u.pubkey;
  msg_count = u.msg_count;
  last_seen = u.last_seen;
  last_hops = u.last_hops;
  onboarded = u.onboarded;
  banned = u.banned;
}

abbrev audit_row : AuditEntry → AuditRow
audit_row a = record {
  ts = a.ts;
  actor = non_empty (short_key (or_else a.actor_pubkey []));
  action = a.action;
  detail = take 80 a.detail;
}

abbrev pending_row : OutboundMessage → PendingRow
pending_row m = record {
  id = m.id;
  to_prefix = short_key m.to_pubkey;
  status = m.status;
  attempts = m.attempts;
  enqueued_at = m.enqueued_at;
  priority = m.priority;
}

unfoldable pub build_activity : Db → ActivityPage
build_activity db = record {
  recent_users = map recent_user (take 15 (order_by (λ a b. leb b.last_seen a.last_seen) db.users));
  audit = map audit_row (take 25 (order_by (λ a b. leb b.ts a.ts) db.audit_log));
  pending_outbound =
      map pending_row (take 20 (order_by sent_before (filter is_pending db.outbound_queue)));
}

-- A row of the page of users; the age is 0 where the clock is behind.
pub record UserRow : Type 0 where
  pub name : Text
  pub user : User
  pub pubkey_prefix : Text
  pub corescope_url : Text
  pub last_seen_age : ℕ

abbrev pub corescope_url : Text → Text
corescope_url pk = lit "https://corescope.wmcd.net.au/#/nodes/" ++ pk

unfoldable pub build_users : Db → ℕ → List UserRow
build_users db now =
    map
      (λ u. record {
        name = name_of_user u;
        user = u;
        pubkey_prefix = short_key u.pubkey;
        corescope_url = corescope_url u.pubkey;
        last_seen_age = now - u.last_seen;
      })
      (list_all_users db)

pub record BoardRow : Type 0 where
  pub board : Board
  pub post_count : ℕ

unfoldable pub build_boards : Db → List BoardRow
build_boards db =
    map
      (λ b. record {
        board = b;
        post_count = count_rows (λ p. not p.deleted && str_eq p.board_slug b.slug) db.board_posts;
      })
      (list_boards db)

pub record PostRow : Type 0 where
  pub post : BoardPost
  pub author_name : Text

pub record PostsPage : Type 0 where
  pub slug : Text
  pub posts : List PostRow

abbrev author_name : Db → Text → Text
author_name db pk = elim (get_user db pk) [ none ↦ take 8 pk | some u ↦ name_of_user u ]

module _ (u : Unicode) where
  -- none is a missing board.
  unfoldable pub build_board_posts : Db → Text → ℕ → ℕ → Result (Option PostsPage)
  build_board_posts db slug limit offset = elim (get_board u db slug) [
    | none ↦ ok none
    | some board ↦ elim (list_posts u db slug limit offset) [
      | err e ↦ err e
      | ok posts ↦ ok (
          some (record {
            slug = board.slug;
            posts =
                map (λ p. record { post = p; author_name = author_name db p.author_pubkey }) posts;
          }))
    ]
  ]

  abbrev pub board_posts_default_limit : ℕ
  board_posts_default_limit = 50

  abbrev pub board_posts_max_limit : ℕ
  board_posts_max_limit = 200

  -- The arguments are the slug of the path and the numbers of the query.
  unfoldable pub api_board_posts_list : Db → Text → Option Text → Option Text → Reply PostsPage
  api_board_posts_list db slug limit offset =
      elim (build_board_posts db (lower u slug)
        (clamp 1 board_posts_max_limit (query_int u limit board_posts_default_limit))
        (at_least_zero (query_int u offset 0))) [
          | err e ↦ raised e
          | ok none ↦ refused 404 (lit "board not found")
          | ok (some page) ↦ answered page
        ]
