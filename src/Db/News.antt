-- ===== src/Db/News.antt =====
-- The section `news` of db.py.
pub mod Trim
use meshcore_bbs.Db.{Db, NewsFeed, Result, ok, sql_int}
use meshcore_bbs.Db.Users.{text_le}
use meshcore_bbs.Models.{NewsItem}
use meshcore_bbs.Prelude.{
  Bool, List, Option, [], any, false, filter, find_row, if◌then◌else◌, leb, map, none, not, null,
  order_by, some, take, true, update_rows, ℕ, ◌&&◌, ◌++◌, ◌+◌, ◌==◌, ◌||◌, ◌∷◌,
}
use meshcore_bbs.Text.{Text, str_eq}

abbrev has_slug : Text → NewsFeed → Bool
has_slug slug f = str_eq f.slug slug

-- The feed that is there is enabled again; the id of the feed.
unfoldable pub upsert_news_feed : Db → Text → Text → Db × ℕ
upsert_news_feed db slug url = elim (find_row (has_slug slug) db.news_feeds) [
  | some f ↦ (
    record db {
      news_feeds =
          update_rows (λ g. g.id == f.id) (λ g. record g { url = url; enabled = true })
            db.news_feeds;
    },
    f.id,
  )
  | none ↦ (
    record db {
      news_feeds =
          db.news_feeds
          ++ record { id = db.next_feed; slug = slug; url = url; enabled = true } ∷ [];
      next_feed = db.next_feed + 1;
    },
    db.next_feed,
  )
]

-- The loop over the enabled feeds: one UPDATE for each slug that is not configured.
unfoldable pub disable_feeds_not_in : Db → List Text → Db
disable_feeds_not_in db slugs = record db {
  news_feeds =
      update_rows (λ f. f.enabled && not (any (str_eq f.slug) slugs))
        (λ f. record f { enabled = false }) db.news_feeds;
}

-- `ORDER BY slug`.
unfoldable pub list_feed_ids : Db → List (ℕ × Text × Text)
list_feed_ids db =
    map (λ f. (f.id, f.slug, f.url))
      (order_by (λ a b. text_le a.slug b.slug) (filter (λ f. f.enabled) db.news_feeds))

-- `false` is the IntegrityError of the UNIQUE hash or of the FOREIGN KEY.
unfoldable pub insert_news_item : Db → ℕ → Text → Option Text → ℕ → Text → Db × Bool
insert_news_item db feed_id title url ts hash =
    if any (λ i. str_eq i.hash hash) db.news_items || not (any (λ f. f.id == feed_id) db.news_feeds)
    then (db, false)
    else (
      record db {
        news_items =
            db.news_items
            ++ record {
              id = db.next_item;
              feed_id = feed_id;
              title = title;
              url = url;
              ts = ts;
              hash = hash;
            }
              ∷ [];
        next_item = db.next_item + 1;
      },
      true,
    )

-- `ORDER BY ts DESC`.
abbrev pub newer : NewsItem → NewsItem → Bool
newer a b = leb b.ts a.ts

-- The rows that the JOIN keeps for a feed.
abbrev of_feed : Db → Text → NewsItem → Bool
of_feed db slug i = any (λ f. f.id == i.feed_id && str_eq f.slug slug) db.news_feeds

unfoldable pub recent_news : Db → ℕ → Option Text → Result (List NewsItem)
recent_news db limit none = sql_int limit (ok (take limit (order_by newer db.news_items)))
recent_news db limit (some slug) = sql_int limit (
    ok (
      take limit (
        order_by newer
          (if null slug then db.news_items else filter (of_feed db slug) db.news_items))))

-- The ids that the inner SELECT returns.
abbrev kept_ids : Db → ℕ → ℕ → List ℕ
kept_ids db feed_id keep_n =
    map (λ i. i.id)
      (take keep_n (order_by newer (filter (λ i. i.feed_id == feed_id) db.news_items)))

unfoldable pub trim_feed_to : Db → ℕ → ℕ → Db
trim_feed_to db feed_id keep_n = record db {
  news_items =
      filter
        (λ i. not (i.feed_id == feed_id && not (any (λ k. k == i.id) (kept_ids db feed_id keep_n))))
        db.news_items;
}
