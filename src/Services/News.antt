-- ===== src/Services/News.antt =====
-- services/news.py: the feeds and their headlines. The answer of a server, as feedparser reads it,
-- is a list of entries; SHA-256 is a parameter.
use meshcore_bbs.Config.{ConfiguredFeed, NewsConfig}
use meshcore_bbs.Db.{Db, Result, err, ok}
use meshcore_bbs.Db.News.{
  disable_feeds_not_in, insert_news_item, list_feed_ids, recent_news, trim_feed_to,
  upsert_news_feed,
}
use meshcore_bbs.Format.{truncate}
use meshcore_bbs.Models.{NewsItem}
use meshcore_bbs.Prelude.{
  List, Option, [], false, if◌then◌else◌, map, none, null, or_else, some, take, true, ℕ, ◌++◌, ◌+◌,
  ◌==◌, ◌∷◌,
}
use meshcore_bbs.Text.{Text, join, lit, strip}
use meshcore_bbs.Text.Decimal.{str}

abbrev pub headline_max_chars : ℕ
headline_max_chars = 100

-- A time of an entry: none, one that `time.mktime` refuses, or its seconds.
pub data EntryTime : Type 0 where
  no_time bad_time : EntryTime
  at : ℕ → EntryTime

pub record Entry : Type 0 where
  pub title : Option Text
  pub link : Option Text
  pub published_parsed : EntryTime
  pub updated_parsed : EntryTime

unfoldable pub entry_ts : Entry → Option ℕ
entry_ts entry = elim entry.published_parsed [
  | at t ↦ some t
  | _ ↦ elim entry.updated_parsed [ at t ↦ some t | _ ↦ none ]
]

-- `_entry_ts(entry) or int(time.time())`.
abbrev pub published_at : Entry → ℕ → ℕ
published_at entry now = elim (entry_ts entry) [ none ↦ now | some t ↦ if t == 0 then now else t ]

abbrev pub configured_slugs : NewsConfig → List Text
configured_slugs cfg = map (λ f. f.slug) cfg.feeds

upsert_feeds : Db → List ConfiguredFeed → Db
upsert_feeds db [] = db
upsert_feeds db (f ∷ feeds) = upsert_feeds (upsert_news_feed db f.slug f.url).0 feeds

unfoldable pub initialise_feeds : NewsConfig → Db → Db
unfolding upsert_feeds
initialise_feeds cfg db = disable_feeds_not_in (upsert_feeds db cfg.feeds) (configured_slugs cfg)

module _ (sha256 : Text → Text) where
  abbrev pub item_hash : ℕ → Text → Option Text → Text
  item_hash feed_id title link =
      sha256 (str feed_id ++ (lit "|" ++ (title ++ (lit "|" ++ or_else link []))))

  -- The loop over the entries: the database and the number of new items.
  unfoldable pub insert_entries : ℕ → ℕ → List Entry → Db → Db × ℕ
  insert_entries now feed_id [] db = (db, 0)
  insert_entries now feed_id (entry ∷ entries) db =
      let title = strip (or_else entry.title []) in
      let inserted =
        insert_news_item db feed_id title entry.link (published_at entry now)
          (item_hash feed_id title entry.link) in
      elim (null title) [
        | true ↦ insert_entries now feed_id entries db
        | false ↦
            let rest = insert_entries now feed_id entries inserted.0 in
            (rest.0, (if inserted.1 then 1 else 0) + rest.1)
      ]

  unfoldable pub refresh_one : NewsConfig → ℕ → ℕ → List Entry → Db → Db × ℕ
  refresh_one cfg now feed_id entries db =
      let (inserted, new_count) =
        insert_entries now feed_id (take cfg.max_items_per_feed entries) db in
      (trim_feed_to inserted feed_id cfg.max_items_per_feed, new_count)

  -- `respond url` is what the server answers; none is an exception, which skips the feed.
  unfoldable pub refresh_feeds :
      NewsConfig → ℕ → (Text → Option (List Entry)) → List (ℕ × Text × Text) → Db → Db × ℕ
  refresh_feeds cfg now respond [] db = (db, 0)
  refresh_feeds cfg now respond ((feed_id, slug, url) ∷ feeds) db = elim (respond url) [
    | none ↦ refresh_feeds cfg now respond feeds db
    | some entries ↦
        let (refreshed, new_count) = refresh_one cfg now feed_id entries db in
        let rest = refresh_feeds cfg now respond feeds refreshed in (rest.0, new_count + rest.1)
  ]

  unfoldable pub refresh_all : NewsConfig → ℕ → (Text → Option (List Entry)) → Db → Db × ℕ
  refresh_all cfg now respond db = refresh_feeds cfg now respond (list_feed_ids db) db

-- `_format_item` over an enumeration.
format_items : ℕ → List NewsItem → List Text
format_items idx [] = []
format_items idx (item ∷ items) =
    (lit "[" ++ (str idx ++ (lit "] " ++ truncate item.title headline_max_chars)))
    ∷ format_items (idx + 1) items

unfoldable pub recent_text : Db → ℕ → Option Text → Result Text
unfolding format_items
recent_text db limit feed_slug = elim (recent_news db limit feed_slug) [
  | err e ↦ err e
  | ok items ↦
      ok (if null items then lit "No news yet." else join (lit "\n") (format_items 1 items))
]
