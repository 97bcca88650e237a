-- ===== src/Db/News/Trim.antt =====
-- How many items of a feed are left after a trimming.
use meshcore_bbs.Db.{Db}
use meshcore_bbs.Db.News.{kept_ids, newer, trim_feed_to}
use meshcore_bbs.Models.{NewsItem}
use meshcore_bbs.Prelude.{
  All, Bool, Distinct, List, [], any, arith, count_rows, filter, length, length-take, map, not,
  order_by, refl, take, ℕ, ◌&&◌, ◌+◌, ◌==◌, ◌∷◌, ◌≡◌, ◌≢◌, ◌≤◌,
}

abbrev is_id : ℕ → NewsItem → Bool
is_id k i = k == i.id

-- Whether an id is among those that stay.
abbrev stays : List ℕ → NewsItem → Bool
stays kept i = any (λ k. k == i.id) kept

count_id-le :
    (k : ℕ) (items : List NewsItem)
    → Distinct (map (λ i. i.id) items)
    → count_rows (is_id k) items ≤ 1
count_id-le k [] d = omega arith
count_id-le k (i ∷ items) d = ground (arith, count_id-le k items d.1, count_absent k items, d.0)
  where
    count_absent :
        (k : ℕ) (items : List NewsItem)
        → All (λ y. y ≢ k) (map (λ i. i.id) items)
        → count_rows (is_id k) items ≡ 0
    count_absent k [] h = refl
    count_absent k (i ∷ items) h = ground (arith, h.0, count_absent k items h.1)

count_stays-le :
    (kept : List ℕ) (items : List NewsItem)
    → Distinct (map (λ i. i.id) items)
    → count_rows (stays kept) items ≤ length kept
count_stays-le [] items d = omega (arith, none_stays items)
  where
    none_stays : (items : List NewsItem) → count_rows (stays []) items ≡ 0
    none_stays [] = refl
    none_stays (i ∷ items) = omega (arith, none_stays items)
count_stays-le (k ∷ kept) items d =
    omega (arith, split items, count_id-le k items d, count_stays-le kept items d)
  where
    split :
        (items : List NewsItem)
        → count_rows (stays (k ∷ kept)) items
          ≤ count_rows (is_id k) items + count_rows (stays kept) items
    split [] = omega arith
    split (i ∷ items) = ground (arith, split items)

abbrev pub in_feed : ℕ → NewsItem → Bool
in_feed feed_id i = i.feed_id == feed_id

count_trimmed :
    (feed_id : ℕ) (kept : List ℕ) (items : List NewsItem)
    → count_rows
        (in_feed feed_id)
        (filter (λ i. not (in_feed feed_id i && not (stays kept i))) items)
      ≤ count_rows (stays kept) items
count_trimmed feed_id kept [] = omega arith
count_trimmed feed_id kept (i ∷ items) = ground (arith, count_trimmed feed_id kept items)

-- After a trimming a feed has at most as many items as it is trimmed to, if no two items share an
-- id, and the items of every other feed are as before.
pub trim_feed_to-le :
    (db : Db) (feed_id keep_n other : ℕ)
    → Distinct (map (λ i. i.id) db.news_items)
    → (count_rows (in_feed feed_id) (trim_feed_to db feed_id keep_n).news_items ≤ keep_n)
      × (other ≢ feed_id
          → filter (in_feed other) (trim_feed_to db feed_id keep_n).news_items
            ≡ filter (in_feed other) db.news_items)
unfolding trim_feed_to
trim_feed_to-le db feed_id keep_n other d = (
  omega (
    arith,
    count_trimmed feed_id (kept_ids db feed_id keep_n) db.news_items,
    count_stays-le (kept_ids db feed_id keep_n) db.news_items d,
    kept_ids-length,
  ),
  λ apart. others (kept_ids db feed_id keep_n) apart db.news_items,
)
  where
    length-map : (items : List NewsItem) → length (map (λ i. i.id) items) ≡ length items
    length-map [] = refl
    length-map (i ∷ items) = omega (arith, length-map items)

    kept_ids-length : length (kept_ids db feed_id keep_n) ≤ keep_n
    kept_ids-length =
        let rows = order_by newer (filter (λ i. i.feed_id == feed_id) db.news_items) in
        omega (arith, length-map (take keep_n rows), length-take keep_n rows)

    others :
        (kept : List ℕ)
        → other ≢ feed_id
        → (items : List NewsItem)
        → filter (in_feed other) (filter (λ i. not (in_feed feed_id i && not (stays kept i))) items)
          ≡ filter (in_feed other) items
    others kept apart [] = refl
    others kept apart (i ∷ items) = ground (arith, apart, others kept apart items)
