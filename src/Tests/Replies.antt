-- ===== src/Tests/Replies.antt =====
-- Texts that are split and read, and requests that are counted.
use meshcore_bbs.Commands.{parse}
use meshcore_bbs.Commands.Parsing.{parse_word}
use meshcore_bbs.Db.{Db}
use meshcore_bbs.Db.RateWindows.{get_rate_window}
use meshcore_bbs.Format.{number_packets, pack_lines, prefix, split_packets}
use meshcore_bbs.Format.Pack.{letters}
use meshcore_bbs.Format.Split.{split_packets-Fits, split_packets_content, split_packets_long_second}
use meshcore_bbs.Format.Wrap.{Fits}
use meshcore_bbs.Prelude.{List, [], arith, inl, refl, some, true, ℕ, ◌*◌, ◌++◌, ◌∷◌, ◌≡◌, ◌≤◌, ◌⊎◌}
use meshcore_bbs.RateLimiter.{RateLimit, check_and_consume}
use meshcore_bbs.RateLimiter.Bounds.{
  Request, count_allowed, count_allowed-le, count_allowed-le-double,
}
use meshcore_bbs.RateLimiter.Window.{check_and_consume_retry}
use meshcore_bbs.Tests.{alice_key, plain, some_db}
use meshcore_bbs.Text.{
  Text, concat, is_space, lit, parse_int, rstrip, rstrip_newline, split_on, split_spaces, str_eq,
  upper, utf8_len,
}
use meshcore_bbs.Text.Decimal.{parse_int-str, str}

split_packets_content_example :
    (bodies : List Text) × (letters (concat bodies) ≡ letters (lit "a\nb"))
    × ((split_packets (lit "a\nb") 2 ≡ bodies)
        ⊎ ((n : ℕ) × (split_packets (lit "a\nb") 2 ≡ number_packets 0 n bodies)))
split_packets_content_example = split_packets_content (lit "a\nb") 2

abbrev two_lines : Text
two_lines = lit "0123456789012345\n012345678"

split_packets-Fits_example : Fits 22 (split_packets two_lines 22)
split_packets-Fits_example =
    split_packets-Fits two_lines 22
      (unfold pack_lines split_on rstrip_newline utf8_len prefix str in omega arith)
      (unfold pack_lines split_on rstrip_newline utf8_len prefix str in (omega arith, tt))
      (unfold pack_lines split_on rstrip_newline utf8_len prefix str in omega arith)

abbrev long_line : Text
long_line = lit "0123456789012345678901234"

split_packets_long_second_example :
    split_packets (lit "From Bob:" ++ 10 ∷ long_line) 22
    ≡ (prefix 1 2 ++ lit "From Bob:") ∷ (prefix 2 2 ++ long_line) ∷ []
split_packets_long_second_example =
    split_packets_long_second (lit "From Bob:") long_line 22 (ground arith) (ground arith)
      (omega arith) (unfold utf8_len in omega arith) (unfold utf8_len in omega arith)

parse_int-str_example : parse_int plain 0 (str 1203) ≡ some 1203
parse_int-str_example = parse_int-str plain 1203

abbrev two_a_minute : RateLimit
two_a_minute = record { limit = 2; window_seconds = 60 }

abbrev request : ℕ → Request
request now = record {
  pubkey = alice_key;
  bucket = lit "inbound_min";
  limit = two_a_minute;
  now = now;
}

abbrev burst : List Request
burst = request 100 ∷ request 101 ∷ request 102 ∷ request 110 ∷ []

count_allowed-le-double_example : count_allowed some_db alice_key (lit "inbound_min") burst ≤ 2 * 2
count_allowed-le-double_example =
    count_allowed-le-double some_db alice_key (lit "inbound_min") 100 60 2 burst (omega arith)
      (ground arith)

count_allowed-le_example : count_allowed some_db alice_key (lit "inbound_min") burst ≤ 2
count_allowed-le_example =
    count_allowed-le some_db alice_key (lit "inbound_min") 100 60 2 burst (omega arith)
      (inl (unfold get_rate_window in refl)) (ground arith)

abbrev spent : Db
spent = record some_db {
  rate_limits =
      record { pubkey = alice_key; bucket = lit "inbound_min"; window_start = 100; count = 2 } ∷ [];
}

check_and_consume_retry_example :
    let d = check_and_consume spent 110 alice_key (lit "inbound_min") two_a_minute in
    (d.0 ≡ spent)
    × (1 ≤ d.1.retry_in_seconds)
    × ((check_and_consume spent 160 alice_key (lit "inbound_min") two_a_minute).1.allowed ≡ true)
check_and_consume_retry_example =
    check_and_consume_retry spent 110 alice_key (lit "inbound_min") two_a_minute 160
      (unfold check_and_consume get_rate_window str_eq in refl)
      (unfold check_and_consume get_rate_window str_eq in omega arith)

parse_word_example :
    parse plain (lit "post general hi there")
    ≡ some (record {
      verb = lit "POST";
      args = lit "general" ∷ lit "hi" ∷ lit "there" ∷ [];
      rest = lit "general hi there";
    })
unfolding upper split_spaces
parse_word_example =
    parse_word plain 112 (lit "ost") 103 (lit "eneral hi there") refl (unfold upper str_eq in refl)
      (unfold is_space in refl) (unfold rstrip is_space in refl)
