-- ===== src/Dispatcher/Simple.antt =====
-- dispatcher.py: the handlers that only read.
use meshcore_bbs.Commands.{ParsedCommand}
use meshcore_bbs.Db.{Result, err, ok}
use meshcore_bbs.Db.News.{recent_news}
use meshcore_bbs.Db.Outbound.{outbound_pending_depth}
use meshcore_bbs.Db.Users.{get_user, recent_active_users}
use meshcore_bbs.Dispatcher.{
  Bbs, Handled, Setting, fmt_age, fmt_path, fmt_uptime, int_of, maybe_int, reply, reply_result,
  with_db,
}
use meshcore_bbs.Models.{NewsItem, User}
use meshcore_bbs.Prelude.{
  Bool, List, Option, [], drop, false, if◌then◌else◌, length, ltb, map, max, none, null, some, take,
  true, ℕ, ◌*◌, ◌++◌, ◌+◌, ◌-◌, ◌==◌, ◌∷◌,
}
use meshcore_bbs.Services.{text_or}
use meshcore_bbs.Services.Boards.{read_text}
use meshcore_bbs.Services.Mails.{inbox_text}
use meshcore_bbs.Services.Weather.{summary_for}
use meshcore_bbs.Text.{Text, is_digit, join, lit, lower}
use meshcore_bbs.Text.Decimal.{str}
use meshcore_bbs.Transport.{InboundMessage}

abbrev pub is_direct : Option ℕ → Bool
is_direct none = false
is_direct (some hops) = hops == 0

module _ (e : Setting) (now : ℕ) where
  unfoldable pub handle_whoami : Text → Text → Bbs → Handled
  handle_whoami verb pk bbs = elim (get_user bbs.db pk) [
    | none ↦ reply e now pk (some verb) (lit "? Unknown.") bbs
    | some user ↦
        reply e now pk (some verb)
          (text_or user.display_name (lit "(unset)") ++ (lit " " ++ take 12 pk)) bbs
  ]

  abbrev who_hops : Option ℕ → Text
  who_hops none = []
  who_hops (some hops) = lit " " ++ (str hops ++ lit "hop")

  abbrev who_line : User → Text
  who_line user =
      text_or user.display_name (text_or user.adv_name (take 8 user.pubkey))
      ++ (lit " (" ++ (fmt_age (now - user.last_seen) ++ (who_hops user.last_hops ++ lit ")")))

  unfoldable pub handle_who : Text → Text → Bbs → Handled
  handle_who verb pk bbs =
      let users = recent_active_users bbs.db 5 in
      if null users
      then reply e now pk (some verb) (lit "No active users yet.") bbs
      else reply e now pk (some verb) (join (lit "\n") (map who_line users)) bbs

  abbrev ping_hops : Option ℕ → Text
  ping_hops none = lit "?"
  ping_hops (some hops) =
      if hops == 0
      then lit "direct"
      else str hops ++ (lit " hop" ++ (if hops == 1 then [] else lit "s"))

  -- A direct message has no path; one without a path gets what the radio knows.
  abbrev ping_path : InboundMessage → List Text
  ping_path inbound =
      if is_direct inbound.hops
      then []
      else if null inbound.path
      then e.resolve_inbound_path inbound.pubkey
      else inbound.path

  unfoldable pub handle_ping : Text → InboundMessage → Bbs → Handled
  handle_ping verb inbound bbs =
      let path_str = fmt_path (ping_path inbound) in
      let pong = lit "PONG (" ++ (ping_hops inbound.hops ++ lit ")") in
      if null path_str
      then reply e now inbound.pubkey (some verb) pong bbs
      else reply e now inbound.pubkey (some verb) (pong ++ (lit " via " ++ path_str)) bbs

  -- The loop over the arguments: the feed and the page.
  news_args : Option Text → ℕ → List Text → Result (Option Text × ℕ)
  news_args feed page [] = ok (feed, page)
  news_args feed page (a ∷ args) = elim (is_digit e.unicode a) [
    | false ↦ news_args (some (lower e.unicode a)) page args
    | true ↦ elim (int_of e.unicode a) [
      | err error ↦ err error
      | ok n ↦ news_args feed (max 1 n) args
    ]
  ]

  news_lines : ℕ → List Text → List Text
  news_lines i [] = []
  news_lines i (title ∷ titles) =
      (lit "[" ++ (str i ++ (lit "] " ++ take 100 title))) ∷ news_lines (i + 1) titles

  abbrev more_news : Option Text → ℕ → List Text
  more_news feed page =
      (lit "[more: NEWS "
        ++ (elim feed [
          | none ↦ str (page + 1)
          | some slug ↦ if null slug then str (page + 1) else slug ++ (lit " " ++ str (page + 1))
        ]
            ++ lit "]"))
      ∷ []

  abbrev news_text : Option Text → ℕ → List Text → Text
  news_text feed page items =
      let page_items = take 5 (drop ((page - 1) * 5) items) in
      if null page_items
      then (if page == 1
          then lit "No news."
          else lit "No more news (page " ++ (str page ++ lit ")."))
      else join (lit "\n") (
          news_lines ((page - 1) * 5 + 1) page_items
          ++ (if ltb (page * 5) (length items) then more_news feed page else []))

  abbrev titled : Option Text → ℕ → Result (List NewsItem) → Result Text
  titled feed page (err error) = err error
  titled feed page (ok items) = ok (news_text feed page (map (λ i. i.title) items))

  unfoldable pub handle_news : Text → Text → ParsedCommand → Bbs → Handled
  unfolding news_args news_lines
  handle_news verb pk parsed bbs = elim (news_args none 1 parsed.args) [
    | err error ↦ (bbs, some error)
    | ok (feed, page) ↦
        reply_result e now pk (some verb) (titled feed page (recent_news bbs.db (5 * page) feed))
          bbs
  ]

  unfoldable pub handle_wx : Text → Text → ParsedCommand → Bbs → Handled
  handle_wx verb pk parsed bbs =
      let (db, text) = summary_for e.services.weather e.json e.fetched now bbs.db in
      reply e now pk (some verb) text (with_db db bbs)

  unfoldable pub handle_status : Text → Text → Bbs → Handled
  handle_status verb pk bbs =
      reply e now pk (some verb)
        (lit "v"
          ++ (e.version
              ++ (lit " up "
                  ++ (fmt_uptime (now - e.started_at)
                      ++ (lit " q=" ++ str (outbound_pending_depth bbs.db))))))
        bbs

  unfoldable pub handle_read : Text → Text → ParsedCommand → Bbs → Handled
  handle_read verb pk parsed bbs = elim parsed.args [
    | [] ↦ reply e now pk (some verb) (lit "! READ <board> [page]") bbs
    | slug ∷ args ↦ elim (maybe_int e.unicode parsed.args 1 1) [
      | err error ↦ (bbs, some error)
      | ok page ↦ reply_result e now pk (some verb) (read_text e.unicode bbs.db slug page) bbs
    ]
  ]

  unfoldable pub handle_inbox : Text → Text → ParsedCommand → Bbs → Handled
  handle_inbox verb pk parsed bbs = elim (maybe_int e.unicode parsed.args 0 1) [
    | err error ↦ (bbs, some error)
    | ok page ↦ reply_result e now pk (some verb) (inbox_text bbs.db pk page) bbs
  ]
