-- ===== src/Commands.antt =====
-- commands.py: the parser of a line, and the help texts.
pub mod Parsing
use mathlib.Core.Option
use meshcore_bbs.Prelude.{
  Bool, List, Option, [], drop, false, find_row, if◌then◌else◌, none, not, null, or_else, some,
  ◌&&◌, ◌++◌, ◌∷◌,
}
use meshcore_bbs.Text.{
  Text, Unicode, is_space, lit, lstrip, same_char, split_on, split_spaces, str_eq, strip, upper,
}

pub record ParsedCommand : Type 0 where
  pub verb : Text
  pub args : List Text
  pub rest : Text

abbrev pub first_word : List Text → Text
first_word [] = []
first_word (w ∷ ws) = w

module _ (u : Unicode) where
  -- `^\s*w₁\s+…\s+wₙ\s*` of `re.match` with IGNORECASE: what stands behind the match. The words
  -- hold no white space, so each run of white space is matched whole.
  match_word : Text → Text → Option Text
  match_word [] line = some line
  match_word (c ∷ w) [] = none
  match_word (c ∷ w) (d ∷ line) =
      let rest = match_word w line in if same_char u c d then rest else none

  abbrev starts_with_space : Text → Bool
  starts_with_space [] = false
  starts_with_space (c ∷ s) = is_space c

  match_words : List Text → Text → Option Text
  match_words [] line = some line
  match_words (w ∷ []) line = Option.map lstrip (match_word w line)
  match_words (w ∷ v ∷ ws) line = elim (match_word w line) [
    | none ↦ none
    | some behind ↦
        let rest = match_words (v ∷ ws) (lstrip behind) in
        if starts_with_space behind then rest else none
  ]

  -- The verb with its subcommands, and the arguments behind them.
  unfoldable pub take_verb : List Text → Text × List Text
  take_verb tokens =
      let verb = upper u (first_word tokens) in
      let args = drop 1 tokens in
      if str_eq verb (lit "ADMIN") && not (null args)
      then (let admin_verb = lit "ADMIN " ++ upper u (first_word args) in
          let admin_args = drop 1 args in
          if not (null admin_args) && str_eq admin_verb (lit "ADMIN BOARD")
          then (admin_verb ++ (lit " " ++ upper u (first_word admin_args)), drop 1 admin_args)
          else (admin_verb, admin_args))
      else (verb, args)

  unfoldable pub parse : Text → Option ParsedCommand
  unfolding strip split_spaces split_on match_words match_word take_verb
  parse line =
      let stripped = strip line in
      let (verb, args) = take_verb (split_spaces false stripped) in
      if null stripped
      then none
      else some (record {
        verb = verb;
        args = args;
        rest = strip (or_else (match_words (split_on 32 verb) (lstrip stripped)) stripped);
      })

abbrev pub help_overview : Text
help_overview =
    lit
      "Cmds: HELP WHOAMI NAME WHO PING NEWS WX BOARDS READ POST\nMAIL INBOX READMAIL SEND DELETE STATUS\nHELP <cmd> for details."

abbrev help_topics : List (Text × Text)
help_topics =
    (lit "HELP", lit "HELP [topic] - list cmds or detail on one.")
    ∷ (lit "WHOAMI", lit "WHOAMI - show your name and pubkey prefix.")
    ∷ (lit "NAME", lit "NAME <new> - set display name (1-10 chars, A-Z 0-9 _ - emoji).")
    ∷ (lit "WHO", lit "WHO - list up to 5 recently active users with hop count.")
    ∷ (lit "PING", lit "PING - pong with the mesh path taken to reach the BBS.")
    ∷ (lit "NEWS", lit "NEWS [feed] - top headlines, optionally from one feed.")
    ∷ (lit "WX", lit "WX [station] - weather summary (default: BBS-local).")
    ∷ (lit "BOARDS", lit "BOARDS - list public boards.")
    ∷ (lit "READ", lit "READ <board> [page] - read posts (5/page, newest first).")
    ∷ (lit "POST", lit "POST <board> <text> - post to a board.")
    ∷ (lit "MAIL", lit "MAIL - show unread/total counts.")
    ∷ (lit "INBOX", lit "INBOX [page] - list inbox, unread first.")
    ∷ (lit "READMAIL", lit "READMAIL <id> - read a mail and mark it read.")
    ∷ (lit "SEND", lit "SEND <user> <text> - send mail (name, partial name, or pubkey).")
    ∷ (lit "DELETE", lit "DELETE <id> - delete a mail.")
    ∷ (lit "STATUS", lit "STATUS - BBS uptime, version, outbound queue depth.")
    ∷ (lit "ADVERT", lit "ADVERT - send flood advertisement (admin only).")
    ∷ (lit "ADMIN", lit "ADMIN BAN|UNBAN|BOARD ADD|BOARD DEL|BROADCAST")
    ∷ []

-- `help_text(topic)`; no topic and an empty one give the overview.
unfoldable pub help_text : Unicode → Option Text → Text
help_text u none = help_overview
help_text u (some topic) =
    if null topic
    then help_overview
    else elim (find_row (λ entry. str_eq entry.0 (upper u topic)) help_topics) [
      | none ↦ lit "? Unknown topic: " ++ topic
      | some entry ↦ entry.1
    ]
