-- ===== src/Dashboard/QueueView.antt =====
-- build_queue: the pending messages with their paths, names and pauses, each looked up once.
use meshcore_bbs.Dashboard.{short_key}
use meshcore_bbs.Db.{Db}
use meshcore_bbs.Db.Outbound.{get_outbound_pause_until, list_pending_outbound}
use meshcore_bbs.Db.Users.{get_user}
use meshcore_bbs.Dispatcher.{fmt_path}
use meshcore_bbs.Models.{MsgKind, OutboundMessage, notification, response}
use meshcore_bbs.Prelude.{
  Bool, List, Option, [], if◌then◌else◌, leb, length, ltb, none, null, or_else, some, take, true, ℕ,
  ◌&&◌, ◌==◌, ◌∷◌,
}
use meshcore_bbs.Text.{Text, lit, str_eq}

pub record QueueItem : Type 0 where
  pub id : ℕ
  pub to_pubkey_prefix : Text
  pub to_name : Option Text
  pub path : List Text
  pub path_display : Option Text
  pub nature : Text
  pub trigger_command : Option Text
  pub attempts : ℕ
  pub priority : ℕ
  pub enqueued_at : ℕ
  pub next_attempt : ℕ
  pub ready : Bool
  pub paused_until : Option ℕ
  pub body_preview : Text

pub record QueuePage : Type 0 where
  pub pending : List QueueItem
  pub depth : ℕ

-- What the radio answers to a path request: none is an exception.
pub record Paths : Type 0 where
  pub radio_available : Bool
  pub resolve_inbound_path : Text → Option (List Text)

unfoldable pub path_to : Paths → Text → List Text
path_to radio pk = if radio.radio_available then or_else (radio.resolve_inbound_path pk) [] else []

abbrev pub display_name_of : Db → Text → Option Text
display_name_of db pk = elim (get_user db pk) [ none ↦ none | some u ↦ u.display_name ]

abbrev msg_kind_text : MsgKind → Text
msg_kind_text response = lit "response"
msg_kind_text notification = lit "notification"

abbrev nature_of : OutboundMessage → Text
nature_of m = if ltb 0 m.attempts then lit "retry" else msg_kind_text m.msg_kind

-- `not paused_until`: null and 0.
abbrev is_unpaused : Option ℕ → Bool
is_unpaused none = true
is_unpaused (some t) = t == 0

abbrev shown_path : List Text → Option Text
shown_path path = let s = fmt_path path in if null s then none else some s

abbrev pub queue_item : ℕ → OutboundMessage → List Text → Option Text → Option ℕ → QueueItem
queue_item now m path name paused_until = record {
  id = m.id;
  to_pubkey_prefix = short_key m.to_pubkey;
  to_name = name;
  path = path;
  path_display = shown_path path;
  nature = nature_of m;
  trigger_command = m.trigger_command;
  attempts = m.attempts;
  priority = m.priority;
  enqueued_at = m.enqueued_at;
  next_attempt = m.next_attempt;
  ready = leb m.next_attempt now && is_unpaused paused_until;
  paused_until = paused_until;
  body_preview = take 80 m.body;
}

-- The three dictionaries, which are filled together: a key that is in one is in all.
pub record Looked : Type 0 where
  pub path : List Text
  pub name : Option Text
  pub paused_until : Option ℕ

unfoldable pub cached : Text → List (Text × Looked) → Option Looked
cached pk [] = none
cached pk ((k, v) ∷ cache) = if str_eq k pk then some v else cached pk cache

module _ (radio : Paths) (now : ℕ) where
  -- A first look at a recipient. Reading an expired pause deletes it.
  abbrev pub look_up : Text → Db → Db × Looked
  look_up pk db = (
    (get_outbound_pause_until db now pk).0,
    record {
      path = path_to radio pk;
      name = display_name_of db pk;
      paused_until = (get_outbound_pause_until db now pk).1;
    },
  )

  -- The loop over the messages.
  unfoldable pub queue_items :
      List OutboundMessage → List (Text × Looked) → Db → Db × List QueueItem
  queue_items [] cache db = (db, [])
  queue_items (m ∷ messages) cache db = elim (cached m.to_pubkey cache) [
    | some l ↦
        let rest = queue_items messages cache db in
        (rest.0, queue_item now m l.path l.name l.paused_until ∷ rest.1)
    | none ↦
        let (looked, l) = look_up m.to_pubkey db in
        let rest = queue_items messages ((m.to_pubkey, l) ∷ cache) looked in
        (rest.0, queue_item now m l.path l.name l.paused_until ∷ rest.1)
  ]

  unfoldable pub build_queue : Db → Db × QueuePage
  build_queue db =
      let built = queue_items (list_pending_outbound db 100) [] db in
      (built.0, record { pending = built.1; depth = length built.1 })
