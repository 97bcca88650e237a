-- ===== src/Models.antt =====
-- models.py: the rows of the tables as records. A time is a number of seconds.
use meshcore_bbs.Prelude.{Bool, Option, false, true, ℕ}
use meshcore_bbs.Text.{Text}

pub record User : Type 0 where
  pub pubkey : Text
  pub display_name : Option Text
  pub display_name_lc : Option Text
  pub adv_name : Option Text
  pub first_seen : ℕ
  pub last_seen : ℕ
  pub msg_count : ℕ
  pub onboarded : Bool
  pub motd_sent : Bool
  pub banned : Bool
  pub banned_reason : Option Text
  pub last_hops : Option ℕ

pub record Board : Type 0 where
  pub slug : Text
  pub description : Text
  pub created_at : ℕ

pub record BoardPost : Type 0 where
  pub id : ℕ
  pub board_slug : Text
  pub author_pubkey : Text
  pub body : Text
  pub ts : ℕ
  pub deleted : Bool

pub record Mail : Type 0 where
  pub id : ℕ
  pub from_pubkey : Text
  pub to_pubkey : Text
  pub body : Text
  pub sent_at : ℕ
  pub read_at : Option ℕ
  pub deleted : Bool

pub record NewsItem : Type 0 where
  pub id : ℕ
  pub feed_id : ℕ
  pub title : Text
  pub url : Option Text
  pub ts : ℕ
  pub hash : Text

-- The values of the column `status`.
pub data Status : Type 0 where
  pending sent failed dropped cancelled : Status

pub data MsgKind : Type 0 where
  response notification : MsgKind

-- A higher priority is sent sooner.
pub record OutboundMessage : Type 0 where
  pub id : ℕ
  pub to_pubkey : Text
  pub body : Text
  pub enqueued_at : ℕ
  pub attempts : ℕ
  pub next_attempt : ℕ
  pub status : Status
  pub priority : ℕ
  pub trigger_command : Option Text
  pub msg_kind : MsgKind

abbrev pub is_pending : OutboundMessage → Bool
is_pending m = elim m.status [ pending ↦ true | _ ↦ false ]
