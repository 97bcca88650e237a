-- ===== src/Transport.antt =====
-- transport/base.py: what the rest of the program sees of the radio.
pub mod MeshCore
pub mod Mock
use meshcore_bbs.Prelude.{Bool, List, Option, ℕ}
use meshcore_bbs.Text.{Text, lit}

pub data SendOutcome : Type 0 where
  delivered no_ack failure : SendOutcome

-- The value of the enumeration.
abbrev pub outcome_value : SendOutcome → Text
outcome_value delivered = lit "ok"
outcome_value no_ack = lit "no_ack"
outcome_value failure = lit "error"

-- A decrypted direct message. `hops` is 0 for a direct one, and none where it is unknown.
pub record InboundMessage : Type 0 where
  pub pubkey : Text
  pub adv_name : Option Text
  pub body : Text
  pub received_at : ℕ
  pub hops : Option ℕ
  pub path : List Text

-- `TransportEvent`, with the fields that each `TransportEventType` uses. The inbound message may be
-- missing.
pub data TransportEvent : Type 0 where
  connected : Bool → TransportEvent
  disconnected : TransportEvent
  contact_msg_recv : Option InboundMessage → TransportEvent
  new_contact advertisement mesh_activity : Option Text → TransportEvent
