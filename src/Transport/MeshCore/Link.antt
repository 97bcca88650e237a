-- ===== src/Transport/MeshCore/Link.antt =====
-- The link to the companion: the start, the commands and the supervisor that restores it.
use meshcore_bbs.Config.{DeviceConfig}
use meshcore_bbs.Db.{Result, err, ok, runtime_error}
use meshcore_bbs.Prelude.{
  Bool, Option, [], false, if◌then◌else◌, min, none, not, null, or_else, some, true, ℕ, ◌&&◌, ◌*◌,
  ◌==◌, ◌||◌,
}
use meshcore_bbs.Text.{Text, Unicode, lit, lower, str_eq}
use meshcore_bbs.Transport.{SendOutcome, TransportEvent, connected, delivered, failure, no_ack}
use meshcore_bbs.Transport.MeshCore.{MeshCore, MeshCoreTransport, radio_available}

-- What `send_msg_with_retry` returns: none, an event, a flag, or an object without a type, of which
-- the fallbacks read whether "acked" or "success" is true, the "status" and the flag "success".
pub data SendResult : Type 0 where
  no_result msg_sent error_event other_event : SendResult
  a_flag : Bool → SendResult
  an_object : Bool → Text → Option Bool → SendResult

unfoldable pub interpret_send_result : SendResult → SendOutcome
interpret_send_result no_result = no_ack
interpret_send_result msg_sent = delivered
interpret_send_result error_event = failure
interpret_send_result other_event = no_ack
interpret_send_result (a_flag true) = delivered
interpret_send_result (a_flag false) = no_ack
interpret_send_result (an_object acked status success) =
    if acked || str_eq status (lit "ok") || str_eq status (lit "delivered")
    then delivered
    else if str_eq status (lit "no_ack") || str_eq status (lit "timeout")
    then no_ack
    else elim success [ some true ↦ delivered | some false ↦ no_ack | none ↦ failure ]

-- `_run_mc` answers `None` for a timeout and for an exception too.
pub data Command {ℓ} (A : Type ℓ) : Type ℓ where
  returned : A → Command A
  timed_out excepted : Command A

unfoldable pub send_msg : Command SendResult → MeshCoreTransport → SendOutcome
send_msg result t = if not (radio_available t) then failure else elim result [
  | returned no_result ↦ failure
  | returned r ↦ interpret_send_result r
  | _ ↦ failure
]

-- `send_device_query`: the contacts in use and the capacity. An error event is none.
unfoldable pub contact_capacity : Command (Option (Option ℕ)) → MeshCoreTransport → ℕ × ℕ
contact_capacity query t = elim t.mc [
  | none ↦ (0, 0)
  | some mc ↦
      if mc.is_connected
      then elim query [
        | returned (some (some cap)) ↦
            (mc.contact_count, if cap == 0 then mc.contact_count else cap)
        | _ ↦ (mc.contact_count, mc.contact_count)
      ]
      else (mc.contact_count, mc.contact_count)
]

-- `start` up to the check of the key: `created` is what `create_tcp` or `create_serial` returned,
-- with the public key of `self_info`.
unfoldable pub start :
    Unicode → DeviceConfig → Option (MeshCore × Option Text) → Result MeshCoreTransport
start u device none = err runtime_error
start u device (some (mc, public_key)) =
    let self_pubkey = lower u (or_else public_key []) in
    let expected = lower u device.expected_pubkey in
    if null (or_else public_key [])
    then err runtime_error
    else if not (null expected) && not (str_eq expected self_pubkey)
    then err runtime_error
    else ok (record { mc = some mc; self_pubkey = self_pubkey; path_cache = [] })

abbrev pub reconnect_backoff_initial : ℕ
reconnect_backoff_initial = 1

abbrev pub reconnect_backoff_max : ℕ
reconnect_backoff_max = 60

abbrev pub reconnect_backoff_factor : ℕ
reconnect_backoff_factor = 2

-- One round of the supervisor, after its sleep: the next pause, and the event of a reconnection.
unfoldable pub supervise : Bool → Bool → ℕ → ℕ × Option TransportEvent
supervise available reconnects backoff =
    if available
    then (reconnect_backoff_initial, none)
    else if reconnects
    then (reconnect_backoff_initial, some (connected true))
    else (min (backoff * reconnect_backoff_factor) reconnect_backoff_max, none)
