-- ===== src/EventPump.antt =====
-- _event_pump of __main__.py: what is done with an event of the transport.
use meshcore_bbs.Dispatcher.{Bbs, Setting}
use meshcore_bbs.Dispatcher.Inbound.{handle_inbound, record_mesh_activity}
use meshcore_bbs.Health.{HealthState}
use meshcore_bbs.Prelude.{List, [], false, if◌then◌else◌, none, some, true, ℕ, ◌+◌, ◌/◌, ◌∷◌}
use meshcore_bbs.Transport.{
  TransportEvent, advertisement, connected, contact_msg_recv, disconnected, mesh_activity,
  new_contact,
}

-- The board, the health flags and the two counters of the metrics.
pub record Pump : Type 0 where
  pub bbs : Bbs
  pub health : HealthState
  pub messages_in : ℕ
  pub serial_reconnects : ℕ

-- `now` is in milliseconds. The metrics are counted whether they are enabled or not.
unfoldable pub pump : Setting → ℕ → TransportEvent → Pump → Pump
pump e now event p =
    let health = record p.health { last_event_at = now } in
    elim event [
      | contact_msg_recv (some inbound) ↦ record {
        bbs = handle_inbound e (now / 1000) inbound p.bbs;
        health = health;
        messages_in = p.messages_in + 1;
        serial_reconnects = p.serial_reconnects;
      }
      | contact_msg_recv none ↦ record p { health = health }
      | connected reconnected ↦ record p {
        health = record health { transport_connected = true };
        serial_reconnects = p.serial_reconnects + (if reconnected then 1 else 0);
      }
      | disconnected ↦ record p { health = record health { transport_connected = false } }
      | new_contact pubkey ↦ record p {
        bbs = record_mesh_activity e (now / 1000) pubkey p.bbs;
        health = health;
      }
      | advertisement pubkey ↦ record p {
        bbs = record_mesh_activity e (now / 1000) pubkey p.bbs;
        health = health;
      }
      | mesh_activity pubkey ↦ record p {
        bbs = record_mesh_activity e (now / 1000) pubkey p.bbs;
        health = health;
      }
    ]

pump_all : Setting → List (ℕ × TransportEvent) → Pump → Pump
pump_all e [] p = p
pump_all e ((now, event) ∷ events) p = pump_all e events (pump e now event p)
