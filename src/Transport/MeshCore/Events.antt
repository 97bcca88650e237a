-- ===== src/Transport/MeshCore/Events.antt =====
-- The handlers of the package's events, and the inbound path of a sender.
use meshcore_bbs.Format.{prefix}
use meshcore_bbs.Prelude.{
  List, Option, [], if◌then◌else◌, none, null, or_else, some, ℕ, ◌==◌, ◌||◌, ◌∷◌,
}
use meshcore_bbs.Text.{Text, Unicode, lower, str_eq}
use meshcore_bbs.Text.Integers.{pos, ℤ}
use meshcore_bbs.Transport.{
  InboundMessage, TransportEvent, advertisement, connected, contact_msg_recv, mesh_activity,
  new_contact,
}
use meshcore_bbs.Transport.MeshCore.{Contact, MeshCore, MeshCoreTransport, Payload, first_text}
use meshcore_bbs.Transport.MeshCore.Keys.{
  contact_pubkey, normalise_pubkey, or_one, origin_pubkey_from_flood_payload,
  pubkey_from_payload_dict, pubkey_from_rx_log,
}
use meshcore_bbs.Transport.MeshCore.Paths.{
  extract_path, path_from_contact, resolve_path_hex, reversed,
}

unfoldable pub cached_path : Text → List (Text × List Text) → Option (List Text)
cached_path pk [] = none
cached_path pk ((k, path) ∷ cache) = if str_eq k pk then some path else cached_path pk cache

-- `self._path_cache[pk] = list(path)`.
unfoldable pub put_path : Text → List Text → List (Text × List Text) → List (Text × List Text)
put_path pk path [] = (pk, path) ∷ []
put_path pk path ((k, old) ∷ cache) =
    if str_eq k pk then (k, path) ∷ cache else (k, old) ∷ put_path pk path cache

-- The answer of a path discovery that is no error.
pub record Discovery : Type 0 where
  pub in_path : Option Text
  pub in_path_hash_len : Option ℕ
  pub out_path : Option Text
  pub out_path_hash_len : Option ℕ

-- `path_len == 255` is a direct message; a negative length stays unknown to the callers.
unfoldable pub hops_of : Option ℕ → Option ℕ
hops_of none = none
hops_of (some n) = some (if n == 255 then 0 else n)

module _ (u : Unicode) where
  -- The answer is none for a timeout, an exception or an error event.
  unfoldable pub discover_inbound_path : MeshCore → Option Discovery → List Text
  discover_inbound_path mc none = []
  discover_inbound_path mc (some d) = elim (first_text d.in_path none) [
    | some in_path ↦ resolve_path_hex u mc in_path (or_one u d.in_path_hash_len)
    | none ↦ elim (first_text d.out_path none) [
      | some out_path ↦
          reversed u mc (resolve_path_hex u mc out_path (or_one u d.out_path_hash_len))
      | none ↦ []
    ]
  ]

  abbrev found_path : MeshCore → Option Discovery → Text → List Text
  found_path mc answer pk =
      let path = if mc.is_connected then discover_inbound_path mc answer else [] in
      if null path then path_from_contact u mc pk else path

  unfoldable pub resolve_inbound_path :
      Option Discovery → Text → MeshCoreTransport → MeshCoreTransport × List Text
  resolve_inbound_path answer pubkey t = elim t.mc [
    | none ↦ (t, [])
    | some mc ↦ elim (cached_path (lower u pubkey) t.path_cache) [
      | some path ↦ (t, path)
      | none ↦
          let path = found_path mc answer (lower u pubkey) in
          if null path
          then (t, path)
          else (record t { path_cache = put_path (lower u pubkey) path t.path_cache }, path)
    ]
  ]

  -- The package behind the lookup of a prefix: a contact that is missing makes it load the contacts
  -- again, and `refreshed` is what it knows then.
  abbrev after_lookup : MeshCore → MeshCore → Text → MeshCore
  after_lookup mc refreshed prefix = elim (mc.get_contact_by_key_prefix prefix) [
    | some c ↦ mc
    | none ↦ if mc.is_connected then refreshed else mc
  ]

  abbrev cache_unless_empty : Text → List Text → List (Text × List Text) → List (Text × List Text)
  cache_unless_empty pk [] cache = cache
  cache_unless_empty pk (n ∷ path) cache = put_path pk (n ∷ path) cache

  abbrev inbound_message : Text → Contact → Payload → ℕ → List Text → Option ℕ → InboundMessage
  inbound_message pk c p now path path_len = record {
    pubkey = pk;
    adv_name = first_text c.adv_name c.name;
    body = or_else (first_text p.text p.body) [];
    received_at = now;
    hops = hops_of path_len;
    path = path;
  }

  abbrev natural : Option ℤ → Option ℕ
  natural (some (pos n)) = some n
  natural _ = none

  unfoldable pub handle_contact_msg :
      ℕ → MeshCore → Payload → MeshCoreTransport → MeshCoreTransport × Option TransportEvent
  handle_contact_msg now refreshed p t = elim t.mc [
    | none ↦ (t, none)
    | some before ↦
        let prefix = or_else p.pubkey_prefix [] in
        let mc = after_lookup before refreshed prefix in
        let looked : MeshCoreTransport = record t { mc = some mc } in
        elim (mc.get_contact_by_key_prefix prefix) [
          | none ↦ (looked, none)
          | some c ↦
              let pk = or_else (contact_pubkey u c) [] in
              let path = extract_path u mc p in
              if str_eq pk t.self_pubkey then (looked, none) else (
                record looked { path_cache = cache_unless_empty (lower u pk) path t.path_cache },
                some (
                    contact_msg_recv (some (inbound_message pk c p now path (natural p.path_len)))),
              )
        ]
  ]

  unfoldable pub emit_mesh_activity : Text → MeshCoreTransport → Option TransportEvent
  emit_mesh_activity pubkey t =
      let pk = lower u pubkey in
      if null pk || str_eq pk t.self_pubkey then none else some (mesh_activity (some pk))

  unfoldable pub on_new_contact : Payload → TransportEvent
  on_new_contact p =
      new_contact (some (or_else (normalise_pubkey u p.public_key p.pubkey p.key) []))

  unfoldable pub on_advertisement : Payload → TransportEvent
  on_advertisement p = advertisement (
      some (
        or_else
          (first_text (normalise_pubkey u p.public_key p.pubkey p.key)
            (pubkey_from_payload_dict u p))
          []))

  unfoldable pub on_path_update : Payload → MeshCoreTransport → Option TransportEvent
  on_path_update p t = emit_mesh_activity (or_else (pubkey_from_payload_dict u p) []) t

  unfoldable pub handle_channel_msg : Payload → MeshCoreTransport → Option TransportEvent
  handle_channel_msg p t =
      emit_mesh_activity (or_else (origin_pubkey_from_flood_payload u p t.mc) []) t

  unfoldable pub handle_rx_log_data : Payload → MeshCoreTransport → Option TransportEvent
  handle_rx_log_data p t = emit_mesh_activity (or_else (pubkey_from_rx_log u p t.mc) []) t

unfoldable pub on_connected : Payload → TransportEvent
on_connected p = connected p.reconnected
