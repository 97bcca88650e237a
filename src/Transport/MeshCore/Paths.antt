-- ===== src/Transport/MeshCore/Paths.antt =====
-- The functions that name the relays of a path.
use meshcore_bbs.Prelude.{
  List, Option, [], drop, if◌then◌else◌, length, ltb, map, max, none, null, or_else, some, suc,
  take, zero, ℕ, ◌*◌, ◌++◌, ◌∷◌,
}
use meshcore_bbs.Services.{text_or}
use meshcore_bbs.Text.{Text, Unicode, lit, lower, strip}
use meshcore_bbs.Transport.MeshCore.{
  Contact, MeshCore, Node, Payload, RelayPath, first_text, hashed, hex_path, no_path, node_path,
  raw_node,
}
use meshcore_bbs.Transport.MeshCore.Keys.{hash_len_of, key_text, or_one}

module _ (u : Unicode) (mc : MeshCore) where
  unfoldable pub resolve_hash_to_name : Text → Text
  resolve_hash_to_name node_hash =
      let wanted = strip (lower u node_hash) in
      if null wanted then lit "?" else elim (mc.get_contact_by_key_prefix wanted) [
        | none ↦ take 8 wanted
        | some c ↦ text_or (first_text c.adv_name c.name) (take 8 wanted)
      ]

  -- The loop over the offsets, with as much fuel as there are characters.
  unfoldable pub hex_nodes : ℕ → ℕ → Text → List Text
  hex_nodes zero chunk_chars s = []
  hex_nodes (suc f) chunk_chars s =
      let rest = hex_nodes f chunk_chars (drop chunk_chars s) in
      if ltb (length s) chunk_chars then [] else resolve_hash_to_name (take chunk_chars s) ∷ rest

  unfoldable pub resolve_path_hex : Text → ℕ → List Text
  resolve_path_hex path_hex hash_len =
      let s = strip (lower u path_hex) in hex_nodes (length s) (max 1 hash_len * 2) s

  -- `list(reversed(nodes))`.
  unfoldable pub reversed : List Text → List Text
  reversed [] = []
  reversed (x ∷ xs) = reversed xs ++ x ∷ []

  abbrev node_hash : Node → Text
  node_hash (hashed h) = or_else h []
  node_hash (raw_node k) = key_text u k

  -- `a or b` of the two members.
  abbrev the_path : RelayPath → RelayPath → RelayPath
  the_path no_path b = b
  the_path (hex_path []) b = b
  the_path (node_path []) b = b
  the_path a b = a

  unfoldable pub extract_path : Payload → List Text
  extract_path p = elim (the_path p.path p.relay_path) [
    | hex_path s ↦ resolve_path_hex s (or_one u p.path_hash_size)
    | node_path nodes ↦ map (λ n. resolve_hash_to_name (node_hash n)) nodes
    | _ ↦ []
  ]

  -- `mc.contacts.get(pubkey)`, and else the contact of the prefix.
  abbrev stored_contact : Text → Option Contact
  stored_contact pubkey = elim (mc.contact_of pubkey) [
    | some c ↦ some c
    | none ↦ mc.get_contact_by_key_prefix (take 12 pubkey)
  ]

  unfoldable pub path_from_contact : Text → List Text
  path_from_contact pubkey = elim (stored_contact pubkey) [
    | none ↦ []
    | some c ↦ elim (first_text c.out_path none) [
      | none ↦ []
      | some out_path ↦ reversed (resolve_path_hex out_path (hash_len_of u c.out_path_hash_mode))
    ]
  ]
