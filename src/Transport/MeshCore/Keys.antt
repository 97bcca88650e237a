-- ===== src/Transport/MeshCore/Keys.antt =====
-- The functions that read a public key.
use meshcore_bbs.Format.{prefix}
use meshcore_bbs.Prelude.{
  Bool, List, Option, [], false, if◌then◌else◌, ltb, none, null, some, take, true, ℕ, ◌%◌, ◌*◌, ◌+◌,
  ◌/◌, ◌==◌, ◌||◌, ◌∷◌,
}
use meshcore_bbs.Text.{Text, Unicode, lower, strip}
use meshcore_bbs.Text.Integers.{negsuc, pos, ℤ}
use meshcore_bbs.Transport.MeshCore.{Contact, Key, MeshCore, Payload, as_bytes, as_text, hex_path}

abbrev hex_digit : ℕ → ℕ
hex_digit n = if ltb n 10 then 48 + n else 87 + n

-- `pk.hex()`, in lower case already.
unfoldable pub hex : List ℕ → Text
hex [] = []
hex (b ∷ bytes) = hex_digit (b / 16) ∷ hex_digit (b % 16) ∷ hex bytes

-- `a or b` of keys: an empty one counts as missing.
abbrev first_key : Option Key → Option Key → Option Key
first_key none b = b
first_key (some (as_bytes [])) b = b
first_key (some (as_text [])) b = b
first_key (some k) b = some k

module _ (u : Unicode) where
  unfoldable pub key_text : Key → Text
  key_text (as_bytes bytes) = lower u (hex bytes)
  key_text (as_text s) = lower u s

  unfoldable pub normalise_pubkey : Option Key → Option Key → Option Key → Option Text
  normalise_pubkey public_key pubkey key = elim (first_key public_key (first_key pubkey key)) [
    | none ↦ none
    | some k ↦ some (key_text k)
  ]

  abbrev pub contact_pubkey : Contact → Option Text
  contact_pubkey c = normalise_pubkey c.public_key c.pubkey c.key

  unfoldable pub pubkey_from_payload_dict : Payload → Option Text
  pubkey_from_payload_dict p = elim (first_key p.public_key p.pubkey) [
    | none ↦ none
    | some k ↦ some (key_text k)
  ]

  -- `mc` is none for `None`.
  unfoldable pub resolve_pubkey_from_prefix : Text → Option MeshCore → Option Text
  resolve_pubkey_from_prefix prefix none = none
  resolve_pubkey_from_prefix prefix (some mc) =
      let wanted = strip (lower u prefix) in
      if null wanted
      then none
      else elim (mc.get_contact_by_key_prefix wanted) [ none ↦ none | some c ↦ contact_pubkey c ]

  -- `int(path_len) <= 0 or int(path_len) == 255`, or none.
  abbrev has_no_hops : Option ℤ → Bool
  has_no_hops none = true
  has_no_hops (some (pos n)) = n == 0 || n == 255
  has_no_hops (some (negsuc n)) = true

  -- `max(1, int(mode) + 1)`, and 1 without a mode.
  unfoldable pub hash_len_of : Option ℤ → ℕ
  hash_len_of none = 1
  hash_len_of (some (pos n)) = n + 1
  hash_len_of (some (negsuc n)) = 1

  -- `x or 1`.
  abbrev pub or_one : Option ℕ → ℕ
  or_one none = 1
  or_one (some n) = if n == 0 then 1 else n

  unfoldable pub origin_pubkey_from_flood_payload : Payload → Option MeshCore → Option Text
  origin_pubkey_from_flood_payload p mc = if has_no_hops p.path_len then none else elim p.path [
    | hex_path (c ∷ s) ↦
        resolve_pubkey_from_prefix (take (hash_len_of p.path_hash_mode * 2) (lower u (c ∷ s))) mc
    | _ ↦ none
  ]

  abbrev is_relayed : Option ℤ → Bool
  is_relayed (some (pos n)) = ltb 0 n
  is_relayed _ = false

  abbrev non_empty : Option Text → Option Text
  non_empty (some (c ∷ s)) = some (c ∷ s)
  non_empty _ = none

  unfoldable pub pubkey_from_rx_log : Payload → Option MeshCore → Option Text
  pubkey_from_rx_log p mc = elim (non_empty p.adv_key) [
    | some k ↦ some (lower u k)
    | none ↦ elim p.path [
      | hex_path (c ∷ s) ↦
          if is_relayed p.path_len
          then non_empty
              (resolve_pubkey_from_prefix (take (or_one p.path_hash_size * 2) (lower u (c ∷ s))) mc)
          else none
      | _ ↦ none
    ]
  ]
