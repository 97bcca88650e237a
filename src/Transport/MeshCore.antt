-- ===== src/Transport/MeshCore.antt =====
-- transport/meshcore.py: the radio. The package meshcore is not part of the repository: what its
-- lookups and commands answer is an argument, with the fields that the source reads.
pub mod Keys
pub mod Paths
pub mod Events
pub mod Link
pub mod Backoff
pub mod Splitting
use meshcore_bbs.Prelude.{Bool, List, Option, [], false, none, some, ℕ, ◌∷◌}
use meshcore_bbs.Text.{Text}
use meshcore_bbs.Text.Integers.{ℤ}

-- A key as the package gives it.
pub data Key : Type 0 where
  as_bytes as_text : List ℕ → Key

pub record Contact : Type 0 where
  pub public_key : Option Key
  pub pubkey : Option Key
  pub key : Option Key
  pub adv_name : Option Text
  pub name : Option Text
  pub out_path : Option Text
  pub out_path_hash_mode : Option ℤ

-- A relay of an explicit path: an object with a hash, bytes or a text.
pub data Node : Type 0 where
  hashed : Option Text → Node
  raw_node : Key → Node

-- The member "path" of a payload.
pub data RelayPath : Type 0 where
  no_path other_path : RelayPath
  hex_path : Text → RelayPath
  node_path : List Node → RelayPath

pub record Payload : Type 0 where
  pub pubkey_prefix : Option Text
  pub text : Option Text
  pub body : Option Text
  pub public_key : Option Key
  pub pubkey : Option Key
  pub key : Option Key
  pub adv_key : Option Text
  pub path : RelayPath
  pub relay_path : RelayPath
  pub path_len : Option ℤ
  pub path_hash_size : Option ℕ
  pub path_hash_mode : Option ℤ
  pub reconnected : Bool

-- `self._mc`: the link and the contacts that the package knows. A lookup that raises counts as
-- one that finds nothing.
pub record MeshCore : Type 0 where
  pub is_connected : Bool
  pub contact_count : ℕ
  pub contact_of : Text → Option Contact
  pub get_contact_by_key_prefix : Text → Option Contact

pub record MeshCoreTransport : Type 0 where
  pub mc : Option MeshCore
  pub self_pubkey : Text
  pub path_cache : List (Text × List Text)

-- `radio_available`.
unfoldable pub radio_available : MeshCoreTransport → Bool
radio_available t = elim t.mc [ none ↦ false | some mc ↦ mc.is_connected ]

-- `a or b` of texts that may be missing.
abbrev pub first_text : Option Text → Option Text → Option Text
first_text none b = b
first_text (some []) b = b
first_text (some (c ∷ s)) b = some (c ∷ s)
