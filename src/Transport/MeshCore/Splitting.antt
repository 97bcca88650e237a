-- ===== src/Transport/MeshCore/Splitting.antt =====
-- How a path in hexadecimal digits is cut into relays.
use meshcore_bbs.Prelude.{
  Option, [], ap, arith, drop, get_elem?, if◌then◌else◌, leb, length, length-drop, max, none, refl,
  some, suc, sym, take, zero, ℕ, ◌*◌, ◌+◌, ◌∙◌, ◌∷◌, ◌≡◌, ◌≤◌,
}
use meshcore_bbs.Text.{Text, Unicode, lower, strip}
use meshcore_bbs.Transport.MeshCore.{MeshCore}
use meshcore_bbs.Transport.MeshCore.Paths.{hex_nodes, resolve_hash_to_name, resolve_path_hex}

module _ (u : Unicode) (mc : MeshCore) (c : ℕ) where
  -- The relay with an index, by its place in the text.
  unfoldable pub relay_at : Text → ℕ → Option Text
  relay_at s i =
      if leb (i * c + c) (length s)
      then some (resolve_hash_to_name u mc (take c (drop (i * c) s)))
      else none

  drop-nil : (n : ℕ) → drop {A = ℕ} n [] ≡ []
  drop-nil zero = refl
  drop-nil (suc n) = refl

  drop-drop : (n m : ℕ) (s : Text) → drop n (drop m s) ≡ drop (m + n) s
  drop-drop n zero s = ap (λ k. drop k s) (omega arith)
  drop-drop n (suc m) [] = drop-nil n ∙ sym (drop-nil (suc m + n))
  drop-drop n (suc m) (x ∷ s) =
      let e : suc (m + n) ≡ suc m + n = omega arith in drop-drop n m s ∙ ap (λ k. drop k (x ∷ s)) e

  hex_nodes_at :
      (f : ℕ) (s : Text) (i : ℕ)
      → 1 ≤ c
      → length s ≤ f
      → get_elem? (hex_nodes u mc f c s) i ≡ relay_at s i
  unfolding hex_nodes relay_at
  hex_nodes_at zero s i one short = ground (arith, one, short)
  hex_nodes_at (suc f) s zero one short = ground (arith, one, short)
  hex_nodes_at (suc f) s (suc i) one short =
      let shorter : length (drop c s) ≤ f = ground (arith, length-drop c s, one, short) in
      let rest = hex_nodes_at f (drop c s) i one shorter in
      ground (arith, one, short, rest, length-drop c s, drop-drop (i * c) c s)

-- The relays of a path are what stands in its whole chunks of twice the length of a hash, in their
-- order, and no others; the fuel, one unit for each character, is enough for all of them.
pub resolve_path_hex_at :
    (u : Unicode) (mc : MeshCore) (path_hex : Text) (hash_len i : ℕ)
    → get_elem? (resolve_path_hex u mc path_hex hash_len) i
      ≡ relay_at u mc (max 1 hash_len * 2) (strip (lower u path_hex)) i
unfolding resolve_path_hex
resolve_path_hex_at u mc path_hex hash_len i =
    hex_nodes_at u mc (max 1 hash_len * 2) (length (strip (lower u path_hex)))
      (strip (lower u path_hex)) i (omega arith) (omega arith)
