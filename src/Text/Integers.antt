-- ===== src/Text/Integers.antt =====
-- `int(s)` of any text, as the HTTP handlers read the numbers of a request.
use meshcore_bbs.Prelude.{
  Bool, Option, [], arith, false, if◌then◌else◌, max, min, none, some, suc, true, zero, ℕ, ◌==◌,
  ◌∷◌, ◌≤◌,
}
use meshcore_bbs.Text.{Text, Unicode, parse_int, strip}

pub data ℤ : Type 0 where
  pos negsuc : ℕ → ℤ

-- The digits without the underscores, each of which must stand between two digits. `after` says
-- that a digit has just been read; none is the ValueError.
unfoldable pub without_underscores : Bool → Text → Option Text
without_underscores true [] = some []
without_underscores false [] = none
without_underscores after (c ∷ s) = elim (c == b'_') [
  | true ↦ elim after [ true ↦ without_underscores false s | false ↦ none ]
  | false ↦ elim (without_underscores true s) [ none ↦ none | some t ↦ some (c ∷ t) ]
]

abbrev negated : ℕ → ℤ
negated zero = pos 0
negated (suc n) = negsuc n

module _ (u : Unicode) where
  unfoldable pub natural_of : Text → Option ℕ
  natural_of s = elim (without_underscores false s) [ none ↦ none | some t ↦ parse_int u 0 t ]

  abbrev signed : Text → Option ℤ
  signed [] = none
  signed (c ∷ s) =
      if c == b'-'
      then elim (natural_of s) [ none ↦ none | some n ↦ some (negated n) ]
      else elim (natural_of (if c == b'+' then s else c ∷ s)) [
        | none ↦ none
        | some n ↦ some (pos n)
      ]

  unfoldable pub int_of_text : Text → Option ℤ
  int_of_text s = signed (strip s)

-- `max(low, min(n, high))`.
unfoldable pub clamp : ℕ → ℕ → ℤ → ℕ
clamp low high (pos n) = max low (min n high)
clamp low high (negsuc n) = low

-- `max(0, n)`.
unfoldable pub at_least_zero : ℤ → ℕ
at_least_zero (pos n) = n
at_least_zero (negsuc n) = 0

-- A clamped number lies between the bounds.
pub clamp_bounds :
    (low high : ℕ) (n : ℤ) → low ≤ high → (low ≤ clamp low high n) × (clamp low high n ≤ high)
unfolding clamp
clamp_bounds low high (pos n) h = (omega arith, omega arith)
clamp_bounds low high (negsuc n) h = (omega arith, h)
