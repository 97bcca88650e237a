-- ===== src/Text.antt =====
-- Python's `str` as a list of code points, and the methods of `str` and the patterns of `re` that
-- the program uses. Code points below 128 are handled by the rules written out here. What Python's
-- Unicode tables say of the others is a parameter, the record `Unicode`.
pub mod Laws
pub mod Decimal
pub mod Integers
use Prim.Native.Char.{code}
use Prim.Native.String.{String}
use meshcore_bbs.Prelude.{
  Bool, List, Option, [], all, false, if◌then◌else◌, leb, ltb, none, some, true, ℕ, ◌&&◌, ◌*◌, ◌++◌,
  ◌+◌, ◌-◌, ◌==◌, ◌||◌, ◌∷◌,
}

abbrev pub Text : Type 0
Text = List ℕ

-- A literal of the source.
abbrev pub lit : String → Text
lit String.[] = []
lit (String.◌∷◌ c s) = code c ∷ lit s

-- The tables of Python's `str` and `re` for code points from 128 on.
pub record Unicode : Type 0 where
  pub lower_of : ℕ → Text
  pub upper_of : ℕ → Text
  -- `str.isdigit` of one character, and the value that `int` gives it, if any
  pub is_digit_of : ℕ → Bool
  pub digit_value_of : ℕ → Option ℕ
  -- what `re.IGNORECASE` takes for the same character, at least one of them from 128 on
  pub same_letter : ℕ → ℕ → Bool
  -- `unicodedata.category(ch)[0] in "LN"`
  pub is_letter_or_number : ℕ → Bool

-- `a == b`.
unfoldable pub str_eq : Text → Text → Bool
str_eq [] [] = true
str_eq [] (y ∷ ys) = false
str_eq (x ∷ xs) [] = false
str_eq (x ∷ xs) (y ∷ ys) = x == y && str_eq xs ys

-- `x == y` where both may be `None`.
unfoldable pub opt_eq : Option Text → Option Text → Bool
opt_eq none none = true
opt_eq none (some y) = false
opt_eq (some x) none = false
opt_eq (some x) (some y) = str_eq x y

-- `s.startswith(p)`.
unfoldable pub starts_with : Text → Text → Bool
starts_with s [] = true
starts_with [] (p ∷ ps) = false
starts_with (c ∷ s) (p ∷ ps) = c == p && starts_with s ps

-- `str.isspace` of a character, which is `\s` too.
unfoldable pub is_space : ℕ → Bool
is_space c =
    (leb 9 c && leb c 13)
    || (leb 28 c && leb c 32)
    || c == 0x85
    || c == 0xa0
    || c == 0x1680
    || (leb 0x2000 c && leb c 0x200a)
    || c == 0x2028
    || c == 0x2029
    || c == 0x202f
    || c == 0x205f
    || c == 0x3000

-- `s.lstrip()`.
unfoldable pub lstrip : Text → Text
unfolding is_space
lstrip [] = []
lstrip (c ∷ s) = let rest = lstrip s in if is_space c then rest else c ∷ s

-- `s.rstrip()`.
unfoldable pub rstrip : Text → Text
unfolding is_space
rstrip [] = []
rstrip (c ∷ s) = elim (rstrip s) [ [] ↦ (if is_space c then [] else c ∷ []) | d ∷ t ↦ c ∷ d ∷ t ]

-- `s.strip()`.
unfoldable pub strip : Text → Text
unfolding lstrip rstrip
strip s = rstrip (lstrip s)

-- `s.rstrip("\n")`.
unfoldable pub rstrip_newline : Text → Text
rstrip_newline [] = []
rstrip_newline (c ∷ s) = elim (rstrip_newline s) [
  | [] ↦ (if c == 10 then [] else c ∷ [])
  | d ∷ t ↦ c ∷ d ∷ t
]

-- One word more, or one character more for the first word.
abbrev pub add_to_first : ℕ → List Text → List Text
add_to_first c [] = (c ∷ []) ∷ []
add_to_first c (w ∷ ws) = (c ∷ w) ∷ ws

-- `s.split(sep)` for a separator of one character.
unfoldable pub split_on : ℕ → Text → List Text
split_on sep [] = [] ∷ []
split_on sep (c ∷ s) =
    let rest = split_on sep s in if c == sep then [] ∷ rest else add_to_first c rest

-- `sep.join(parts)`.
unfoldable pub join : Text → List Text → Text
join sep [] = []
join sep (p ∷ []) = p
join sep (p ∷ q ∷ ps) = p ++ (sep ++ join sep (q ∷ ps))

-- `"".join(parts)`.
abbrev pub concat : List Text → Text
concat [] = []
concat (p ∷ ps) = p ++ concat ps

-- `re.split(r"\s+", s)`: `split_spaces true` stands inside a run of spaces.
unfoldable pub split_spaces : Bool → Text → List Text
unfolding is_space
split_spaces inside [] = [] ∷ []
split_spaces true (c ∷ s) = elim (is_space c) [
  | true ↦ split_spaces true s
  | false ↦ add_to_first c (split_spaces false s)
]
split_spaces false (c ∷ s) = elim (is_space c) [
  | true ↦ [] ∷ split_spaces true s
  | false ↦ add_to_first c (split_spaces false s)
]

-- The number of bytes of a character in UTF-8, and `len(s.encode("utf-8"))`.
unfoldable pub char_len : ℕ → ℕ
char_len c = if ltb c 0x80 then 1 else if ltb c 0x800 then 2 else if ltb c 0x10000 then 3 else 4

unfoldable pub utf8_len : Text → ℕ
unfolding char_len
utf8_len [] = 0
utf8_len (c ∷ s) = char_len c + utf8_len s

abbrev pub ascii_lower : ℕ → ℕ
ascii_lower c = if leb 65 c && leb c 90 then c + 32 else c

abbrev pub ascii_upper : ℕ → ℕ
ascii_upper c = if leb 97 c && leb c 122 then c - 32 else c

abbrev pub ascii_digit : ℕ → Bool
ascii_digit c = leb 48 c && leb c 57

module _ (u : Unicode) where
  -- `s.lower()`. Python's rule for a final sigma looks at the neighbours, and is left out.
  unfoldable pub lower : Text → Text
  lower [] = []
  lower (c ∷ s) = (if ltb c 128 then ascii_lower c ∷ [] else u.lower_of c) ++ lower s

  -- `s.upper()`.
  unfoldable pub upper : Text → Text
  upper [] = []
  upper (c ∷ s) = (if ltb c 128 then ascii_upper c ∷ [] else u.upper_of c) ++ upper s

  unfoldable pub is_digit_char : ℕ → Bool
  is_digit_char c = if ltb c 128 then ascii_digit c else u.is_digit_of c

  -- `s.isdigit()`.
  unfoldable pub is_digit : Text → Bool
  unfolding is_digit_char
  is_digit [] = false
  is_digit (c ∷ s) = all is_digit_char (c ∷ s)

  -- The value of one digit; `none` is the `ValueError` of `int` for a digit that is no decimal.
  unfoldable pub digit_value : ℕ → Option ℕ
  digit_value c =
      if ltb c 128 then (if ascii_digit c then some (c - 48) else none) else u.digit_value_of c

  -- `int(s)` of a text of digits, from the left.
  unfoldable pub parse_int : ℕ → Text → Option ℕ
  unfolding digit_value
  parse_int acc [] = some acc
  parse_int acc (c ∷ s) = elim (digit_value c) [ none ↦ none | some d ↦ parse_int (acc * 10 + d) s ]

  -- Two characters that `re.IGNORECASE` takes for the same.
  unfoldable pub same_char : ℕ → ℕ → Bool
  same_char a b =
      if ltb a 128 && ltb b 128 then ascii_lower a == ascii_lower b else u.same_letter a b
