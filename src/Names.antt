-- ===== src/Names.antt =====
-- names.py: the characters of a display name.
pub mod Validation
use meshcore_bbs.Prelude.{
  Bool, Option, [], any, if◌then◌else◌, leb, ltb, none, not, some, ℕ, ◌&&◌, ◌==◌, ◌||◌, ◌∷◌,
}
use meshcore_bbs.Text.{Text, Unicode, ascii_digit, is_space, lit}

abbrev pub name_min : ℕ
name_min = 1

abbrev pub name_max : ℕ
name_max = 10

abbrev between : ℕ → ℕ → ℕ → Bool
between lo hi c = leb lo c && leb c hi

-- The characters of `_DISALLOWED`: white space, control characters and ASCII punctuation.
abbrev disallowed_punctuation : Text
disallowed_punctuation = lit "!@#$%^&*()+=[]{}|\\;:'\",.<>/?`~"

unfoldable pub is_disallowed : ℕ → Bool
unfolding is_space
is_disallowed c =
    is_space c
    || between 0 0x1f c
    || between 0x7f 0x9f c
    || any (λ d. c == d) disallowed_punctuation

-- The class of `_EMOJI_CHAR`.
unfoldable pub is_emoji_char : ℕ → Bool
is_emoji_char c =
    c == 0x200d
    || c == 0xfe0f
    || between 0x1f300 0x1faff c
    || between 0x2600 0x27bf c
    || between 0x1f600 0x1f64f c
    || between 0x1f680 0x1f6ff c
    || between 0x1f1e0 0x1f1ff c

-- `ch.isascii() and (ch.isalnum() or ch in "_-")`, or an emoji.
unfoldable pub is_allowed_name_char : ℕ → Bool
unfolding is_emoji_char
is_allowed_name_char c =
    (ltb c 128 && (ascii_digit c || between 65 90 c || between 97 122 c || c == b'_' || c == b'-'))
    || is_emoji_char c

abbrev pub bad_chars : Text
bad_chars = lit "! Bad chars, use A-Z 0-9 _ - emoji"

module _ (u : Unicode) where
  -- The loop over the characters.
  validate_loop : Text → Option Text
  validate_loop [] = none
  validate_loop (c ∷ name) =
      let rest = validate_loop name in
      if not (is_allowed_name_char c)
      then (if u.is_letter_or_number c
          then some bad_chars
          else if not (is_emoji_char c)
          then some bad_chars
          else rest)
      else rest

  -- The reason why the name is refused, if any.
  unfoldable pub validate_name_chars : Text → Option Text
  unfolding validate_loop is_allowed_name_char is_disallowed
  validate_name_chars name = if any is_disallowed name then some bad_chars else validate_loop name
