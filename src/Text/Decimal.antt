-- ===== src/Text/Decimal.antt =====
-- `str(n)` and the formatting of natural numbers in f-strings.
use meshcore_bbs.Prelude.{
  Option-cases, [], arith, false, inl, inr, length, length-append, ltb, refl, some, suc, true, zero,
  ℕ, ◌%◌, ◌*◌, ◌++◌, ◌+◌, ◌/◌, ◌<◌, ◌∷◌, ◌≡◌, ◌≤◌,
}
use meshcore_bbs.Text.{Text, Unicode, char_len, digit_value, parse_int, utf8_len}
use meshcore_bbs.Text.Laws.{utf8_len-append}

-- The digits of `n`, the first one written first. The fuel is more than the digits of `n`.
digits_from : ℕ → ℕ → Text
digits_from zero n = []
digits_from (suc f) n = elim (ltb n 10) [
  | true ↦ (48 + n) ∷ []
  | false ↦ digits_from f (n / 10) ++ (48 + n % 10) ∷ []
]

unfoldable pub str : ℕ → Text
unfolding digits_from
str n = digits_from (suc n) n

length-snoc : (s : Text) (c : ℕ) → length (s ++ c ∷ []) ≡ suc (length s)
length-snoc s c = omega (arith, length-append {0} s (c ∷ []))

length-digits_from_pos : (f n : ℕ) → 1 ≤ length (digits_from (suc f) n)
unfolding digits_from
length-digits_from_pos f n = ground (arith, length-snoc (digits_from f (n / 10)) (48 + n % 10))

length-digits_from_mono :
    (f g a b : ℕ) → a < f → b < g → a ≤ b → length (digits_from f a) ≤ length (digits_from g b)
unfolding digits_from
length-digits_from_mono zero g a b h k le = absurd (omega arith)
length-digits_from_mono (suc f) zero a b h k le = absurd (omega arith)
length-digits_from_mono (suc f) (suc g) a b h k le = ground (
  arith,
  length-digits_from_pos g b,
  length-snoc (digits_from g (b / 10)) (48 + b % 10),
  length-snoc (digits_from f (a / 10)) (48 + a % 10),
  length-digits_from_mono f g (a / 10) (b / 10),
)

-- A smaller number has no more digits.
pub length-str_mono : (a b : ℕ) → a ≤ b → length (str a) ≤ length (str b)
unfolding str
length-str_mono a b le = length-digits_from_mono (suc a) (suc b) a b (omega arith) (omega arith) le

char_len_digit : (n : ℕ) → n < 10 → char_len (48 + n) ≡ 1
unfolding char_len
char_len_digit n h = ground arith

utf8_len-digits_from : (f n : ℕ) → utf8_len (digits_from f n) ≡ length (digits_from f n)
unfolding digits_from utf8_len
utf8_len-digits_from zero n = refl
utf8_len-digits_from (suc f) n = ground (
  arith,
  char_len_digit n,
  char_len_digit (n % 10),
  utf8_len-append (digits_from f (n / 10)) ((48 + n % 10) ∷ []),
  length-snoc (digits_from f (n / 10)) (48 + n % 10),
  utf8_len-digits_from f (n / 10),
)

pub utf8_len-str : (n : ℕ) → utf8_len (str n) ≡ length (str n)
unfolding str
utf8_len-str n = utf8_len-digits_from (suc n) n

module _ (u : Unicode) where
  parse_int-snoc :
      (acc n c : ℕ) (s : Text)
      → parse_int u acc s ≡ some n
      → parse_int u acc (s ++ c ∷ []) ≡ parse_int u n (c ∷ [])
  unfolding parse_int
  parse_int-snoc acc n c [] h = ground arith
  parse_int-snoc acc n c (d ∷ s) h = elim (Option-cases (digit_value u d)) [
    | inl bad ↦ ground arith
    | inr (v, good) ↦ rw (good, parse_int) (parse_int-snoc (acc * 10 + v) n c s (ground arith))
  ]

  parse_int_digit : (n d : ℕ) → d < 10 → parse_int u n ((48 + d) ∷ []) ≡ some (n * 10 + d)
  unfolding parse_int digit_value
  parse_int_digit n d h = ground arith

  parse_int-digits_from : (f n : ℕ) → n < f → parse_int u 0 (digits_from f n) ≡ some n
  unfolding digits_from
  parse_int-digits_from zero n h = absurd (omega arith)
  parse_int-digits_from (suc f) n h = ground (
    arith,
    parse_int_digit 0 n,
    parse_int_digit (n / 10) (n % 10),
    parse_int-snoc 0 (n / 10) (48 + n % 10) (digits_from f (n / 10)),
    parse_int-digits_from f (n / 10),
  )

  -- `int(str(n))` is `n`.
  pub parse_int-str : (n : ℕ) → parse_int u 0 (str n) ≡ some n
  unfolding str
  parse_int-str n = parse_int-digits_from (suc n) n (omega arith)

str_example : str 1203 ≡ 49 ∷ 50 ∷ 48 ∷ 51 ∷ []
unfolding str
str_example = refl
