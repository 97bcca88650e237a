-- ===== src/Text/Laws.antt =====
-- Laws of the methods of `str`.
use meshcore_bbs.Prelude.{
  List, [], append-nil, append_assoc, arith, length, refl, true, ℕ, ◌++◌, ◌+◌, ◌↔◌, ◌∷◌, ◌≡◌, ◌≤◌,
}
use meshcore_bbs.Text.{Text, Unicode, char_len, concat, lower, starts_with, str_eq, utf8_len}

pub str_eq_iff : (a b : Text) → (str_eq a b ≡ true) ↔ (a ≡ b)
unfolding str_eq
str_eq_iff [] [] = ground arith
str_eq_iff [] (y ∷ ys) = ground arith
str_eq_iff (x ∷ xs) [] = ground arith
str_eq_iff (x ∷ xs) (y ∷ ys) = ground (arith, str_eq_iff xs ys)

pub str_eq_refl : (a : Text) → str_eq a a ≡ true
str_eq_refl a = (str_eq_iff a a).1 refl

pub starts_with-append : (p s : Text) → starts_with (p ++ s) p ≡ true
unfolding starts_with
starts_with-append [] [] = refl
starts_with-append [] (c ∷ s) = refl
starts_with-append (c ∷ p) s = ground (arith, starts_with-append p s)

pub utf8_len-append : (s t : Text) → utf8_len (s ++ t) ≡ utf8_len s + utf8_len t
unfolding utf8_len
utf8_len-append [] t = omega arith
utf8_len-append (c ∷ s) t = omega (arith, utf8_len-append s t)

pub char_len_bounds : (c : ℕ) → (1 ≤ char_len c) × (char_len c ≤ 4)
unfolding char_len
char_len_bounds c = ground arith

pub length-le-utf8_len : (s : Text) → length s ≤ utf8_len s
unfolding utf8_len
length-le-utf8_len [] = omega arith
length-le-utf8_len (c ∷ s) = omega (arith, length-le-utf8_len s, char_len_bounds c)

pub lower-append : (u : Unicode) (s t : Text) → lower u (s ++ t) ≡ lower u s ++ lower u t
unfolding lower
lower-append u [] t = refl
lower-append u (c ∷ s) t = rw (lower-append u s t, append_assoc)

pub concat-append : (ps qs : List Text) → concat (ps ++ qs) ≡ concat ps ++ concat qs
concat-append [] qs = refl
concat-append (p ∷ ps) qs = rw (concat-append ps qs, append_assoc)

pub concat-snoc : (ps : List Text) (q : Text) → concat (ps ++ q ∷ []) ≡ concat ps ++ q
concat-snoc ps q = rw (concat-append, append-nil)
