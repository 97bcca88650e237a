-- ===== src/Commands/Parsing.antt =====
-- What the parser makes of a verb of one word and the text behind it.
use meshcore_bbs.Commands.{match_word, match_words, parse, take_verb}
use meshcore_bbs.Prelude.{
  Bool, List, [], all, arith, false, ltb, null, refl, some, true, ℕ, ◌&&◌, ◌++◌, ◌==◌, ◌∷◌, ◌≡◌,
}
use meshcore_bbs.Tests.{plain}
use meshcore_bbs.Text.{
  Text, Unicode, add_to_first, ascii_upper, is_space, lit, lstrip, rstrip, same_char, split_on,
  split_spaces, str_eq, strip, upper,
}

-- A character of ASCII that shows, a space excluded.
abbrev pub is_visible : ℕ → Bool
is_visible c = ltb 32 c && ltb c 127

is_space_visible : (c : ℕ) → is_visible c ≡ true → is_space c ≡ false
unfolding is_space
is_space_visible c v = ground (arith, v)

split_visible :
    (inside : Bool) (c : ℕ) (s : Text)
    → is_space c ≡ false
    → split_spaces inside (c ∷ s) ≡ add_to_first c (split_spaces false s)
unfolding split_spaces is_space
split_visible true c s h = rw (h, split_spaces) refl
split_visible false c s h = rw (h, split_spaces) refl

lstrip_visible : (c : ℕ) (s : Text) → is_space c ≡ false → lstrip (c ∷ s) ≡ c ∷ s
unfolding lstrip is_space
lstrip_visible c s h = rw h refl

upper_visible :
    (u : Unicode) (c : ℕ) (w : Text)
    → is_visible c ≡ true
    → upper u (c ∷ w) ≡ ascii_upper c ∷ upper u w
unfolding upper
upper_visible u c w v = ground (arith, v)

same_char-ascii_upper :
    (u : Unicode) (c : ℕ) → is_visible c ≡ true → same_char u (ascii_upper c) c ≡ true
unfolding same_char
same_char-ascii_upper u c v = ground (arith, v)

both : (a b : Bool) → (a && b) ≡ true → (a ≡ true) × (b ≡ true)
both a b h = ground (arith, h)

split_spaces-word :
    (w body : Text)
    → all is_visible w ≡ true
    → split_spaces false (w ++ 32 ∷ body) ≡ w ∷ split_spaces true body
split_spaces-word [] body v = unfold split_spaces in refl
split_spaces-word (c ∷ w) body v =
    let (here, rest) = both (is_visible c) (all is_visible w) v in
    rw
      (
        split_visible false c (w ++ 32 ∷ body) (is_space_visible c here),
        split_spaces-word w body rest,
      )
      refl

split_on-other :
    (c : ℕ) (s : Text) → (c == 32) ≡ false → split_on 32 (c ∷ s) ≡ add_to_first c (split_on 32 s)
unfolding split_on
split_on-other c s h = rw h refl

split_on-upper :
    (u : Unicode) (w : Text) → all is_visible w ≡ true → split_on 32 (upper u w) ≡ upper u w ∷ []
split_on-upper u [] v = unfold split_on upper in refl
split_on-upper u (c ∷ w) v =
    let (here, rest) = both (is_visible c) (all is_visible w) v in
    rw
      (
        upper_visible u c w here,
        split_on-other (ascii_upper c) (upper u w) (ground (arith, here)),
        split_on-upper u w rest,
      )
      refl

match_word-same :
    (u : Unicode) (c d : ℕ) (w line : Text)
    → same_char u c d ≡ true
    → match_word u (c ∷ w) (d ∷ line) ≡ match_word u w line
unfolding match_word
match_word-same u c d w line h = rw h refl

match_word-upper :
    (u : Unicode) (w behind : Text)
    → all is_visible w ≡ true
    → match_word u (upper u w) (w ++ behind) ≡ some behind
match_word-upper u [] behind v = unfold match_word upper in refl
match_word-upper u (c ∷ w) behind v =
    let (here, rest) = both (is_visible c) (all is_visible w) v in
    rw
      (
        upper_visible u c w here,
        match_word-same u (ascii_upper c) c (upper u w) (w ++ behind)
            (same_char-ascii_upper u c here),
      )
      (match_word-upper u w behind rest)

kept_last :
    (c : ℕ) (s : Text) (d : ℕ) (body : Text)
    → rstrip (s ++ d ∷ body) ≡ s ++ d ∷ body
    → rstrip (c ∷ s ++ d ∷ body) ≡ c ∷ s ++ d ∷ body
unfolding rstrip
kept_last c [] d body h = rw h refl
kept_last c (x ∷ s) d body h = rw h refl

rstrip-append :
    (s : Text) (d : ℕ) (body : Text)
    → rstrip (d ∷ body) ≡ d ∷ body
    → rstrip (s ++ d ∷ body) ≡ s ++ d ∷ body
rstrip-append [] d body h = h
rstrip-append (c ∷ s) d body h = kept_last c s d body (rstrip-append s d body h)

take_verb-word :
    (u : Unicode) (w : Text) (args : List Text)
    → str_eq (upper u w) (lit "ADMIN") ≡ false
    → take_verb u (w ∷ args) ≡ (upper u w, args)
unfolding take_verb
take_verb-word u w args h = rw h refl

parse_from :
    (u : Unicode) (line stripped verb rest : Text) (args : List Text)
    → strip line ≡ stripped
    → null stripped ≡ false
    → take_verb u (split_spaces false stripped) ≡ (verb, args)
    → match_words u (split_on 32 verb) (lstrip stripped) ≡ some rest
    → strip rest ≡ rest
    → parse u line ≡ some (record { verb = verb; args = args; rest = rest })
unfolding parse
parse_from u line stripped verb rest args h n t m r = rw (h, n, t, m, r, parse) refl

strip_kept :
    (c : ℕ) (s : Text) → is_space c ≡ false → rstrip (c ∷ s) ≡ c ∷ s → strip (c ∷ s) ≡ c ∷ s
unfolding strip
strip_kept c s v r = rw (lstrip_visible c s v) r

words_of_line :
    (w : Text) (d : ℕ) (body : Text)
    → all is_visible w ≡ true
    → is_space d ≡ false
    → split_spaces false (w ++ 32 ∷ d ∷ body) ≡ w ∷ split_spaces false (d ∷ body)
words_of_line w d body v begins =
    rw
      (
        split_spaces-word w (d ∷ body) v,
        split_visible true d body begins,
        split_visible false d body begins,
      )
      refl

rest_of_line :
    (u : Unicode) (w : Text) (d : ℕ) (body : Text)
    → all is_visible w ≡ true
    → is_space d ≡ false
    → match_words u (split_on 32 (upper u w)) (w ++ 32 ∷ d ∷ body) ≡ some (d ∷ body)
unfolding match_words lstrip
rest_of_line u w d body v begins =
    rw (split_on-upper u w v, match_word-upper u w (32 ∷ d ∷ body) v, match_words) (rw begins refl)

-- A line of a verb and a text, one space between them, is read as the verb in capitals and the text,
-- as it was written and in words, if the verb is of visible ASCII characters and no ADMIN, and the text
-- neither begins nor ends with white space.
pub parse_word :
    (u : Unicode) (c : ℕ) (w : Text) (d : ℕ) (body : Text)
    → all is_visible (c ∷ w) ≡ true
    → str_eq (upper u (c ∷ w)) (lit "ADMIN") ≡ false
    → is_space d ≡ false
    → rstrip (d ∷ body) ≡ d ∷ body
    → parse u ((c ∷ w) ++ 32 ∷ d ∷ body)
      ≡ some
          (record { verb = upper u (c ∷ w); args = split_spaces false (d ∷ body); rest = d ∷ body })
parse_word u c w d body v plain begins ends =
    let line = c ∷ w ++ 32 ∷ d ∷ body in
    let shown = is_space_visible c (both (is_visible c) (all is_visible w) v).0 in
    let stripped =
      strip_kept c (w ++ 32 ∷ d ∷ body) shown
        (rstrip-append (c ∷ w) 32 (d ∷ body) (rstrip-append (32 ∷ []) d body ends)) in
    parse_from u line line (upper u (c ∷ w)) (d ∷ body) (split_spaces false (d ∷ body)) stripped
      refl (rw (words_of_line (c ∷ w) d body v begins) (take_verb-word u (c ∷ w) _ plain))
      (rw (lstrip_visible c (w ++ 32 ∷ d ∷ body) shown) (rest_of_line u (c ∷ w) d body v begins))
      (strip_kept d body begins ends)
