-- ===== src/Format/Pack.antt =====
-- `_pack_lines` of format.py.
use meshcore_bbs.Format.{
  Packing, flushed, hard_wrap, newline, pack_line, pack_lines, pack_loop, start_packing,
}
use meshcore_bbs.Format.Wrap.{hard_wrap-concat}
use meshcore_bbs.Prelude.{
  List, [], append-nil, append_assoc, arith, filter, filter-append, if◌then◌else◌, not, null, refl,
  sym, ℕ, ◌++◌, ◌+◌, ◌==◌, ◌∙◌, ◌∷◌, ◌≡◌,
}
use meshcore_bbs.Text.{Text, add_to_first, char_len, concat, join, split_on, utf8_len}
use meshcore_bbs.Text.Laws.{concat-append, concat-snoc, utf8_len-append}

-- What a reply says, its line breaks aside.
unfoldable pub letters : Text → Text
letters = filter (λ c. not (c == 10))

pub letters-append : (s t : Text) → letters (s ++ t) ≡ letters s ++ letters t
unfolding letters
letters-append = filter-append (λ c. not (c == 10))

letters-newline : (p s : Text) → letters (p ++ 10 ∷ s) ≡ letters p ++ letters s
unfolding letters
letters-newline p s = letters-append p (10 ∷ s)

utf8_len-newline : (p s : Text) → utf8_len (p ++ 10 ∷ s) ≡ utf8_len p + (1 + utf8_len s)
unfolding utf8_len char_len
utf8_len-newline p s = utf8_len-append p (10 ∷ s)

-- One more line in a packet costs its bytes and a line break.
pub utf8_len-join_snoc :
    (p : Text) (ps : List Text) (q : Text)
    → utf8_len (join newline (p ∷ (ps ++ q ∷ [])))
      ≡ utf8_len (join newline (p ∷ ps)) + (1 + utf8_len q)
unfolding join
utf8_len-join_snoc p [] q = utf8_len-newline p q
utf8_len-join_snoc p (r ∷ ps) q = omega (
  arith,
  utf8_len-newline p (join newline (r ∷ (ps ++ q ∷ []))),
  utf8_len-newline p (join newline (r ∷ ps)),
  utf8_len-join_snoc r ps q,
)

letters-join_snoc :
    (ps : List Text) (q : Text)
    → letters (join newline (ps ++ q ∷ [])) ≡ letters (join newline ps) ++ letters q
unfolding join
letters-join_snoc [] q = unfold letters in refl
letters-join_snoc (p ∷ []) q = letters-newline p q
letters-join_snoc (p ∷ r ∷ ps) q = cc (
  letters-newline p (join newline (r ∷ (ps ++ q ∷ []))),
  letters-newline p (join newline (r ∷ ps)),
  letters-join_snoc (r ∷ ps) q,
  append_assoc (letters p) (letters (join newline (r ∷ ps))) (letters q),
)

letters-concat_snoc :
    (ps : List Text) (q : Text) → letters (concat (ps ++ q ∷ [])) ≡ letters (concat ps) ++ letters q
letters-concat_snoc ps q = rw concat-snoc (letters-append (concat ps) q)

-- All that a state of the loop holds.
held : Packing → Text
held s = letters (concat s.packets) ++ letters (join newline s.cur)

letters-flushed_parts :
    (packets cur : List Text)
    → letters (concat (if null cur then packets else packets ++ join newline cur ∷ []))
      ≡ letters (concat packets) ++ letters (join newline cur)
letters-flushed_parts packets [] = unfold letters join in sym (append-nil _)
letters-flushed_parts packets (p ∷ cur) = letters-concat_snoc packets (join newline (p ∷ cur))

letters-flushed : (s : Packing) → letters (concat (flushed s)) ≡ held s
unfolding held
letters-flushed s = letters-flushed_parts s.packets s.cur

letters-wrapped :
    (ps : List Text) (line : Text) (budget : ℕ)
    → letters (concat (ps ++ hard_wrap line budget)) ≡ letters (concat ps) ++ letters line
letters-wrapped ps line budget =
    rw (concat-append, hard_wrap-concat) (letters-append (concat ps) line)

letters_empty : letters (join newline []) ≡ []
unfolding letters join
letters_empty = refl

join_one : (line : Text) → join newline (line ∷ []) ≡ line
unfolding join
join_one line = refl

held-pack_line :
    (budget : ℕ) (s : Packing) (line : Text)
    → held (pack_line budget s line) ≡ held s ++ letters line
unfolding held pack_line
held-pack_line budget s line = ground (
  arith,
  letters-concat_snoc s.packets (join newline s.cur),
  letters-flushed s,
  letters-wrapped (flushed s) line budget,
  letters-join_snoc s.cur line,
  letters_empty,
  join_one line,
  append-nil (held s ++ letters line),
  append_assoc (letters (concat s.packets)) (letters (join newline s.cur)) (letters line),
)

held-pack_loop :
    (budget : ℕ) (s : Packing) (lines : List Text)
    → held (pack_loop budget s lines) ≡ held s ++ letters (concat lines)
unfolding pack_loop
held-pack_loop budget s [] = unfold letters in sym (append-nil (held s))
held-pack_loop budget s (line ∷ lines) =
    held-pack_loop budget (pack_line budget s line) lines
    ∙ cc (
      held-pack_line budget s line,
      letters-append line (concat lines),
      append_assoc (held s) (letters line) (letters (concat lines)),
    )

letters-add_to_first : (c : ℕ) (ps : List Text) → concat (add_to_first c ps) ≡ c ∷ concat ps
letters-add_to_first c [] = refl
letters-add_to_first c (p ∷ ps) = refl

letters-split_on : (text : Text) → letters (concat (split_on 10 text)) ≡ letters text
unfolding split_on letters
letters-split_on [] = refl
letters-split_on (c ∷ text) =
    ground (arith, letters-split_on text, letters-add_to_first c (split_on 10 text))

-- No packet loses or invents anything but line breaks.
pub letters-pack_lines :
    (text : Text) (budget : ℕ) → letters (concat (pack_lines text budget)) ≡ letters text
unfolding pack_lines
letters-pack_lines text budget =
    letters-flushed (pack_loop budget start_packing (split_on 10 text))
    ∙ held-pack_loop budget start_packing (split_on 10 text)
    ∙ (unfold held letters join in letters-split_on text)
