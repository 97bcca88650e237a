-- ===== src/Format/Bounds.antt =====
-- When the packets of `_pack_lines` keep to the budget, and what it does with a long line.
use meshcore_bbs.Format.{
  Packing, flushed, hard_wrap, newline, pack_line, pack_lines, pack_loop, start_packing,
}
use meshcore_bbs.Format.Pack.{utf8_len-join_snoc}
use meshcore_bbs.Format.Wrap.{Fits, Fits-snoc, hard_wrap-Fits}
use meshcore_bbs.Prelude.{
  All, All-append, List, [], arith, drop, if◌then◌else◌, inl, inr, null, null→nil, refl, ℕ, ◌++◌,
  ◌+◌, ◌<◌, ◌∷◌, ◌≡◌, ◌≢◌, ◌≤◌, ◌⊎◌,
}
use meshcore_bbs.Text.{Text, join, split_on, utf8_len}

-- What holds between two lines: the packets fit, and `cur_size` is the size of `"\n".join(cur)`.
record IsSized (budget : ℕ) (s : Packing) : Type 0 where
  packed : Fits budget s.packets
  measured : utf8_len (join newline s.cur) ≡ s.cur_size
  fits : s.cur_size ≤ budget

size_empty : utf8_len (join newline []) ≡ 0
unfolding utf8_len join
size_empty = refl

size_one : (line : Text) → utf8_len (join newline (line ∷ [])) ≡ utf8_len line
unfolding join
size_one line = refl

size-snoc :
    (cur : List Text) (line : Text)
    → utf8_len (join newline (cur ++ line ∷ []))
      ≡ utf8_len (join newline cur) + (utf8_len line + (if null cur then 0 else 1))
size-snoc [] line = omega (arith, size_one line, size_empty)
size-snoc (p ∷ cur) line = omega (arith, utf8_len-join_snoc p cur line)

flushed-Fits : (budget : ℕ) (s : Packing) → IsSized budget s → Fits budget (flushed s)
flushed-Fits budget s h = parts s.packets s.cur h.packed (omega (arith, h.measured, h.fits))
  where
    parts :
        (packets cur : List Text)
        → Fits budget packets
        → utf8_len (join newline cur) ≤ budget
        → Fits budget (if null cur then packets else packets ++ join newline cur ∷ [])
    parts packets [] f m = f
    parts packets (p ∷ cur) f m = Fits-snoc budget packets (join newline (p ∷ cur)) f m

module _ (budget : ℕ) (s : Packing) (line : Text) (room : 4 ≤ budget) (h : IsSized budget s) where
  pack_line-packed : Fits budget (pack_line budget s line).packets
  unfolding pack_line
  pack_line-packed = ground (
    arith,
    h.packed,
    flushed-Fits budget s h,
    Fits-snoc budget s.packets (join newline s.cur) h.packed,
    All-append (λ p. utf8_len p ≤ budget) (flushed s) (hard_wrap line budget),
    hard_wrap-Fits line budget room,
    h.measured,
    h.fits,
  )

  pack_line-measured :
      utf8_len (join newline (pack_line budget s line).cur) ≡ (pack_line budget s line).cur_size
  unfolding pack_line
  pack_line-measured =
      ground (arith, h.measured, size-snoc s.cur line, size_one line, size_empty, null→nil s.cur)

  pack_line-fits :
      (utf8_len line ≤ budget) ⊎ (s.cur ≡ []) → (pack_line budget s line).cur_size ≤ budget
  unfolding pack_line
  pack_line-fits short = ground (arith, h.fits, h.measured, size_empty, null→nil s.cur)

  -- For a line that is no longer than the budget, or that meets an empty `cur`.
  pack_line-IsSized :
      (utf8_len line ≤ budget) ⊎ (s.cur ≡ []) → IsSized budget (pack_line budget s line)
  pack_line-IsSized short = record {
    packed = pack_line-packed;
    measured = pack_line-measured;
    fits = pack_line-fits short;
  }

pack_loop-IsSized :
    (budget : ℕ) (s : Packing) (lines : List Text)
    → 4 ≤ budget
    → IsSized budget s
    → Fits budget lines
    → IsSized budget (pack_loop budget s lines)
unfolding pack_loop
pack_loop-IsSized budget s [] room h short = h
pack_loop-IsSized budget s (line ∷ lines) room h short =
    pack_loop-IsSized budget (pack_line budget s line) lines room
      (pack_line-IsSized budget s line room h (inl short.0)) short.1

start-IsSized : (budget : ℕ) → IsSized budget start_packing
start-IsSized budget = record { packed = tt; measured = size_empty; fits = omega arith }

lines-IsSized :
    (budget : ℕ) (lines : List Text)
    → 4 ≤ budget
    → Fits budget (drop 1 lines)
    → IsSized budget (pack_loop budget start_packing lines)
unfolding pack_loop
lines-IsSized budget [] room short = start-IsSized budget
lines-IsSized budget (line ∷ lines) room short =
    pack_loop-IsSized budget (pack_line budget start_packing line) lines room
      (pack_line-IsSized budget start_packing line room (start-IsSized budget) (inr refl)) short

-- If the budget has room for one character and each line but the first is within it, then so is
-- each packet.
pub pack_lines-Fits :
    (text : Text) (budget : ℕ)
    → 4 ≤ budget
    → Fits budget (drop 1 (split_on 10 text))
    → Fits budget (pack_lines text budget)
unfolding pack_lines
pack_lines-Fits text budget room short =
    flushed-Fits budget (pack_loop budget start_packing (split_on 10 text))
      (lines-IsSized budget (split_on 10 text) room short)

-- A line with no line break in it.
abbrev pub IsLine : Text → Type 0
IsLine = All (λ c. c ≢ 10)

split_on_line : (line : Text) → IsLine line → split_on 10 line ≡ line ∷ []
unfolding split_on
split_on_line [] h = refl
split_on_line (c ∷ line) h = ground (arith, split_on_line line h.1)

pub split_on_two :
    (first second : Text)
    → IsLine first
    → IsLine second
    → split_on 10 (first ++ 10 ∷ second) ≡ first ∷ second ∷ []
unfolding split_on
split_on_two [] second h k = ground (arith, split_on_line second k)
split_on_two (c ∷ first) second h k = ground (arith, split_on_two first second h.1 k)

-- Of two lines, a second one over the budget is not wrapped: it is a packet as it stands.
pub pack_lines_long_second :
    (first second : Text) (budget : ℕ)
    → IsLine first
    → IsLine second
    → utf8_len first ≤ budget
    → budget < utf8_len second
    → pack_lines (first ++ 10 ∷ second) budget ≡ first ∷ second ∷ []
unfolding pack_lines pack_loop pack_line join
pack_lines_long_second first second budget h k fits over =
    ground (arith, split_on_two first second h k)
