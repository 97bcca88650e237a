-- ===== src/Format/Wrap.antt =====
-- `_hard_wrap` of format.py: nothing is lost, and no chunk is over the budget.
use meshcore_bbs.Format.{hard_wrap, hard_wrap_loop}
use meshcore_bbs.Prelude.{
  All, All-append, Bool-cases, List, [], ap, append-nil, append_assoc, arith, inl, inr, ltb, refl,
  sym, tests, ℕ, ◌++◌, ◌+◌, ◌∙◌, ◌∷◌, ◌≡◌, ◌≤◌,
}
use meshcore_bbs.Text.{Text, char_len, concat, utf8_len}
use meshcore_bbs.Text.Laws.{char_len_bounds, concat-snoc, utf8_len-append}

hard_wrap_loop-concat :
    (budget : ℕ) (out : List Text) (cur : Text) (n : ℕ) (line : Text)
    → concat (hard_wrap_loop budget out cur n line) ≡ concat out ++ (cur ++ line)
unfolding hard_wrap_loop
hard_wrap_loop-concat budget out [] n [] = sym (append-nil (concat out))
hard_wrap_loop-concat budget out (c ∷ cur) n [] =
    concat-snoc out (c ∷ cur) ∙ ap (λ t. concat out ++ (c ∷ t)) (sym (append-nil cur))
hard_wrap_loop-concat budget out cur n (ch ∷ line) = ground (
  arith,
  hard_wrap_loop-concat budget (out ++ cur ∷ []) (ch ∷ []) (char_len ch) line,
  hard_wrap_loop-concat budget out (cur ++ ch ∷ []) (n + char_len ch) line,
  concat-snoc out cur,
  append_assoc (concat out) cur (ch ∷ line),
  append_assoc cur (ch ∷ []) line,
)

-- The chunks of a line that is too long are the line again.
pub hard_wrap-concat : (line : Text) (budget : ℕ) → concat (hard_wrap line budget) ≡ line
unfolding hard_wrap
hard_wrap-concat line budget = hard_wrap_loop-concat budget [] [] 0 line

abbrev pub Fits : ℕ → List Text → Type 0
Fits budget = All (λ p. utf8_len p ≤ budget)

pub Fits-snoc :
    (budget : ℕ) (ps : List Text) (p : Text)
    → Fits budget ps
    → utf8_len p ≤ budget
    → Fits budget (ps ++ p ∷ [])
Fits-snoc budget ps p h k = All-append (λ p. utf8_len p ≤ budget) ps (p ∷ []) h (k, tt)

utf8_len-snoc : (s : Text) (c : ℕ) → utf8_len (s ++ c ∷ []) ≡ utf8_len s + char_len c
unfolding utf8_len
utf8_len-snoc s c = omega (arith, utf8_len-append s (c ∷ []))

hard_wrap_loop-Fits :
    (budget : ℕ) (out : List Text) (cur : Text) (n : ℕ) (line : Text)
    → 4 ≤ budget
    → Fits budget out
    → utf8_len cur ≡ n
    → n ≤ budget
    → Fits budget (hard_wrap_loop budget out cur n line)
unfolding hard_wrap_loop utf8_len
hard_wrap_loop-Fits budget out [] n [] b h e k = h
hard_wrap_loop-Fits budget out (c ∷ cur) n [] b h e k =
    Fits-snoc budget out (c ∷ cur) h (omega arith)
hard_wrap_loop-Fits budget out cur n (ch ∷ line) b h e k =
    elim (Bool-cases (ltb budget (n + char_len ch))) [
      | inl over ↦
          rw (over, hard_wrap_loop)
            (hard_wrap_loop-Fits budget (out ++ cur ∷ []) (ch ∷ []) (char_len ch) line b
              (Fits-snoc budget out cur h (omega arith)) (omega arith)
              (omega (arith, char_len_bounds ch)))
      | inr room ↦
          rw (room, hard_wrap_loop)
            (hard_wrap_loop-Fits budget out (cur ++ ch ∷ []) (n + char_len ch) line b h
              (omega (arith, utf8_len-snoc cur ch)) (omega tests))
    ]

-- With room for one character, no chunk is over the budget.
pub hard_wrap-Fits : (line : Text) (budget : ℕ) → 4 ≤ budget → Fits budget (hard_wrap line budget)
unfolding hard_wrap utf8_len
hard_wrap-Fits line budget b = hard_wrap_loop-Fits budget [] [] 0 line b tt refl (omega arith)
