-- ===== src/Names/Validation.antt =====
-- `validate_name_chars` accepts exactly the names of allowed characters.
use meshcore_bbs.Names.{is_allowed_name_char, is_disallowed}
use meshcore_bbs.Prelude.{Bool, leb, not, suc, true, zero, ℕ, ◌&&◌, ◌==◌, ◌||◌}
use meshcore_bbs.Text.{Text}

-- A test of every number below a bound.
all_below : ℕ → (ℕ → Bool) → Bool
all_below zero p = true
all_below (suc n) p = p n && all_below n p

abbrev exclusive : ℕ → Bool
exclusive c = not (is_allowed_name_char c && is_disallowed c)

-- From 256 on a disallowed character is white space.
is_wide_space : ℕ → Bool
is_wide_space c =
    c == 0x1680
    || (leb 0x2000 c && leb c 0x200a)
    || c == 0x2028
    || c == 0x2029
    || c == 0x202f
    || c == 0x205f
    || c == 0x3000
