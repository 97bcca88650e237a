-- ===== src/Format.antt =====
-- format.py: replies split into packets for the radio.
pub mod Wrap
pub mod Pack
pub mod Bounds
pub mod Split
use meshcore_bbs.Prelude.{
  List, [], false, if◌then◌else◌, leb, length, ltb, not, null, take, true, ℕ, ◌&&◌, ◌++◌, ◌+◌, ◌-◌,
  ◌==◌, ◌∷◌,
}
use meshcore_bbs.Text.{Text, char_len, join, lit, rstrip_newline, split_on, utf8_len}
use meshcore_bbs.Text.Decimal.{str}

abbrev pub default_packet_bytes : ℕ
default_packet_bytes = 140

abbrev newline : Text
newline = 10 ∷ []

-- The loop of `_hard_wrap` over the characters, with its variables `out`, `cur` and `cur_len`.
hard_wrap_loop : ℕ → List Text → Text → ℕ → Text → List Text
hard_wrap_loop budget out cur cur_len [] = if null cur then out else out ++ cur ∷ []
hard_wrap_loop budget out cur cur_len (ch ∷ line) = elim (ltb budget (cur_len + char_len ch)) [
  | true ↦ hard_wrap_loop budget (out ++ cur ∷ []) (ch ∷ []) (char_len ch) line
  | false ↦ hard_wrap_loop budget out (cur ++ ch ∷ []) (cur_len + char_len ch) line
]

unfoldable pub hard_wrap : Text → ℕ → List Text
unfolding hard_wrap_loop char_len
hard_wrap line budget = hard_wrap_loop budget [] [] 0 line

-- The variables of the loop of `_pack_lines`.
pub record Packing : Type 0 where
  pub packets : List Text
  pub cur : List Text
  pub cur_size : ℕ

-- `if cur: packets.append("\n".join(cur))`.
abbrev pub flushed : Packing → List Text
flushed s = if null s.cur then s.packets else s.packets ++ join newline s.cur ∷ []

-- The body of the loop.
pub pack_line : ℕ → Packing → Text → Packing
pack_line budget s line =
    let line_bytes = utf8_len line + (if null s.cur then 0 else 1) in
    if not (null s.cur) && ltb budget (s.cur_size + line_bytes)
    then record {
      packets = s.packets ++ join newline s.cur ∷ [];
      cur = line ∷ [];
      cur_size = utf8_len line;
    }
    else if ltb budget (utf8_len line)
    then record {
      packets = flushed s ++ hard_wrap line budget;
      cur = [];
      cur_size = if null s.cur then s.cur_size else 0;
    }
    else record {
      packets = s.packets;
      cur = s.cur ++ line ∷ [];
      cur_size = s.cur_size + line_bytes;
    }

pub pack_loop : ℕ → Packing → List Text → Packing
pack_loop budget s [] = s
pack_loop budget s (line ∷ lines) = pack_loop budget (pack_line budget s line) lines

abbrev pub start_packing : Packing
start_packing = record { packets = []; cur = []; cur_size = 0 }

unfoldable pub pack_lines : Text → ℕ → List Text
unfolding pack_line pack_loop hard_wrap split_on join utf8_len
pack_lines text budget = flushed (pack_loop budget start_packing (split_on 10 text))

-- `f"({i}/{n}) "`.
unfoldable pub prefix : ℕ → ℕ → Text
unfolding str
prefix i n = lit "(" ++ (str i ++ (lit "/" ++ (str n ++ lit ") ")))

-- `[f"({i + 1}/{n}) {p}" for i, p in enumerate(packets)]`, from index `i` on.
pub number_packets : ℕ → ℕ → List Text → List Text
number_packets i n [] = []
number_packets i n (p ∷ ps) = (prefix (i + 1) n ++ p) ∷ number_packets (i + 1) n ps

-- `budget = packet_bytes - prefix_len`, at least 16. A negative difference is 0 here, and is
-- raised to 16 in both.
abbrev pub second_budget : ℕ → ℕ → ℕ
second_budget packet_bytes n =
    let budget = packet_bytes - utf8_len (prefix n n) in if ltb budget 16 then 16 else budget

unfoldable pub split_packets : Text → ℕ → List Text
unfolding pack_lines number_packets prefix rstrip_newline utf8_len
split_packets text packet_bytes =
    let stripped = rstrip_newline text in
    let raw = pack_lines stripped packet_bytes in
    let n = length raw in
    if null stripped
    then [] ∷ []
    else if leb (utf8_len stripped) packet_bytes
    then stripped ∷ []
    else if n == 1
    then raw
    else number_packets 0 n (pack_lines stripped (second_budget packet_bytes n))

-- `truncate(s, max_chars)` with its default ellipsis. `s[:k]` for a negative `k` counts from the
-- end; the callers pass 40, 60 and 120.
unfoldable pub truncate : Text → ℕ → Text
truncate s max_chars =
    if leb (length s) max_chars
    then s
    else if ltb max_chars 3
    then take (length s + max_chars - 3) s ++ lit "..."
    else take (max_chars - 3) s ++ lit "..."
