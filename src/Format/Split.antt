-- ===== src/Format/Split.antt =====
-- `split_packets` of format.py: what its packets hold together, and how large they are.
use native.Mathlib.Nat.{zero-add}
use meshcore_bbs.Format.{number_packets, pack_lines, prefix, second_budget, split_packets}
use meshcore_bbs.Format.Bounds.{IsLine, pack_lines-Fits, pack_lines_long_second}
use meshcore_bbs.Format.Pack.{letters, letters-pack_lines}
use meshcore_bbs.Format.Wrap.{Fits}
use meshcore_bbs.Prelude.{
  All-map, Bool-cases, List, [], ap, append-nil, arith, drop, false, inl, inr, leb, leb→le, length,
  null, null→nil, refl, suc, sym, ℕ, ◌++◌, ◌+◌, ◌-◌, ◌<◌, ◌==◌, ◌∙◌, ◌∷◌, ◌≡◌, ◌≢◌, ◌≤◌, ◌⊎◌,
}
use meshcore_bbs.Text.{Text, concat, lit, rstrip_newline, split_on, utf8_len}
use meshcore_bbs.Text.Decimal.{length-str_mono, str, utf8_len-str}
use meshcore_bbs.Text.Laws.{utf8_len-append}

-- `split_packets` as a choice of bodies that are numbered or not.
letters-rstrip_newline : (text : Text) → letters (rstrip_newline text) ≡ letters text
unfolding rstrip_newline letters
letters-rstrip_newline [] = refl
letters-rstrip_newline (c ∷ text) = ground (arith, letters-rstrip_newline text)

utf8_len-prefix : (i n : ℕ) → utf8_len (prefix i n) ≡ length (str i) + length (str n) + 4
unfolding prefix utf8_len
utf8_len-prefix i n = omega (
  arith,
  utf8_len-append (str i) (lit "/" ++ (str n ++ lit ") ")),
  utf8_len-append (str n) (lit ") "),
  utf8_len-str i,
  utf8_len-str n,
)

number_packets-Fits :
    (budget size i n : ℕ) (ps : List Text)
    → length (str (i + length ps)) ≤ length (str n)
    → utf8_len (prefix n n) + budget ≤ size
    → Fits budget ps
    → Fits size (number_packets i n ps)
unfolding number_packets
number_packets-Fits budget size i n [] digits room h = tt
number_packets-Fits budget size i n (p ∷ ps) digits room h = (
  omega (
    arith,
    utf8_len-append (prefix (i + 1) n) p,
    utf8_len-prefix (i + 1) n,
    utf8_len-prefix n n,
    length-str_mono (i + 1) (i + suc (length ps)) (omega arith),
    digits,
    h.0,
  ),
  number_packets-Fits budget size (i + 1) n ps
      (omega
        (arith, length-str_mono (i + 1 + length ps) (i + suc (length ps)) (omega arith), digits))
      room h.1,
)

Fits-mono : (b c : ℕ) (ps : List Text) → b ≤ c → Fits b ps → Fits c ps
Fits-mono b c ps le h =
    All-map (λ p. utf8_len p ≤ b) (λ p. utf8_len p ≤ c) ps (λ p k. omega arith) h

-- What `split_packets` returns, by its branches.
data Outcome (text : Text) (packet_bytes : ℕ) : List Text → Type 0 where
  empty : rstrip_newline text ≡ [] → Outcome text packet_bytes ([] ∷ [])
  whole :
      utf8_len (rstrip_newline text) ≤ packet_bytes
      → Outcome text packet_bytes (rstrip_newline text ∷ [])
  unnumbered : Outcome text packet_bytes (pack_lines (rstrip_newline text) packet_bytes)
  numbered :
      (n : ℕ)
      → n ≡ length (pack_lines (rstrip_newline text) packet_bytes)
      → Outcome text packet_bytes
          (number_packets 0 n (pack_lines (rstrip_newline text) (second_budget packet_bytes n)))

split_packets-Outcome :
    (text : Text) (packet_bytes : ℕ) → Outcome text packet_bytes (split_packets text packet_bytes)
unfolding split_packets
split_packets-Outcome text packet_bytes = elim (Bool-cases (null (rstrip_newline text))) [
  | inl none_left ↦ rw none_left (empty (null→nil (rstrip_newline text) none_left))
  | inr some_left ↦
      rw some_left (elim (Bool-cases (leb (utf8_len (rstrip_newline text)) packet_bytes)) [
        | inl short ↦ rw short (whole (leb→le _ _ short))
        | inr long ↦
            rw long
              (elim (Bool-cases (length (pack_lines (rstrip_newline text) packet_bytes) == 1)) [
                | inl one ↦ rw one unnumbered
                | inr more ↦ rw more (numbered _ refl)
              ])
      ])
]

-- The bodies of the packets: the packets themselves, or what stands behind their numbers.
record Bodies (text : Text) (packets : List Text) : Type 0 where
  bodies : List Text
  complete : letters (concat bodies) ≡ letters text
  shown : (packets ≡ bodies) ⊎ ((n : ℕ) × (packets ≡ number_packets 0 n bodies))

Outcome-Bodies :
    {text : Text} {packet_bytes : ℕ} {packets : List Text}
    → Outcome text packet_bytes packets
    → Bodies text packets
Outcome-Bodies {text} (empty e) = record {
  bodies = [] ∷ [];
  complete = ap letters (sym e) ∙ letters-rstrip_newline text;
  shown = inl refl;
}
Outcome-Bodies {text} (whole h) = record {
  bodies = rstrip_newline text ∷ [];
  complete = ap letters (append-nil (rstrip_newline text)) ∙ letters-rstrip_newline text;
  shown = inl refl;
}
Outcome-Bodies {text} {packet_bytes} unnumbered = record {
  bodies = pack_lines (rstrip_newline text) packet_bytes;
  complete = letters-pack_lines (rstrip_newline text) packet_bytes ∙ letters-rstrip_newline text;
  shown = inl refl;
}
Outcome-Bodies {text} {packet_bytes} (numbered n e) = record {
  bodies = pack_lines (rstrip_newline text) (second_budget packet_bytes n);
  complete =
      letters-pack_lines (rstrip_newline text) (second_budget packet_bytes n)
      ∙ letters-rstrip_newline text;
  shown = inr (n, refl);
}

-- The packets are bodies, all as they are or all numbered, and the bodies together hold the text
-- without its line breaks.
pub split_packets_content :
    (text : Text) (packet_bytes : ℕ)
    → (bodies : List Text) × (letters (concat bodies) ≡ letters text)
      × ((split_packets text packet_bytes ≡ bodies)
          ⊎ ((n : ℕ) × (split_packets text packet_bytes ≡ number_packets 0 n bodies)))
split_packets_content text packet_bytes =
    let b = Outcome-Bodies (split_packets-Outcome text packet_bytes) in
    (b.bodies, b.complete, b.shown)

module _ (text : Text) (packet_bytes : ℕ) where
  abbrev raw_count : ℕ
  raw_count = length (pack_lines (rstrip_newline text) packet_bytes)

  abbrev numbered_count : ℕ
  numbered_count = length (pack_lines (rstrip_newline text) (second_budget packet_bytes raw_count))

-- No packet is over `packet_bytes`, if the number fits beside 16 bytes, each line but the first
-- fits behind a number, and the second pass makes no more packets than the digits allow.
pub split_packets-Fits :
    (text : Text) (packet_bytes : ℕ)
    → utf8_len (prefix (raw_count text packet_bytes) (raw_count text packet_bytes)) + 16
      ≤ packet_bytes
    → Fits
        (second_budget packet_bytes (raw_count text packet_bytes))
        (drop 1 (split_on 10 (rstrip_newline text)))
    → length (str (numbered_count text packet_bytes)) ≤ length (str (raw_count text packet_bytes))
    → Fits packet_bytes (split_packets text packet_bytes)
split_packets-Fits text packet_bytes wide short digits =
    by_outcome (split_packets text packet_bytes) (split_packets-Outcome text packet_bytes)
  where
    n : ℕ
    n = raw_count text packet_bytes

    budget_bounds :
        (16 ≤ second_budget packet_bytes n)
        × (utf8_len (prefix n n) + second_budget packet_bytes n ≤ packet_bytes)
    budget_bounds = ground arith

    by_outcome : (ps : List Text) → Outcome text packet_bytes ps → Fits packet_bytes ps
    by_outcome _ (empty e) = (unfold utf8_len in omega arith, tt)
    by_outcome _ (whole h) = (h, tt)
    by_outcome _ unnumbered =
        pack_lines-Fits (rstrip_newline text) packet_bytes (omega (arith, budget_bounds)) (
          Fits-mono (second_budget packet_bytes n) packet_bytes _ (omega (arith, budget_bounds))
            short)
    by_outcome _ (numbered m e) = rw e (
        number_packets-Fits (second_budget packet_bytes n) packet_bytes 0 n
          (pack_lines (rstrip_newline text) (second_budget packet_bytes n)) (rw zero-add digits)
          (budget_bounds.1)
          (pack_lines-Fits (rstrip_newline text) (second_budget packet_bytes n)
            (omega (arith, budget_bounds)) short))

rstrip_newline_line : (line : Text) → IsLine line → rstrip_newline line ≡ line
unfolding rstrip_newline
rstrip_newline_line [] h = refl
rstrip_newline_line (c ∷ line) h = ground (arith, rstrip_newline_line line h.1)

rstrip_newline-append :
    (s t : Text) → t ≢ [] → rstrip_newline t ≡ t → rstrip_newline (s ++ t) ≡ s ++ t
unfolding rstrip_newline
rstrip_newline-append [] t some_left e = e
rstrip_newline-append (c ∷ s) t some_left e =
    ground (arith, rstrip_newline-append s t some_left e, append_ne_nil s t)
  where
    append_ne_nil : (s t : Text) → t ≢ [] → s ++ t ≢ []
    append_ne_nil [] t h = h
    append_ne_nil (c ∷ s) t h = λ e. cc

rstrip_newline_two :
    (first second : Text)
    → IsLine second
    → 0 < utf8_len second
    → rstrip_newline (first ++ 10 ∷ second) ≡ first ++ 10 ∷ second
unfolding rstrip_newline
rstrip_newline_two first [] k pos = absurd (unfold utf8_len in omega arith)
rstrip_newline_two first (c ∷ second) k pos =
    rstrip_newline-append first (10 ∷ c ∷ second) (λ e. cc)
      (ground (arith, rstrip_newline_line (c ∷ second) k))

null-middle : (first second : Text) → null (first ++ 10 ∷ second) ≡ false
null-middle [] second = refl
null-middle (c ∷ first) second = refl

utf8_len-second-le : (first second : Text) → utf8_len second ≤ utf8_len (first ++ 10 ∷ second)
unfolding utf8_len
utf8_len-second-le first second = omega (arith, utf8_len-append first (10 ∷ second))

-- A text of two lines, of which the second is longer than a packet and the first leaves room for
-- its number, as READMAIL sends for a long mail, goes out as two packets with the second line
-- unbroken, for a limit of at least 22 bytes.
pub split_packets_long_second :
    (first second : Text) (packet_bytes : ℕ)
    → IsLine first
    → IsLine second
    → 22 ≤ packet_bytes
    → utf8_len first + 6 ≤ packet_bytes
    → packet_bytes < utf8_len second
    → split_packets (first ++ 10 ∷ second) packet_bytes
      ≡ (prefix 1 2 ++ first) ∷ (prefix 2 2 ++ second) ∷ []
unfolding split_packets
split_packets_long_second first second packet_bytes h k wide fits over = ground (
  arith,
  rstrip_newline_two first second k (omega arith),
  null-middle first second,
  utf8_len-second-le first second,
  pack_lines_long_second first second packet_bytes h k (omega arith) over,
  pack_lines_long_second first second (packet_bytes - 6) h k (omega arith) (omega arith),
  prefix_two,
)
  where
    prefix_two : utf8_len (prefix 2 2) ≡ 6
    prefix_two = refl
