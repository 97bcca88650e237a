-- ===== src/Dashboard/Logs.antt =====
-- _read_log_tail and api_logs: the end of the log file. Python's reader of UTF-8, which replaces
-- what it cannot read, and `splitlines` are parameters.
use meshcore_bbs.Dashboard.{Reply, answered, query_int, raised}
use meshcore_bbs.Db.{os_error}
use meshcore_bbs.Prelude.{
  List, Option, [], arith, drop, if◌then◌else◌, length, length-drop, ltb, min, none, null, some, ℕ,
  ◌&&◌, ◌*◌, ◌-◌, ◌==◌, ◌≤◌,
}
use meshcore_bbs.Text.{Text, Unicode}
use meshcore_bbs.Text.Integers.{clamp, negsuc, pos}

pub record TailResult : Type 0 where
  pub lines : List Text
  pub offset : ℕ
  pub size : ℕ

abbrev pub log_tail_default : ℕ
log_tail_default = 200

abbrev pub log_tail_max : ℕ
log_tail_max = 2000

-- `xs[-n:]` for a positive `n`.
unfoldable pub last_of {ℓ} : {A : Type ℓ} → ℕ → List A → List A
last_of n xs = drop (length xs - n) xs

module _ (decode : List ℕ → Text) (splitlines : Text → List Text) where
  -- none is a path that is no file. `offset` is within the file or behind it.
  unfoldable pub read_log_tail : Option (List ℕ) → ℕ → ℕ → TailResult
  read_log_tail none offset max_lines = record { lines = []; offset = 0; size = 0 }
  read_log_tail (some bytes) offset max_lines =
      let size = length bytes in
      let start = min offset size in
      let read : ℕ → List Text = λ at. splitlines (decode (drop at bytes)) in
      if start == 0 && ltb 0 max_lines
      then record {
        lines = last_of max_lines (read (size - min size (256 * 1024)));
        offset = size;
        size = size;
      }
      else record {
        lines =
            if ltb max_lines (length (read start))
            then last_of max_lines (read start)
            else read start;
        offset = size;
        size = size;
      }

  -- The answer holds the path, null where none is configured. `f.seek` raises for a negative
  -- offset, but only in a file that is there.
  unfoldable pub api_logs :
      Unicode
      → Text
      → Option (List ℕ)
      → Option Text
      → Option Text
      → Reply (TailResult × Option Text)
  api_logs u path file offset lines =
      let lines_n = clamp 1 log_tail_max (query_int u lines log_tail_default) in
      if null path
      then answered (record { lines = []; offset = 0; size = 0 }, none)
      else elim (query_int u offset 0) [
        | pos n ↦ answered (read_log_tail file n lines_n, some path)
        | negsuc n ↦ elim file [
          | none ↦ answered (read_log_tail none 0 lines_n, some path)
          | some bytes ↦ raised os_error
        ]
      ]

-- `max_lines` is positive in each call, and no tail has more lines.
read_log_tail-length :
    (decode : List ℕ → Text) (splitlines : Text → List Text) (file : Option (List ℕ))
    (offset max_lines : ℕ)
    → length (read_log_tail decode splitlines file offset max_lines).lines ≤ max_lines
unfolding read_log_tail last_of
read_log_tail-length decode splitlines none offset max_lines = omega arith
read_log_tail-length decode splitlines (some bytes) offset max_lines = grind (arith, length-drop)
