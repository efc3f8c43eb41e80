-- ===== src/Util/Mtd.antt =====
-- The table of the mtd partitions of util.c, with `sscanf` as it is called on a line of /proc/mtd.
use asl.Base.{
  ℕ, ◌+◌, ◌-◌, ◌*◌, ◌%◌, Bool, true, ◌&&◌, ◌||◌, Option, none, some, List, [], ◌∷◌, ◌++◌, ◌==◌, ltb,
  if◌then◌else◌, length, take, ◌>>=◌,
}
use asl.Base.Text.{Bytes, codes, str_eq, split_at, is_space}
use asl.Number.{digit, word, skip_space}

-- An element of `mtd_part_map`.
pub record MtdPart : Type 0 where
  pub name : Bytes
  pub number : ℕ

-- Digits behind `acc`, and what stands behind them.
unfoldable pub scan_digits : ℕ → ℕ → Bytes → ℕ × Bytes
scan_digits base acc [] = (acc, [])
scan_digits base acc (c ∷ cs) =
    let rest = scan_digits base (acc * base + digit c) cs in
    if ltb (digit c) base then rest else (acc, c ∷ cs)

-- What stands behind a 0x.
abbrev pub without_0x : Bytes → Bytes
without_0x [] = []
without_0x (c ∷ []) = c ∷ []
without_0x (c ∷ d ∷ cs) = if c == b'0' && (d == b'x' || d == b'X') then cs else c ∷ d ∷ cs

-- At least one digit.
unfoldable pub scan_number : ℕ → Bytes → Option (ℕ × Bytes)
unfolding scan_digits
scan_number base [] = none
scan_number base (c ∷ cs) = if ltb (digit c) base then some (scan_digits base 0 (c ∷ cs)) else none

-- The number in base 16 may have a 0x in front.
abbrev scan_unsigned : ℕ → Bytes → Option (ℕ × Bytes)
unfolding scan_number
scan_unsigned base s = scan_number base (if base == 16 then without_0x s else s)

abbrev negated : Option (ℕ × Bytes) → Option (ℕ × Bytes)
negated none = none
negated (some (v, s)) = some ((word - v % word) % word, s)

-- The number behind a sign.
unfoldable pub scan_signed : ℕ → Bytes → Option (ℕ × Bytes)
unfolding scan_unsigned
scan_signed base [] = none
scan_signed base (c ∷ cs) =
    if c == b'-'
    then negated (scan_unsigned base cs)
    else if c == b'+'
    then scan_unsigned base cs
    else scan_unsigned base (c ∷ cs)

-- A number as it is stored in an `int`; where it does not fit, which C leaves open, its low 32 bits.
abbrev pub stored : Option (ℕ × Bytes) → Option (ℕ × Bytes)
stored none = none
stored (some (v, s)) = some (v % word, s)

-- `%d` and `%x`
abbrev pub scan_d : Bytes → Option (ℕ × Bytes)
scan_d s = stored (scan_signed 10 (skip_space s))

abbrev pub scan_x : Bytes → Option (ℕ × Bytes)
scan_x s = scan_signed 16 (skip_space s)

-- A literal of the format.
unfoldable pub scan_literal : Bytes → Bytes → Option Bytes
scan_literal [] s = some s
scan_literal (x ∷ xs) [] = none
scan_literal (x ∷ xs) (c ∷ cs) = if x == c then scan_literal xs cs else none

-- The bytes of `%15s`, with the room that is left.
unfoldable pub scan_word : ℕ → Bytes → Bytes
scan_word room [] = []
scan_word room (c ∷ cs) =
    let rest = scan_word (room - 1) cs in if room == 0 || is_space c then [] else c ∷ rest

abbrev pub nonempty : Bytes → Option Bytes
nonempty [] = none
nonempty (c ∷ cs) = some (c ∷ cs)

-- `sscanf(s, "mtd%d: %x %x %15s", ...)` where it gives 4: `mtdnum` and `mtdname`.
unfoldable pub scan_line : Bytes → Option (ℕ × Bytes)
unfolding scan_literal scan_word
scan_line s = do
  s1 ← scan_literal (codes "mtd") s
  (mtdnum, s2) ← scan_d s1
  s3 ← scan_literal (codes ":") s2
  (mtdsize, s4) ← scan_x s3
  (mtderasesize, s5) ← scan_x s4
  mtdname ← nonempty (scan_word 15 (skip_space s5))
  some (mtdnum, mtdname)

-- `mtdname + 1` up to the next quote, if the first byte is a quote.
unfoldable pub unquoted : Bytes → Option Bytes
unfolding split_at
unquoted [] = none
unquoted (c ∷ cs) =
    if c == b'"'
    then some (elim (split_at b'"' cs) [ none ↦ cs | some (name, rest) ↦ name ])
    else none

-- A partition behind the others, unless there are 16 of them.
unfoldable pub add_partition : Option (ℕ × Bytes) → List MtdPart → List MtdPart
unfolding unquoted
add_partition none mtd_part_map = mtd_part_map
add_partition (some (mtdnum, mtdname)) mtd_part_map = elim (unquoted mtdname) [
  | none ↦ mtd_part_map
  | some name ↦
      if ltb (length mtd_part_map) 16
      then mtd_part_map ++ record { name = name; number = mtdnum } ∷ []
      else mtd_part_map
]

-- The loop over the bytes of the buffer; the flag tells whether a line starts here.
unfoldable pub scan_lines : Bool → Bytes → List MtdPart → List MtdPart
unfolding scan_line add_partition
scan_lines start [] mtd_part_map = mtd_part_map
scan_lines start (c ∷ cs) mtd_part_map =
    scan_lines (c == b'\n') cs
      (if start then add_partition (scan_line (c ∷ cs)) mtd_part_map else mtd_part_map)

-- From an empty table, with the bytes that `read` gives, or none where the file cannot be opened.
unfoldable pub find_mtd_partitions : Option Bytes → List MtdPart
unfolding scan_lines
find_mtd_partitions none = []
find_mtd_partitions (some buf) = scan_lines true (take 1023 buf) []

unfoldable pub number_of : Bytes → List MtdPart → Option ℕ
number_of name [] = none
number_of name (part ∷ parts) =
    let rest = number_of name parts in if str_eq name part.name then some part.number else rest

-- The table, which is none while `mtd_part_count` is -1.
abbrev pub mtd_table : Option Bytes → Option (List MtdPart) → List MtdPart
unfolding find_mtd_partitions
mtd_table proc_mtd none = find_mtd_partitions proc_mtd
mtd_table proc_mtd (some mtd_part_map) = mtd_part_map

-- The number of the partition, where none is -1, and the table that is kept.
unfoldable pub mtd_name_to_number :
    Option Bytes → Bytes → Option (List MtdPart) → Option ℕ × Option (List MtdPart)
unfolding number_of mtd_table
mtd_name_to_number proc_mtd name kept =
    let mtd_part_map = mtd_table proc_mtd kept in (number_of name mtd_part_map, some mtd_part_map)
