-- ===== src/Util/Table.antt =====
-- The table of the mtd partitions that is read from /proc/mtd.
use asl.Base.{
  ◌+◌, ◌<◌, ◌≤◌, ◌≡◌, ◌≢◌, refl, sym, ◌∙◌, true, false, some, List, [], ◌∷◌, ◌++◌, arith, ◌==◌,
  append-nil, append_assoc, ap, All, length, take_all, map, length-append,
}
use asl.Base.Text.{Bytes, codes, is_space, split_at}
use asl.Util.Mtd.{MtdPart, scan_line, unquoted, add_partition, scan_lines, find_mtd_partitions}
use asl.Util.Partitions.{
  value, IsDigits, weaken, Line, print_line, print_lines, IsLine, cut-scan_word, scan_line-print,
}

abbrev pub part_of : Line → MtdPart
part_of l = record { name = l.name; number = value 10 0 l.number }

-- The first line of /proc/mtd.
abbrev pub header : Bytes
header = codes "dev:    size   erasesize  name\n"

skip_bytes :
    (s rest : Bytes) (t : List MtdPart)
    → All (λ c. c ≢ b'\n') s
    → scan_lines false (s ++ rest) t ≡ scan_lines false rest t
unfolding scan_lines
skip_bytes [] rest t h = refl
skip_bytes (c ∷ s) rest t h =
    ap (λ start. scan_lines start (s ++ rest) t) (other h.0) ∙ skip_bytes s rest t h.1
  where
    other : c ≢ b'\n' → (c == b'\n') ≡ false
    other ne = ground (arith, ne)

digits_one_line : (ds : Bytes) → IsDigits 16 ds → All (λ c. c ≢ b'\n') ds
digits_one_line [] h = tt
digits_one_line (d ∷ ds) h = (ground (arith, h.0), digits_one_line ds h.1)

name_one_line :
    (name : Bytes) → All (λ c. (is_space c ≡ false) × (c ≢ b'"')) name → All (λ c. c ≢ b'\n') name
name_one_line [] h = tt
name_one_line (c ∷ name) h = (ground (arith, h.0.0), name_one_line name h.1)

add_partition-line :
    (l : Line) (rest : Bytes) (t : List MtdPart)
    → IsLine l
    → length t < 16
    → add_partition (scan_line (print_line l rest)) t ≡ t ++ part_of l ∷ []
unfolding add_partition unquoted split_at
add_partition-line l rest t h room =
    rw (scan_line-print l rest h)
      (rw (cut-scan_word 14 l.name rest h.name_plain h.name_fits) (ground (arith, room)))

scan_lines-line :
    (l : Line) (rest : Bytes) (t : List MtdPart)
    → IsLine l
    → length t < 16
    → scan_lines true (print_line l rest) t ≡ scan_lines true rest (t ++ part_of l ∷ [])
unfolding scan_lines
scan_lines-line l rest t h room =
    ap (scan_lines false (td ++ number)) (add_partition-line l rest t h room)
    ∙ skip_bytes l.number _ new (digits_one_line l.number (weaken l.number h.number_digits))
    ∙ skip_bytes l.size _ new (digits_one_line l.size h.size_digits)
    ∙ skip_bytes l.erasesize _ new (digits_one_line l.erasesize h.erasesize_digits)
    ∙ skip_bytes l.name _ new (name_one_line l.name h.name_plain)
  where
    td : Bytes
    td = codes "td"

    number : Bytes
    number =
        l.number
        ++ b':'
          ∷ b' '
          ∷ (l.size ++ b' ' ∷ (l.erasesize ++ b' ' ∷ b'"' ∷ (l.name ++ b'"' ∷ b'\n' ∷ rest)))

    new : List MtdPart
    new = t ++ part_of l ∷ []

scan_lines-print :
    (ls : List Line) (t : List MtdPart)
    → All IsLine ls
    → length t + length ls ≤ 16
    → scan_lines true (print_lines ls) t ≡ t ++ map part_of ls
unfolding scan_lines
scan_lines-print [] t h room = sym (append-nil t)
scan_lines-print (l ∷ ls) t h room =
    scan_lines-line l (print_lines ls) t h.0 (ground (arith, room))
    ∙ scan_lines-print ls (t ++ part_of l ∷ []) h.1
        (ground (arith, length-append t (part_of l ∷ []), room))
    ∙ append_assoc t (part_of l ∷ []) (map part_of ls)

-- From the text of /proc/mtd, if it has at most 16 lines behind the first one and 1023 bytes, no name
-- is longer than 14 bytes and every number is below 2 ^ 31, the table gets the name and the number of each line, in order.
pub find_mtd_partitions-print :
    (ls : List Line)
    → All IsLine ls
    → length ls ≤ 16
    → length (header ++ print_lines ls) ≤ 1023
    → find_mtd_partitions (some (header ++ print_lines ls)) ≡ map part_of ls
unfolding find_mtd_partitions scan_lines scan_line add_partition
find_mtd_partitions-print ls h count bound =
    ap (λ s. scan_lines true s []) (take_all 1023 (header ++ print_lines ls) bound)
    ∙ scan_lines-print ls [] h (omega (arith, count))
