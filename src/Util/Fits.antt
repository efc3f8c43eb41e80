-- ===== src/Util/Fits.antt =====
-- The bounds of `mtd_part_map`.
use asl.Base.{
  ℕ, suc, ◌-◌, ◌<◌, ◌≤◌, ◌≡◌, refl, Bool, true, Option, none, some, List, [], ◌∷◌, arith, ◌==◌, ltb,
  if_elim, All, length, take, length-append, ◌>>=◌, bind_elim, All-append,
}
use asl.Base.Text.{Bytes, codes, split_at}
use asl.Number.{skip_space}
use asl.Util.Mtd.{
  MtdPart, scan_line, scan_word, scan_literal, scan_d, scan_x, nonempty, unquoted, add_partition,
  scan_lines, find_mtd_partitions,
}

-- A partition is in the array of 16, and its name has room for the 0 in its 16 bytes.
abbrev pub Fits : List MtdPart → Type 0
Fits mtd_part_map =
    (length mtd_part_map ≤ 16) × All (λ (part : MtdPart). length part.name < 16) mtd_part_map

scan_word-length : (room : ℕ) (s : Bytes) → length (scan_word room s) ≤ room
unfolding scan_word
scan_word-length room [] = omega arith
scan_word-length room (c ∷ s) = ground (arith, scan_word-length (room - 1) s)

split_at-length : (c : ℕ) (s a b : Bytes) → split_at c s ≡ some (a, b) → length a ≤ length s
unfolding split_at
split_at-length c [] a b h = cc h
split_at-length c (x ∷ s) a b h = go (split_at c s) (split_at-length c s) refl
  where
    go :
        (o : Option (Bytes × Bytes))
        → ((a b : Bytes) → o ≡ some (a, b) → length a ≤ length s)
        → split_at c s ≡ o
        → length a ≤ suc (length s)
    go none k e = ground (arith, h, e)
    go (some (a', b')) k e = ground (arith, h, e, k a' b' refl)

unquoted-length : (s name : Bytes) → unquoted s ≡ some name → length name < length s
unfolding unquoted
unquoted-length [] name h = cc h
unquoted-length (c ∷ s) name h = go (split_at b'"' s) refl
  where
    go : (o : Option (Bytes × Bytes)) → split_at b'"' s ≡ o → length name < suc (length s)
    go none e = ground (arith, h, e)
    go (some (a, b)) e = ground (arith, h, e, split_at-length b'"' s a b e)

-- The bound that the width of the format sets on the last item.
abbrev NameFits : Option (ℕ × Bytes) → Type 0
NameFits none = Unit
NameFits (some p) = length p.1 ≤ 15

scan_line-NameFits : (s : Bytes) → NameFits (scan_line s)
unfolding scan_line
scan_line-NameFits s = bind_elim NameFits (scan_literal (codes "mtd") s) _ tt (λ s1.
    bind_elim NameFits (scan_d s1) _ tt (λ p.
      bind_elim NameFits (scan_literal (codes ":") p.1) _ tt (λ s3.
        bind_elim NameFits (scan_x s3) _ tt (λ q.
          bind_elim NameFits (scan_x q.1) _ tt (λ r.
            last p.0 (scan_word 15 (skip_space r.1)) (scan_word-length 15 (skip_space r.1)))))))
  where
    last : (n : ℕ) (w : Bytes) → length w ≤ 15 → NameFits (nonempty w >>= (λ name. some (n, name)))
    last n [] h = tt
    last n (c ∷ w) h = h

add_partition-Fits :
    (o : Option (ℕ × Bytes)) (t : List MtdPart) → NameFits o → Fits t → Fits (add_partition o t)
unfolding add_partition
add_partition-Fits none t k h = h
add_partition-Fits (some (n, s)) t k h = go (unquoted s) refl
  where
    go : (o : Option Bytes) → unquoted s ≡ o → Fits (add_partition (some (n, s)) t)
    go none e = rw (add_partition, e) h
    go (some name) e =
        rw (add_partition, e)
          (if_elim Fits (ltb (length t) 16) _ _
            (λ r. (
              ground (arith, r, length-append t (record { name = name; number = n } ∷ [])),
              All-append (λ (part : MtdPart). length part.name < 16) t _ h.1
                  (ground (arith, unquoted-length s name e, k), tt),
            ))
            (λ r. h))

scan_lines-Fits :
    (start : Bool) (s : Bytes) (t : List MtdPart) → Fits t → Fits (scan_lines start s t)
unfolding scan_lines
scan_lines-Fits start [] t h = h
scan_lines-Fits start (c ∷ s) t h = scan_lines-Fits (c == b'\n') s _ (
    if_elim Fits start _ _
      (λ e. add_partition-Fits (scan_line (c ∷ s)) t (scan_line-NameFits (c ∷ s)) h) (λ e. h))

-- Whatever /proc/mtd holds, the table that `find_mtd_partitions` makes of it fits into its array, and
-- each name into its bytes.
pub find_mtd_partitions-Fits : (text : Option Bytes) → Fits (find_mtd_partitions text)
unfolding find_mtd_partitions
find_mtd_partitions-Fits none = (omega arith, tt)
find_mtd_partitions-Fits (some buf) = scan_lines-Fits true (take 1023 buf) [] (omega arith, tt)
