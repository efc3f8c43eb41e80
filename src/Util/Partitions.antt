-- ===== src/Util/Partitions.antt =====
-- What `sscanf` reads from a line of /proc/mtd.
use asl.Base.{
  ℕ, zero, suc, ◌+◌, ◌*◌, ◌^◌, ◌<◌, ◌≤◌, ◌≡◌, ◌≢◌, refl, ◌∙◌, false, Option, none, some, List, [],
  ◌∷◌, ◌++◌, arith, ◌==◌, ◌&&◌, if◌then◌else◌, if_elim, ap, All, length, ◌||◌,
}
use asl.Base.Text.{Bytes, codes, is_space, split_at}
use asl.Number.{digit, skip_space}
use asl.Util.Mtd.{
  without_0x, MtdPart, scan_digits, scan_number, scan_signed, scan_line, scan_word, scan_literal,
  scan_x, scan_d, stored,
}

abbrev pub IsDigits : ℕ → Bytes → Type 0
IsDigits base = All (λ c. digit c < base)

-- The number that the digits behind `acc` are.
abbrev pub value : ℕ → ℕ → Bytes → ℕ
value base acc [] = acc
value base acc (c ∷ cs) = value base (acc * base + digit c) cs

-- A line of /proc/mtd: the digits of the three numbers, and the name.
pub record Line : Type 0 where
  pub number : Bytes
  pub size : Bytes
  pub erasesize : Bytes
  pub name : Bytes

-- The line, and what stands behind it.
abbrev pub print_line : Line → Bytes → Bytes
print_line l rest =
    codes "mtd"
    ++ (l.number
        ++ b':'
          ∷ b' '
          ∷ (l.size ++ b' ' ∷ (l.erasesize ++ b' ' ∷ b'"' ∷ (l.name ++ b'"' ∷ b'\n' ∷ rest))))

abbrev pub print_lines : List Line → Bytes
print_lines [] = []
print_lines (l ∷ ls) = print_line l (print_lines ls)

pub record IsLine (l : Line) : Type 0 where
  pub number_digits : IsDigits 10 l.number
  pub number_fits : value 10 0 l.number < 2 ^ 31
  pub size_digits : IsDigits 16 l.size
  pub erasesize_digits : IsDigits 16 l.erasesize
  pub nonempty : (l.number ≢ []) × (l.size ≢ []) × (l.erasesize ≢ [])
  pub name_plain : All (λ c. (is_space c ≡ false) × (c ≢ b'"')) l.name
  pub name_fits : length l.name ≤ 14

abbrev pub part_of : Line → MtdPart
part_of l = record { name = l.name; number = value 10 0 l.number }

scan_digits-value :
    (base acc : ℕ) (ds : Bytes) (c : ℕ) (rest : Bytes)
    → IsDigits base ds
    → base ≤ digit c
    → scan_digits base acc (ds ++ c ∷ rest) ≡ (value base acc ds, c ∷ rest)
unfolding scan_digits
scan_digits-value base acc [] c rest h k = ground (arith, k)
scan_digits-value base acc (d ∷ ds) c rest h k =
    ground (arith, h.0, scan_digits-value base (acc * base + digit d) ds c rest h.1 k)

pub record IsHead (d : ℕ) : Type 0 where
  pub no_space : is_space d ≡ false
  pub no_minus : (d == b'-') ≡ false
  pub no_plus : (d == b'+') ≡ false
  pub no_x : (d == b'x' || d == b'X') ≡ false

digit-IsHead : (d : ℕ) → digit d < 16 → IsHead d
digit-IsHead d h = record {
  no_space = ground arith;
  no_minus = ground arith;
  no_plus = ground arith;
  no_x = ground arith;
}

kept_0x :
    (d e : ℕ) (s : Bytes) → (e == b'x' || e == b'X') ≡ false → without_0x (d ∷ e ∷ s) ≡ d ∷ e ∷ s
kept_0x d e s h =
    if_elim (λ r. r ≡ d ∷ e ∷ s) (d == b'0' && (e == b'x' || e == b'X')) s (d ∷ e ∷ s)
      (λ k. absurd (ground (arith, h, k))) (λ k. refl)

-- Digits, and a byte behind them that is no letter or digit, do not begin with 0x.
no_0x :
    (d : ℕ) (ds : Bytes) (c : ℕ) (rest : Bytes)
    → IsDigits 16 ds
    → 36 ≤ digit c
    → without_0x (d ∷ (ds ++ c ∷ rest)) ≡ d ∷ (ds ++ c ∷ rest)
no_0x d [] c rest h k = kept_0x d c rest (ground (arith, k))
no_0x d (e ∷ ds) c rest h k = kept_0x d e (ds ++ c ∷ rest) (digit-IsHead e h.0).no_x

pub weaken : (ds : Bytes) → IsDigits 10 ds → IsDigits 16 ds
weaken [] h = tt
weaken (d ∷ ds) h = (omega (arith, h.0), weaken ds h.1)

scan_number-value :
    (base d : ℕ) (ds : Bytes) (c : ℕ) (rest : Bytes)
    → IsDigits base (d ∷ ds)
    → base ≤ digit c
    → scan_number base (d ∷ (ds ++ c ∷ rest)) ≡ some (value base 0 (d ∷ ds), c ∷ rest)
unfolding scan_number
scan_number-value base d ds c rest h k =
    rw (scan_digits-value base 0 (d ∷ ds) c rest h k) (ground (arith, h.0))

scan_signed-unsigned :
    (base d : ℕ) (s : Bytes)
    → IsHead d
    → scan_signed base (skip_space (d ∷ s))
      ≡ scan_number base (if base == 16 then without_0x (d ∷ s) else d ∷ s)
unfolding scan_signed
scan_signed-unsigned base d s h = rw (h.no_space, h.no_minus, h.no_plus) refl

scan_d-value :
    (ds : Bytes) (c : ℕ) (rest : Bytes)
    → IsDigits 10 ds
    → ds ≢ []
    → value 10 0 ds < 2 ^ 31
    → 36 ≤ digit c
    → scan_d (ds ++ c ∷ rest) ≡ some (value 10 0 ds, c ∷ rest)
scan_d-value [] c rest h ne small k = absurd (ne refl)
scan_d-value (d ∷ ds) c rest h ne small k =
    ap stored (
      scan_signed-unsigned 10 d (ds ++ c ∷ rest) (digit-IsHead d (omega (arith, h.0)))
      ∙ scan_number-value 10 d ds c rest h (omega arith))
    ∙ ap (λ v. some (v, c ∷ rest)) (omega (arith, small))

scan_x-value :
    (ds : Bytes) (c : ℕ) (rest : Bytes)
    → IsDigits 16 ds
    → ds ≢ []
    → 36 ≤ digit c
    → scan_x (b' ' ∷ (ds ++ c ∷ rest)) ≡ some (value 16 0 ds, c ∷ rest)
scan_x-value [] c rest h ne k = absurd (ne refl)
scan_x-value (d ∷ ds) c rest h ne k =
    scan_signed-unsigned 16 d (ds ++ c ∷ rest) (digit-IsHead d h.0)
    ∙ ap (scan_number 16) (no_0x d ds c rest h.1 k)
    ∙ scan_number-value 16 d ds c rest h (omega arith)

-- The name in its quotes, as far as there is room for it.
abbrev pub cut : Bytes → Bytes
cut s = elim (split_at b'"' s) [ none ↦ s | some (name, rest) ↦ name ]

cut-byte : (c : ℕ) (s : Bytes) → c ≢ b'"' → cut (c ∷ s) ≡ c ∷ cut s
unfolding split_at
cut-byte c s h = go (split_at b'"' s) refl
  where
    go : (o : Option (Bytes × Bytes)) → split_at b'"' s ≡ o → cut (c ∷ s) ≡ c ∷ cut s
    go none e = ground (arith, h, e)
    go (some p) e = ground (arith, h, e)

scan_word-byte :
    (room c : ℕ) (s : Bytes)
    → is_space c ≡ false
    → scan_word (suc room) (c ∷ s) ≡ c ∷ scan_word room s
unfolding scan_word
scan_word-byte room c s h = rw (no_room, h) (ap (λ r. c ∷ scan_word r s) (omega arith))
  where
    no_room : (suc room == 0) ≡ false
    no_room = ground arith

pub cut-scan_word :
    (room : ℕ) (name rest : Bytes)
    → All (λ c. (is_space c ≡ false) × (c ≢ b'"')) name
    → length name ≤ room
    → cut (scan_word room (name ++ b'"' ∷ b'\n' ∷ rest)) ≡ name
unfolding scan_word split_at
cut-scan_word zero [] rest h k = refl
cut-scan_word (suc room) [] rest h k = rw (scan_word-byte room b'"' (b'\n' ∷ rest) refl) refl
cut-scan_word zero (c ∷ name) rest h k = absurd (ground arith)
cut-scan_word (suc room) (c ∷ name) rest h k =
    ap cut (scan_word-byte room c (name ++ b'"' ∷ b'\n' ∷ rest) h.0.0)
    ∙ cut-byte c _ h.0.1
    ∙ ap (λ s. c ∷ s) (cut-scan_word room name rest h.1 (omega (arith, k)))

pub scan_line-print :
    (l : Line) (rest : Bytes)
    → IsLine l
    → scan_line (print_line l rest)
      ≡ some (value 10 0 l.number, b'"' ∷ scan_word 14 (l.name ++ b'"' ∷ b'\n' ∷ rest))
unfolding scan_line scan_literal scan_word
scan_line-print l rest h =
    rw
      (scan_d-value l.number b':' (b' ' ∷ sizes) h.number_digits h.nonempty.0 h.number_fits
        (omega arith))
      (rw
        (scan_x-value l.size b' ' (l.erasesize ++ b' ' ∷ name) h.size_digits h.nonempty.1
          (omega arith))
        (rw (scan_x-value l.erasesize b' ' name h.erasesize_digits h.nonempty.2 (omega arith))
          refl))
  where
    name : Bytes
    name = b'"' ∷ (l.name ++ b'"' ∷ b'\n' ∷ rest)

    sizes : Bytes
    sizes = l.size ++ b' ' ∷ (l.erasesize ++ b' ' ∷ name)
