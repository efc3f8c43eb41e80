-- ===== src/Number.antt =====
-- The functions of the C standard library that read numbers, for 32-bit `long` and `int`, and
-- `decode_uid` of system/core/init/util.c. A number of the C program is its 32-bit pattern.
use asl.Base.{
  ℕ, zero, suc, ◌/◌, ◌++◌, ◌+◌, ◌-◌, ◌*◌, ◌%◌, Bool, true, false, ◌&&◌, ◌||◌, List, [], ◌∷◌, ◌==◌,
  leb, ltb, if◌then◌else◌,
}
use asl.Base.Text.{Bytes, str_eq, is_digit, is_alpha, is_space}

-- The value of a digit in the bases up to 36, and 36 for any other byte.
abbrev pub digit : ℕ → ℕ
digit c =
    if is_digit c
    then c - b'0'
    else if leb b'a' c && leb c b'z'
    then c - b'a' + 10
    else if leb b'A' c && leb c b'Z'
    then c - b'A' + 10
    else 36

-- The digits at the start of the string, behind `acc`.
digits : ℕ → ℕ → Bytes → ℕ
digits base acc [] = acc
digits base acc (c ∷ cs) =
    let rest = digits base (acc * base + digit c) cs in if ltb (digit c) base then rest else acc

abbrev pub skip_space : Bytes → Bytes
skip_space [] = []
skip_space (c ∷ cs) = let rest = skip_space cs in if is_space c then rest else c ∷ cs

-- Whether there is a minus sign, and what stands behind a sign.
abbrev pub sign : Bytes → Bool × Bytes
sign [] = (false, [])
sign (c ∷ cs) = if c == b'-' then (true, cs) else if c == b'+' then (false, cs) else (false, c ∷ cs)

-- The value of the digits in base 0, which is 16, 8 or 10 by the first bytes.
any_base : Bytes → ℕ
unfolding digits
any_base [] = 0
any_base (c ∷ []) = digits 10 0 (c ∷ [])
any_base (c ∷ d ∷ cs) =
    if c == b'0' && (d == b'x' || d == b'X')
    then digits 16 0 cs
    else if c == b'0'
    then digits 8 0 (d ∷ cs)
    else digits 10 0 (c ∷ d ∷ cs)

-- The value of the digits in base 16, with or without the 0x.
hexadecimal : Bytes → ℕ
unfolding digits
hexadecimal [] = 0
hexadecimal (c ∷ []) = digits 16 0 (c ∷ [])
hexadecimal (c ∷ d ∷ cs) =
    digits 16 0 (if c == b'0' && (d == b'x' || d == b'X') then cs else c ∷ d ∷ cs)

abbrev magnitude : ℕ → Bytes → ℕ
unfolding digits any_base hexadecimal
magnitude base s =
    if base == 0 then any_base s else if base == 16 then hexadecimal s else digits base 0 s

-- 2 ^ 32 and 2 ^ 31
abbrev pub word : ℕ
word = 4294967296

abbrev half_word : ℕ
half_word = 2147483648

abbrev unsigned_long : Bool → ℕ → ℕ × Bool
unsigned_long negative v =
    if leb word v
    then (word - 1, true)
    else (if negative then ((word - v) % word, false) else (v, false))

-- `strtoul(s, 0, base)` for the bases 0, 8, 10 and 16, and whether it sets `errno`.
unfoldable pub strtoul : ℕ → Bytes → ℕ × Bool
unfolding magnitude
strtoul base s = let p = sign (skip_space s) in unsigned_long p.0 (magnitude base p.1)

abbrev pub signed_int : Bool → ℕ → ℕ
signed_int negative v =
    if negative
    then (if leb half_word v then half_word else (word - v) % word)
    else if leb half_word v
    then half_word - 1
    else v

-- `atoi(s)`, which is `strtol` in base 10.
unfoldable pub atoi : Bytes → ℕ
unfolding magnitude
atoi s = let p = sign (skip_space s) in signed_int p.0 (magnitude 10 p.1)

-- `struct android_id_info`; the table `android_ids` is the platform's.
pub record AndroidIdInfo : Type 0 where
  pub name : Bytes
  pub aid : ℕ

-- `-1U`
abbrev pub no_id : ℕ
no_id = word - 1

android_name_to_id : List AndroidIdInfo → Bytes → ℕ
android_name_to_id [] name = no_id
android_name_to_id (info ∷ infos) name =
    let rest = android_name_to_id infos name in if str_eq info.name name then info.aid else rest

unfoldable pub decode_uid : List AndroidIdInfo → Bytes → ℕ
unfolding android_name_to_id strtoul
decode_uid android_ids [] = no_id
decode_uid android_ids (c ∷ cs) =
    if is_alpha c
    then android_name_to_id android_ids (c ∷ cs)
    else (let v = strtoul 0 (c ∷ cs) in if v.1 then no_id else v.0)

-- `%d` of a number that is not negative; 32 bits have no more than 10 digits.
abbrev decimal_digits : ℕ → ℕ → Bytes
decimal_digits zero n = []
decimal_digits (suc fuel) n =
    let high = decimal_digits fuel (n / 10) in
    (if ltb n 10 then [] else high) ++ (n % 10 + b'0') ∷ []

abbrev pub decimal : ℕ → Bytes
decimal n = decimal_digits 10 n

-- `%03d`
abbrev pub decimal3 : ℕ → Bytes
decimal3 n = elim (decimal n) [
  | a ∷ [] ↦ b'0' ∷ b'0' ∷ a ∷ []
  | a ∷ b ∷ [] ↦ b'0' ∷ a ∷ b ∷ []
  | ds ↦ ds
]

-- `%d` of the pattern of an `int`.
abbrev pub decimal_int : ℕ → Bytes
decimal_int v = if leb half_word v then b'-' ∷ decimal (word - v) else decimal v
