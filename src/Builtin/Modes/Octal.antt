-- ===== src/Builtin/Modes/Octal.antt =====
-- The round trip of a mode in base 8.
use asl.Base.{
  ℕ, zero, suc, ◌+◌, ◌-◌, ◌*◌, ◌/◌, ◌%◌, ◌<◌, ◌≡◌, ◌∙◌, Bool, true, false, [], ◌∷◌, ◌++◌, arith,
  leb, ◌&&◌, if◌then◌else◌,
}
use asl.Base.Text.{Bytes}
use asl.Number.{word}
use asl.Builtin.Modes.{mode_digits, get_mode}

-- `digits` digits of a number in base 8.
abbrev pub octal_digits : ℕ → ℕ → Bytes
octal_digits zero n = []
octal_digits (suc digits) n = octal_digits digits (n / 8) ++ (b'0' + n % 8) ∷ []

mode_digits-append :
    (mode n : ℕ) (s : Bytes) (d : ℕ)
    → mode_digits mode s ≡ n
    → n < word / 8
    → d < 8
    → mode_digits mode (s ++ (b'0' + d) ∷ []) ≡ n * 8 + d
unfolding mode_digits
mode_digits-append mode n [] d e h k = ground (arith, e, h, k)
mode_digits-append mode n (c ∷ s) d e h k =
    go (leb b'0' c && leb c b'7') (mode_digits-append next n s d) e
  where
    next : ℕ
    next = (mode * 8) % word + (c - b'0')

    go :
        (b : Bool)
        → (mode_digits next s ≡ n
            → n < word / 8
            → d < 8
            → mode_digits next (s ++ (b'0' + d) ∷ []) ≡ n * 8 + d)
        → (if b then mode_digits next s else word - 1) ≡ n
        → (if b then mode_digits next (s ++ (b'0' + d) ∷ []) else word - 1) ≡ n * 8 + d
    go true rest e = rest e h k
    go false rest e = absurd (omega (arith, e, h))

-- The number has no more digits than these.
Short : ℕ → ℕ → Type 0
Short zero n = n ≡ 0
Short (suc digits) n = Short digits (n / 8)

mode_digits-octal :
    (digits n : ℕ) → Short digits n → n < word → mode_digits 0 (octal_digits digits n) ≡ n
unfolding mode_digits Short
mode_digits-octal zero n h k = omega (arith, h)
mode_digits-octal (suc digits) n h k =
    mode_digits-append 0 (n / 8) (octal_digits digits (n / 8)) (n % 8)
      (mode_digits-octal digits (n / 8) h (omega (arith, k))) (omega (arith, k)) (omega arith)
    ∙ omega arith

-- `get_mode` reads the mode of a file from its four digits in base 8.
pub get_mode-octal : (n : ℕ) → n < 4096 → get_mode (octal_digits 4 n) ≡ n
unfolding get_mode Short
get_mode-octal n h = mode_digits-octal 4 n (omega (arith, h)) (omega (arith, h))
