-- ===== src/Logo/Image.antt =====
-- What the boot logo shows, and that it stays within the frame buffer.
use asl.Base.{
  ◌⊎◌, inl, inr, not, Bool-cases, if◌then◌else◌, ℕ, zero, suc, ◌+◌, ◌-◌, ◌*◌, ◌/◌, ◌%◌, ◌^◌, ◌<◌,
  ◌≤◌, ◌≡◌, refl, ap, ◌∙◌, Bool, true, false, Option, none, some, List, [], ◌∷◌, ◌++◌, arith, ltb,
  if_elim, length, length-append, drop, All, Holds,
}
use asl.Base.Text.{Bytes}
use asl.Logo.{
  android_memset16, half_word, decode, Screen, Answers, graphic, draw, restore_text, show_image,
  load_file, load_565rle_image,
}

memset16-length : (val n : ℕ) → length (android_memset16 val n) ≡ n
unfolding android_memset16
memset16-length val zero = refl
memset16-length val (suc n) = ap suc (memset16-length val n)

decode_bound : (max : ℕ) (ptr : Bytes) → length (decode max ptr) ≤ max
unfolding decode
decode_bound max [] = omega arith
decode_bound max (a ∷ []) = omega arith
decode_bound max (a ∷ b ∷ []) = omega arith
decode_bound max (a ∷ b ∷ c ∷ []) = omega arith
decode_bound max (a ∷ b ∷ c ∷ d ∷ ptr) =
    if_elim (λ (l : List ℕ). length l ≤ max) (ltb max (half_word a b)) _ _ (λ e. omega arith)
      (λ e. ground (
        arith,
        e,
        length-append (android_memset16 (half_word c d) (half_word a b))
            (decode (max - half_word a b) ptr),
        memset16-length (half_word c d) (half_word a b),
        decode_bound (max - half_word a b) ptr,
      ))

-- An image as it is meant: runs of elements with their colours.
abbrev pub Run : Type 0
Run = ℕ × ℕ

abbrev pub IsRun : Run → Type 0
IsRun (n, colour) = (n < 2 ^ 16) × (colour < 2 ^ 16)

abbrev pub pixels : List Run → List ℕ
pixels [] = []
pixels ((n, colour) ∷ runs) = android_memset16 colour n ++ pixels runs

-- The format: the count and the colour, two bytes each.
abbrev pub encode : List Run → Bytes
encode [] = []
encode ((n, colour) ∷ runs) =
    n % 256 ∷ (n / 256) % 256 ∷ colour % 256 ∷ (colour / 256) % 256 ∷ encode runs

half_word_bytes : (n : ℕ) → n < 2 ^ 16 → half_word (n % 256) ((n / 256) % 256) ≡ n
half_word_bytes n h = omega (arith, h)

decode-encode :
    (max : ℕ) (runs : List Run)
    → All IsRun runs
    → length (pixels runs) ≤ max
    → decode max (encode runs) ≡ pixels runs
unfolding decode
decode-encode max [] r h = refl
decode-encode max ((n, colour) ∷ runs) ((small, dark), r) h =
    rw (half_word_bytes n small, half_word_bytes colour dark)
      (if_elim (λ (l : List ℕ). l ≡ android_memset16 colour n ++ pixels runs) (ltb max n) _ _
        (λ e. absurd (ground (arith, e, h, lengths)))
        (λ e.
          ap (λ l. android_memset16 colour n ++ l)
            (decode-encode (max - n) runs r (ground (arith, e, h, lengths)))))
  where
    lengths : length (android_memset16 colour n ++ pixels runs) ≡ n + length (pixels runs)
    lengths =
        length-append (android_memset16 colour n) (pixels runs)
        ∙ ap (λ k. k + length (pixels runs)) (memset16-length colour n)

-- If the system calls succeed and the file holds an image in the format, whose runs have counts and
-- colours of 16 bits and fit into the frame buffer, then the frame buffer shows its elements, the rest
-- of it is as before, the file is removed, and the result is 0.
pub load_565rle_image-encode :
    (runs : List Run) (xres yres : ℕ) (text_ok : Bool) (s : Screen)
    → All IsRun runs
    → xres * yres < 2 ^ 32
    → length (pixels runs) ≤ xres * yres
    → load_565rle_image
        (record {
          graphics_ok = true;
          text_ok = text_ok;
          file = some (encode runs);
          stat_ok = true;
          mmap_ok = true;
          frame = some (xres, yres);
        })
        s
      ≡ (
        record {
          graphics = true;
          bits = pixels runs ++ drop (length (pixels runs)) s.bits;
          file_there = false;
        },
        true,
      )
unfolding load_565rle_image
load_565rle_image-encode runs xres yres text_ok s r small fits =
    let max : (xres * yres) % 2 ^ 32 ≡ xres * yres = omega (arith, small) in
    rw (max, decode-encode (xres * yres) runs r fits) refl

drop-length {ℓ} : {A : Type ℓ} (n : ℕ) (xs : List A) → length (drop n xs) ≡ length xs - n
drop-length zero xs = omega arith
drop-length (suc n) [] = omega arith
drop-length (suc n) (x ∷ xs) = omega (arith, drop-length n xs)

draw-length :
    (written : List ℕ) (s : Screen)
    → length written ≤ length s.bits
    → length (draw written s).bits ≡ length s.bits
draw-length written s h =
    length-append written (drop (length written) s.bits)
    ∙ omega (arith, h, drop-length (length written) s.bits)

-- The frame buffer has the size that it tells, and that size in bytes has 32 bits.
abbrev pub IsSized : Screen → ℕ × ℕ → Type 0
IsSized s (xres, yres) = (xres * yres * 2 < 2 ^ 32) × (length s.bits ≡ xres * yres)

-- The frame buffer keeps its size, and a failure changes nothing but the mode of the console.
abbrev pub IsSafe : Screen → Bool → Screen × Bool → Type 0
IsSafe s mode (s', shown) =
    (length s'.bits ≡ length s.bits) × ((shown ≡ true) ⊎ (s' ≡ record s { graphics = mode }))

-- The mode that a failure leaves: the text mode if the console can be set back to it, and the old one
-- if it could not be set in the first place.
abbrev pub left_mode : Answers → Screen → Bool
left_mode ans s = if ans.graphics_ok then not ans.text_ok else s.graphics

module _ (ans : Answers) (s : Screen) where
  restored : IsSafe s (not ans.text_ok) (restore_text ans (graphic s))
  restored = elim (Bool-cases ans.text_ok) [
    | inl e ↦ rw e (refl, inr refl)
    | inr e ↦ rw e (refl, inr refl)
  ]

  shown :
      (content : Bytes) (frame : Option (ℕ × ℕ))
      → Holds (IsSized s) frame
      → IsSafe s (not ans.text_ok) (show_image ans content frame (graphic s))
  shown content none sized = restored
  shown content (some (xres, yres)) (small, size) = (
    draw-length (decode ((xres * yres) % 2 ^ 32) content) s
        (omega (arith, size, small, decode_bound ((xres * yres) % 2 ^ 32) content)),
    inl refl,
  )

  loaded :
      (file : Option Bytes)
      → Holds (IsSized s) ans.frame
      → IsSafe s (not ans.text_ok) (load_file ans file (graphic s))
  loaded none sized = restored
  loaded (some content) sized =
      if_elim (IsSafe s (not ans.text_ok)) ans.stat_ok _ _
        (λ e.
          if_elim (IsSafe s (not ans.text_ok)) ans.mmap_ok _ _ (λ e. shown content ans.frame sized)
            (λ e. restored))
        (λ e. restored)

  -- Whatever the file holds and the system calls answer, if the frame buffer has the size that it tells
  -- and that size in bytes is below 2 ^ 32, no element is written behind its end. If the function fails,
  -- then the elements are as they were and the file is kept; the console is in text mode if setting it
  -- back succeeds, and in the mode that it had if it could not be set to graphics.
  pub load_565rle_image-IsSafe :
      Holds (IsSized s) ans.frame → IsSafe s (left_mode ans s) (load_565rle_image ans s)
  unfolding load_565rle_image
  load_565rle_image-IsSafe sized = elim (Bool-cases ans.graphics_ok) [
    | inl e ↦ rw e (loaded ans.file sized)
    | inr e ↦ rw e (refl, inr refl)
  ]
