-- ===== src/Logo/Tests.antt =====
-- A logo on a small frame buffer.
use asl.Base.{◌≡◌, refl, true, false, some, List, [], ◌∷◌, arith}
use asl.Logo.{Screen, Answers, decode, android_memset16, load_565rle_image}
use asl.Logo.Image.{
  Run, encode, IsSafe, left_mode, load_565rle_image-encode, load_565rle_image-IsSafe,
}

abbrev screen : Screen
screen = record { graphics = false; bits = 7 ∷ 7 ∷ 7 ∷ 7 ∷ 7 ∷ 7 ∷ []; file_there = true }

abbrev logo : List Run
logo = (2, 63488) ∷ (3, 31) ∷ []

load_565rle_image-encode_example :
    load_565rle_image
      (record {
        graphics_ok = true;
        text_ok = true;
        file = some (encode logo);
        stat_ok = true;
        mmap_ok = true;
        frame = some (3, 2);
      })
      screen
    ≡ (
      record { graphics = true; bits = 63488 ∷ 63488 ∷ 31 ∷ 31 ∷ 31 ∷ 7 ∷ []; file_there = false },
      true,
    )
unfolding android_memset16
load_565rle_image-encode_example =
    load_565rle_image-encode logo 3 2 true screen
      ((omega arith, omega arith), ((omega arith, omega arith), tt)) (omega arith) (omega arith)

-- A file with a count that is too large.
abbrev large_count : Answers
large_count = record {
  graphics_ok = true;
  text_ok = true;
  file = some (255 ∷ 255 ∷ 0 ∷ 0 ∷ []);
  stat_ok = true;
  mmap_ok = true;
  frame = some (3, 2);
}

load_565rle_image-IsSafe_example :
    IsSafe screen (left_mode large_count screen) (load_565rle_image large_count screen)
load_565rle_image-IsSafe_example = load_565rle_image-IsSafe large_count screen (omega arith, refl)

-- The loop ends at a count that is too large.
too_large : decode 6 (2 ∷ 0 ∷ 1 ∷ 0 ∷ 5 ∷ 0 ∷ 2 ∷ 0 ∷ []) ≡ 1 ∷ 1 ∷ []
unfolding decode android_memset16
too_large = refl
