-- ===== src/Logo.antt =====
-- The boot logo of system/core/init/logo.c.
pub mod Image
mod Tests
use asl.Base.{
  ℕ, zero, suc, ◌+◌, ◌-◌, ◌*◌, ◌%◌, ◌^◌, Bool, true, false, Option, none, some, List, [], ◌∷◌, ◌++◌,
  ltb, if◌then◌else◌, length, drop,
}
use asl.Base.Text.{Bytes}

-- `count` is the number of bytes, two for each element.
unfoldable pub android_memset16 : ℕ → ℕ → List ℕ
android_memset16 val zero = []
android_memset16 val (suc count) = val ∷ android_memset16 val count

-- `ptr[0]` of an array of `unsigned short` on a machine that is little endian.
abbrev pub half_word : ℕ → ℕ → ℕ
half_word low high = low + 256 * high

-- The loop of `load_565rle_image`: the elements that it writes from `bits` on, where `max` is left.
unfoldable pub decode : ℕ → Bytes → List ℕ
decode max (a ∷ b ∷ c ∷ d ∷ ptr) =
    let n = half_word a b in
    let rest = decode (max - n) ptr in
    if ltb max n then [] else android_memset16 (half_word c d) n ++ rest
decode max _ = []

-- The console and the frame buffer, and whether the file is there.
pub record Screen : Type 0 where
  pub graphics : Bool
  pub bits : List ℕ
  pub file_there : Bool

-- What the system calls answer: whether `vt_set_mode(1)` and `vt_set_mode(0)` succeed, the bytes of
-- the file if it can be opened, whether `fstat` and `mmap` succeed on it, and `xres` and `yres` of
-- the frame buffer if `fb_open` succeeds.
pub record Answers : Type 0 where
  pub graphics_ok : Bool
  pub text_ok : Bool
  pub file : Option Bytes
  pub stat_ok : Bool
  pub mmap_ok : Bool
  pub frame : Option (ℕ × ℕ)

-- What `vt_set_mode(1)` does.
abbrev pub graphic : Screen → Screen
graphic s = record s { graphics = true }

-- `fail_restore_text`
abbrev pub restore_text : Answers → Screen → Screen × Bool
restore_text ans s = (if ans.text_ok then record s { graphics = false } else s, false)

-- The elements that are written replace those that were there.
abbrev pub draw : List ℕ → Screen → Screen
draw pixels s = record s { bits = pixels ++ drop (length pixels) s.bits }

abbrev pub show_image : Answers → Bytes → Option (ℕ × ℕ) → Screen → Screen × Bool
show_image ans content none s = restore_text ans s
show_image ans content (some (xres, yres)) s =
    (record (draw (decode ((xres * yres) % 2 ^ 32) content) s) { file_there = false }, true)

abbrev pub load_file : Answers → Option Bytes → Screen → Screen × Bool
load_file ans none s = restore_text ans s
load_file ans (some content) s =
    if ans.stat_ok
    then (if ans.mmap_ok then show_image ans content ans.frame s else restore_text ans s)
    else restore_text ans s

-- The result is `true` for 0.
unfoldable pub load_565rle_image : Answers → Screen → Screen × Bool
load_565rle_image ans s = if ans.graphics_ok then load_file ans ans.file (graphic s) else (s, false)
