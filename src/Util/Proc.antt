-- ===== src/Util/Proc.antt =====
-- Files that util.c reads: `read_file`, `get_hardware_name`, `import_kernel_cmdline` and the table of
-- mtd partitions.
use asl.Base.{
  ℕ, ◌+◌, ◌-◌, ◌/◌, ◌%◌, Bool, ◌&&◌, ◌||◌, not, Option, none, some, List, [], ◌∷◌, ◌++◌, ◌==◌, leb,
  if◌then◌else◌, take, drop,
}
use asl.Base.Text.{Bytes, codes, starts_with, is_space}
use asl.Number.{strtoul}

-- What `fstat` and `read` tell of a file.
pub record Stored : Type 0 where
  pub st_mode : ℕ
  pub content : Bytes

-- `(mode & (S_IWGRP | S_IWOTH)) != 0`; the bits are 020 and 002.
abbrev pub group_or_world_writable : ℕ → Bool
group_or_world_writable mode = not ((mode / 16) % 2 == 0 && (mode / 2) % 2 == 0)

-- The text of an open file, unless others than its owner may write to it.
abbrev pub read_safely : Option Stored → Option Bytes
read_safely none = none
read_safely (some sb) =
    if group_or_world_writable sb.st_mode then none else some (sb.content ++ b'\n' ∷ [])

-- The files by their names; a file that cannot be opened is none.
unfoldable pub read_file : (Bytes → Option Stored) → Bytes → Option Bytes
read_file files fn = read_safely (files fn)

-- `strstr(s, needle)` for a needle that is not empty.
unfoldable pub strstr : Bytes → Bytes → Option Bytes
strstr needle [] = none
strstr needle (c ∷ cs) =
    let rest = strstr needle cs in if starts_with needle (c ∷ cs) then some (c ∷ cs) else rest

abbrev pub tolower : ℕ → ℕ
tolower c = if leb b'A' c && leb c b'Z' then c + 32 else c

-- The loop over the bytes of the value, with the room that is left.
unfoldable pub hardware_bytes : ℕ → Bytes → Bytes
hardware_bytes room [] = []
hardware_bytes room (c ∷ x) =
    let rest = hardware_bytes (if is_space c then room else room - 1) x in
    if room == 0 || c == b'\n' then [] else if is_space c then rest else tolower c ∷ rest

-- `hardware` and `*revision`
pub record Hardware : Type 0 where
  pub hardware : Bytes
  pub revision : ℕ

-- The value behind a colon and a blank.
abbrev pub value_of : Option Bytes → Option Bytes
unfolding strstr
value_of none = none
value_of (some line) = elim (strstr (codes ": ") line) [ none ↦ none | some x ↦ some (drop 2 x) ]

-- `hardware` is given on the kernel command line unless it is empty.
unfoldable pub set_hardware : Option Bytes → Hardware → Hardware
unfolding hardware_bytes
set_hardware none hw = hw
set_hardware (some x) hw = elim hw.hardware [
  | [] ↦ record hw { hardware = hardware_bytes 31 x }
  | c ∷ cs ↦ hw
]

unfoldable pub set_revision : Option Bytes → Hardware → Hardware
unfolding strtoul
set_revision none hw = hw
set_revision (some x) hw = record hw { revision = (strtoul 16 x).0 }

-- The text of /proc/cpuinfo, or none where it cannot be opened or read; it holds no 0.
unfoldable pub get_hardware_name : Option Bytes → Hardware → Hardware
unfolding strstr set_hardware set_revision
get_hardware_name none hw = hw
get_hardware_name (some text) hw =
    let read = take 1023 text in
    set_revision (value_of (strstr (codes "\nRevision") read))
      (set_hardware (value_of (strstr (codes "\nHardware") read)) hw)

abbrev pub last_word : Bytes → List Bytes
last_word [] = []
last_word (c ∷ word) = (c ∷ word) ∷ []

-- The words that the loop of `import_kernel_cmdline` passes on, with the start of the next one. The
-- loop ends at an empty rest.
unfoldable pub cmdline_words : Bytes → Bytes → List Bytes
cmdline_words word [] = last_word word
cmdline_words word (c ∷ ptr) =
    let rest = cmdline_words (if c == b' ' then [] else word ++ c ∷ []) ptr in
    if c == b' ' then word ∷ rest else rest

-- The text without its last byte, if that is a newline.
unfoldable pub without_newline : Bytes → Bytes
without_newline [] = []
without_newline (c ∷ []) = if c == b'\n' then [] else c ∷ []
without_newline (c ∷ d ∷ text) = c ∷ without_newline (d ∷ text)

abbrev pub fold_words {ℓ} : {S : Type ℓ} → (Bytes → S → S) → List Bytes → S → S
fold_words import_kernel_nv [] s = s
fold_words import_kernel_nv (word ∷ ws) s = fold_words import_kernel_nv ws (import_kernel_nv word s)

-- The text of /proc/cmdline, or none where it cannot be opened; a failing `read` gives no bytes.
unfoldable pub import_kernel_cmdline {ℓ} : {S : Type ℓ} → Option Bytes → (Bytes → S → S) → S → S
unfolding cmdline_words without_newline
import_kernel_cmdline none import_kernel_nv s = s
import_kernel_cmdline (some text) import_kernel_nv s =
    fold_words import_kernel_nv (cmdline_words [] (without_newline (take 1023 text))) s
