-- ===== src/Device/Firmware.antt =====
-- The loading of firmware: `load_firmware` and `process_firmware_event` of devices.c.
pub mod Sent
use asl.Base.{
  ℕ, zero, suc, ◌-◌, Bool, true, false, Option, none, some, List, [], ◌∷◌, ◌++◌, if◌then◌else◌,
  length, take,
}
use asl.Base.Text.{Bytes, codes}

-- The answers of `write` that are left, the bytes that `data_fd` got, and whether the loop ended
-- without an error.
abbrev pub Sending : Type 0
Sending = List (Option ℕ) × Bytes × Bool

-- The inner loop, with `nr`; an answer of `write` is the number of bytes that it takes, or none for an
-- error. Every `write` starts at `buf`, since `nw` is 0 at its call. The result is none where there are
-- no more answers.
unfoldable pub write_buf : ℕ → Bytes → List (Option ℕ) → Bytes → Option Sending
write_buf zero buf writes sent = some (writes, sent, true)
write_buf (suc nr) buf [] sent = none
write_buf (suc nr) buf (none ∷ writes) sent = some (writes, sent, false)
write_buf (suc nr) buf (some zero ∷ writes) sent = some (writes, sent, false)
write_buf (suc nr) buf (some (suc nw) ∷ writes) sent =
    write_buf (nr - nw) buf writes (sent ++ take (suc nw) buf)

-- The outer loop, with `len_to_copy`; an answer of `read` is the bytes that it gives, or none for an
-- error.
unfoldable pub copy_turns :
    ℕ → List (Option Bytes) → List (Option ℕ) → Bytes → Option (Bytes × Bool)
unfolding write_buf
copy_turns zero reads writes sent = some (sent, true)
copy_turns (suc len) [] writes sent = none
copy_turns (suc len) (none ∷ reads) writes sent = some (sent, false)
copy_turns (suc len) (some [] ∷ reads) writes sent = some (sent, true)
copy_turns (suc len) (some (c ∷ cs) ∷ reads) writes sent =
    elim (write_buf (suc (length cs)) (c ∷ cs) writes sent) [
      | none ↦ none
      | some (left, now, false) ↦ some (now, false)
      | some (left, now, true) ↦ copy_turns (len - length cs) reads left now
    ]

-- What is written to `loading_fd`, what to `data_fd`, and whether the result is 0.
pub record Loading : Type 0 where
  pub loading : List Bytes
  pub sent : Bytes
  pub ret : Bool

abbrev pub finish : Bytes × Bool → Loading
finish (sent, ret) = record {
  loading = codes "1" ∷ (if ret then codes "0" else codes "-1") ∷ [];
  sent = sent;
  ret = ret;
}

-- `st_size` is none where `fstat` fails.
unfoldable pub load_firmware : Option ℕ → List (Option Bytes) → List (Option ℕ) → Option Loading
unfolding copy_turns
load_firmware none reads writes = some (record { loading = []; sent = []; ret = false })
load_firmware (some st_size) reads writes = elim (copy_turns st_size reads writes []) [
  | none ↦ none
  | some r ↦ some (finish r)
]

-- What a turn of `try_loading_again` meets: whether the two files can be opened, and what `is_booting`
-- then says.
pub record Attempt : Type 0 where
  pub file1 : Bool
  pub file2 : Bool
  pub still_booting : Bool

-- `FIRMWARE_DIR1` and `FIRMWARE_DIR2`
abbrev pub firmware_dir1 : Bytes
firmware_dir1 = codes "/etc/firmware"

abbrev pub firmware_dir2 : Bytes
firmware_dir2 = codes "/vendor/firmware"

-- The file that is opened, if any; none where there are no more turns.
unfoldable pub open_firmware : Bytes → Bool → List Attempt → Option (Option Bytes)
open_firmware firmware booting [] = none
open_firmware firmware booting (a ∷ attempts) =
    let again = open_firmware firmware a.still_booting attempts in
    if a.file1
    then some (some (firmware_dir1 ++ b'/' ∷ firmware))
    else if a.file2
    then some (some (firmware_dir2 ++ b'/' ∷ firmware))
    else if booting
    then again
    else some none

abbrev pub given_up : Loading
given_up = record { loading = codes "-1" ∷ []; sent = []; ret = false }

abbrev pub untouched : Loading
untouched = record { loading = []; sent = []; ret = false }

-- `can_open` is for the files loading and data of the device; `load` is `load_firmware` of a file.
unfoldable pub process_firmware_event :
    Bytes → Bool → Bool → List Attempt → (Bytes → Option Loading) → Option Loading
unfolding open_firmware
process_firmware_event firmware can_open booting attempts load =
    let opened = open_firmware firmware booting attempts in
    if can_open
    then elim opened [ none ↦ none | some none ↦ some given_up | some (some file) ↦ load file ]
    else some untouched
