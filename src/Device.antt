-- ===== src/Device.antt =====
-- Device events of system/core/init/devices.c: the message from the kernel, and the names in it.
pub mod Rules
pub mod Platform
pub mod Links
pub mod Node
pub mod Events
pub mod Firmware
pub mod Message
pub mod Lines
mod Tests
use asl.Base.{
  ℕ, ◌≡◌, Bool, true, false, ◌||◌, Option, none, some, List, [], ◌∷◌, ◌++◌, ◌==◌, ◌-◌, leb, ltb,
  if◌then◌else◌, length, drop,
}
use asl.Base.Text.{Bytes, codes, starts_with}
use asl.Number.{word, atoi}
use asl.Util.{split_at_last}

-- `struct uevent`
pub record Uevent : Type 0 where
  pub action : Bytes
  pub path : Bytes
  pub subsystem : Bytes
  pub firmware : Bytes
  pub partition_name : Option Bytes
  pub device_name : Option Bytes
  pub partition_num : ℕ
  pub major : ℕ
  pub minor : ℕ

-- Whether the pattern of an `int` is below 0.
abbrev pub is_negative : ℕ → Bool
is_negative v = leb 2147483648 v

abbrev pub new_uevent : Uevent
new_uevent = record {
  action = [];
  path = [];
  subsystem = [];
  firmware = [];
  partition_name = none;
  device_name = none;
  partition_num = word - 1;
  major = word - 1;
  minor = word - 1;
}

-- The branches on one string of the message.
unfoldable pub parse_string : Bytes → Uevent → Uevent
parse_string msg uevent =
    if starts_with (codes "ACTION=") msg
    then record uevent { action = drop 7 msg }
    else if starts_with (codes "DEVPATH=") msg
    then record uevent { path = drop 8 msg }
    else if starts_with (codes "SUBSYSTEM=") msg
    then record uevent { subsystem = drop 10 msg }
    else if starts_with (codes "FIRMWARE=") msg
    then record uevent { firmware = drop 9 msg }
    else if starts_with (codes "MAJOR=") msg
    then record uevent { major = atoi (drop 6 msg) }
    else if starts_with (codes "MINOR=") msg
    then record uevent { minor = atoi (drop 6 msg) }
    else if starts_with (codes "PARTN=") msg
    then record uevent { partition_num = atoi (drop 6 msg) }
    else if starts_with (codes "PARTNAME=") msg
    then record uevent { partition_name = some (drop 9 msg) }
    else if starts_with (codes "DEVNAME=") msg
    then record uevent { device_name = some (drop 8 msg) }
    else uevent

-- The rest of the strings, unless the one that ends here is empty.
abbrev pub unless_empty : Bytes → List Bytes → List Bytes
unless_empty [] rest = []
unless_empty (c ∷ cs) rest = (c ∷ cs) ∷ rest

-- The strings of the message up to an empty one, with the start of the next; two 0 bytes stand
-- behind the message.
unfoldable pub strings : Bytes → Bytes → List Bytes
strings start [] = unless_empty start []
strings start (c ∷ msg) =
    let rest = strings (if c == 0 then [] else start ++ c ∷ []) msg in
    if c == 0 then unless_empty start rest else rest

abbrev pub parse_strings : List Bytes → Uevent → Uevent
parse_strings [] uevent = uevent
parse_strings (s ∷ ss) uevent = parse_strings ss (parse_string s uevent)

unfoldable pub parse_event : Bytes → Uevent
unfolding strings parse_string
parse_event msg = parse_strings (strings [] msg) new_uevent

-- The last part of the path, for a device with numbers.
unfoldable pub parse_device_name : Uevent → ℕ → Option Bytes
unfolding split_at_last
parse_device_name uevent len =
    if is_negative uevent.major || is_negative uevent.minor
    then none
    else elim (split_at_last b'/' uevent.path) [
      | none ↦ none
      | some (dir, name) ↦ if ltb len (length name) then none else some name
    ]
