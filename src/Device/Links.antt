-- ===== src/Device/Links.antt =====
-- The links to device nodes, of devices.c: `get_character_device_symlinks` and
-- `parse_platform_block_device`.
use asl.Base.{ℕ, Option, none, some, List, [], ◌∷◌, ◌++◌, if◌then◌else◌, take, drop, ◌>>=◌}
use asl.Base.Text.{Bytes, codes, starts_with, split_at}
use asl.Number.{decimal}
use asl.Util.{split_at_last, sanitize}
use asl.Device.{Uevent, is_negative}
use asl.Device.Rules.{Act, mkdir}
use asl.Device.Platform.{find_platform_device}

abbrev pub platform : Bytes
platform = codes "/devices/platform/"

-- What stands behind the first slash.
abbrev behind_slash : Bytes → Option Bytes
behind_slash s = elim (split_at b'/' s) [ none ↦ none | some (a, b) ↦ some b ]

-- The part up to the next slash, if there is one and the part is not empty.
abbrev part : Bytes → Option Bytes
part s = elim (split_at b'/' s) [
  | none ↦ none
  | some ([], b) ↦ none
  | some (c ∷ cs, b) ↦ some (c ∷ cs)
]

-- The interface in what stands behind `/` of `parent`, where the root hub and the device are in
-- front of it; none is `goto err`.
unfoldable pub usb_interface : Bytes → Option Bytes
usb_interface parent = do
  device ← behind_slash parent
  interface ← behind_slash device
  part interface

-- The links, which are none for NULL, and what is done.
abbrev pub usb_link : Bytes → Option Bytes → List Bytes × List Act
usb_link subsystem none = ([], [])
usb_link subsystem (some interface) =
    ((codes "/dev/usb/" ++ (subsystem ++ interface)) ∷ [], mkdir (codes "/dev/usb") 493 ∷ [])

abbrev pub usb_links : Bytes → Bytes → List Bytes × List Act
usb_links subsystem parent =
    if starts_with (codes "usb") parent then usb_link subsystem (usb_interface parent) else ([], [])

-- The links for what stands behind the driver.
abbrev pub links_behind : Bytes → Option (Bytes × Bytes) → Option (List Bytes × List Act)
links_behind subsystem none = none
links_behind subsystem (some (driver, parent)) = some (usb_links subsystem parent)

-- The result is none where `strchr` finds no slash behind the driver, since the null pointer is then
-- read.
unfoldable pub get_character_device_symlinks : Uevent → Option (List Bytes × List Act)
unfolding usb_interface
get_character_device_symlinks uevent =
    if starts_with platform uevent.path
    then links_behind uevent.subsystem (split_at b'/' (drop 18 uevent.path))
    else some ([], [])

abbrev pub by_name : Bytes → Option Bytes → List Bytes
by_name link_path none = []
by_name link_path (some partition_name) =
    (link_path ++ (codes "/by-name/" ++ sanitize partition_name)) ∷ []

abbrev pub by_num : Bytes → ℕ → List Bytes
by_num link_path partition_num =
    if is_negative partition_num
    then []
    else (link_path ++ (codes "/by-num/p" ++ decimal partition_num)) ∷ []

-- The path begins with /devices/platform/, so it has a slash.
abbrev pub last_part : Bytes → Bytes
last_part path = elim (split_at_last b'/' path) [ none ↦ [] | some (dir, name) ↦ name ]

-- The links, in order, which are none for NULL.
unfoldable pub parse_platform_block_device : Uevent → List Bytes → List Bytes
unfolding find_platform_device
parse_platform_block_device uevent platform_names =
    elim (find_platform_device (drop 18 uevent.path) platform_names) [
      | none ↦ []
      | some device ↦
          let link_path = take 255 (codes "/dev/block/platform/" ++ device) in
          by_name link_path uevent.partition_name
          ++ (by_num link_path uevent.partition_num
              ++ (link_path ++ b'/' ∷ last_part uevent.path) ∷ [])
    ]
