-- ===== src/Device/Events.antt =====
-- The handlers of the events of devices.c.
pub mod Survives
pub mod Quiet
pub mod Undo
use asl.Base.{
  ℕ, Bool, true, false, Option, none, some, List, [], ◌∷◌, ◌++◌, if◌then◌else◌, leb, length, drop,
  ◌>>=◌,
}
use asl.Base.Text.{Bytes, codes, str_eq, starts_with}
use asl.Device.{Uevent, parse_event, parse_device_name}
use asl.Device.Rules.{Rules, Act, mkdir, fixup_sys_perms}
use asl.Device.Platform.{add_platform_device, remove_platform_device}
use asl.Device.Links.{platform, get_character_device_symlinks, parse_platform_block_device}
use asl.Device.Node.{Place, handle_device, fit, generic_place}

-- The list `platform_names`, and what was done.
abbrev pub Handled : Type 0
Handled = List Bytes × List Act

unfoldable pub handle_platform_device_event : Uevent → List Bytes → List Bytes
handle_platform_device_event uevent platform_names =
    let name = drop 18 uevent.path in
    if str_eq uevent.action (codes "add")
    then add_platform_device name platform_names
    else if str_eq uevent.action (codes "remove")
    then remove_platform_device name platform_names
    else platform_names

abbrev pub block_links : Uevent → List Bytes → List Bytes
block_links uevent platform_names =
    if starts_with platform uevent.path
    then parse_platform_block_device uevent platform_names
    else []

abbrev pub if_block : Uevent → Rules → List Bytes → Option Bytes → List Act
if_block uevent rules platform_names none = []
if_block uevent rules platform_names (some name) =
    mkdir (codes "/dev/block/") 493
    ∷ handle_device uevent.action (fit (codes "/dev/block/" ++ name)) true uevent.major uevent.minor
        (block_links uevent platform_names) rules.dev_perms

unfoldable pub handle_block_device_event : Uevent → Rules → List Bytes → List Act
handle_block_device_event uevent rules platform_names =
    if_block uevent rules platform_names (parse_device_name uevent 64)

-- The links and the node; none where the links are not known, since a null pointer is read.
abbrev pub at_place : Uevent → Rules → Place → Option (List Bytes × List Act) → Option (List Act)
at_place uevent rules place none = none
at_place uevent rules place (some links) = some (
    place.1
    ++ (links.1
        ++ handle_device uevent.action place.0 false uevent.major uevent.minor links.0
            rules.dev_perms))

abbrev pub if_placed : Uevent → Rules → Option Place → Option (List Act)
if_placed uevent rules none = some []
if_placed uevent rules (some place) =
    at_place uevent rules place (get_character_device_symlinks uevent)

abbrev pub if_named : Uevent → Rules → Option Bytes → Option (List Act)
if_named uevent rules none = some []
if_named uevent rules (some name) = if_placed uevent rules (generic_place uevent name)

-- The result is none where a null pointer is read.
unfoldable pub handle_generic_device_event : Uevent → Rules → Option (List Act)
handle_generic_device_event uevent rules = if_named uevent rules (parse_device_name uevent 64)

abbrev pub fixed : Uevent → Rules → List Act
fixed uevent rules =
    if str_eq uevent.action (codes "add") then fixup_sys_perms uevent.path rules.sys_perms else []

abbrev pub after_fixes : List Act → List Bytes → Option (List Act) → Option Handled
after_fixes fixes platform_names none = none
after_fixes fixes platform_names (some acts) = some (platform_names, fixes ++ acts)

unfoldable pub handle_device_event : Uevent → Rules → List Bytes → Option Handled
handle_device_event uevent rules platform_names =
    let fixes = fixed uevent rules in
    if starts_with (codes "block") uevent.subsystem
    then after_fixes fixes platform_names
        (some (handle_block_device_event uevent rules platform_names))
    else if starts_with (codes "platform") uevent.subsystem
    then some (handle_platform_device_event uevent platform_names, fixes)
    else after_fixes fixes platform_names (handle_generic_device_event uevent rules)

-- The acts in front of those of the later messages.
abbrev pub before : List Act → Option Handled → Option Handled
before acts none = none
before acts (some (names, later)) = some (names, acts ++ later)

-- `handle_device_fd` on the messages that are received; one of 1024 bytes or more is dropped. The
-- firmware events are handled by other processes.
unfoldable pub handle_device_fd : List Bytes → Rules → List Bytes → Option Handled
handle_device_fd [] rules platform_names = some (platform_names, [])
handle_device_fd (msg ∷ msgs) rules platform_names =
    let handled =
      if leb 1024 (length msg)
      then some (platform_names, [])
      else handle_device_event (parse_event msg) rules platform_names in
    elim handled [
      | none ↦ none
      | some (names, acts) ↦ before acts (handle_device_fd msgs rules names)
    ]
