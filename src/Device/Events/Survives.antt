-- ===== src/Device/Events/Survives.antt =====
-- The messages that `handle_device_fd` handles to their end, and those that it does not.
use asl.Base.{
  ◌<◌, ◌≡◌, ◌≢◌, false, Option, none, some, List, [], ◌++◌, if◌then◌else◌, leb, length, All,
}
use asl.Base.Text.{Bytes, codes, starts_with}
use asl.Device.{Uevent, parse_event, parse_device_name}
use asl.Device.Rules.{Rules}
use asl.Device.Links.{platform}
use asl.Device.Node.{Place, generic_place}
use asl.Device.Events.{Handled, handle_device_event, handle_device_fd, before}

-- The path is that of a file in the directory /devices/platform itself.
abbrev pub IsShallow : Bytes → Type 0
IsShallow path = (driver : Bytes) × (path ≡ platform ++ driver) × All (λ c. c ≢ b'/') driver

-- The event is about a node that is made or removed, of no block device and no platform device, and
-- its path is shallow.
abbrev pub IsFatal : Uevent → Type 0
IsFatal uevent =
    (starts_with (codes "block") uevent.subsystem ≡ false)
    × (starts_with (codes "platform") uevent.subsystem ≡ false)
    × IsShallow uevent.path
    × ((name : Bytes) × (place : Place) × (parse_device_name uevent 64 ≡ some name)
        × (generic_place uevent name ≡ some place))

-- There is a name, and a place for the node.
abbrev IsNode : Uevent → Type 0
IsNode uevent =
    (name : Bytes) × (place : Place) × (parse_device_name uevent 64 ≡ some name)
    × (generic_place uevent name ≡ some place)

-- The message is not dropped, and its event is fatal.
abbrev pub Crashes : Bytes → Type 0
Crashes msg = (length msg < 1024) × IsFatal (parse_event msg)

module _ (rules : Rules) where
  -- What a message does, and what the later ones do behind it.
  handled : Bytes → List Bytes → Option Handled
  handled msg names =
      if leb 1024 (length msg)
      then some (names, [])
      else handle_device_event (parse_event msg) rules names

  behind : List Bytes → Option Handled → Option Handled
  behind msgs o = elim o [
    | none ↦ none
    | some (names, acts) ↦ before acts (handle_device_fd msgs rules names)
  ]
