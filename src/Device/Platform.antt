-- ===== src/Device/Platform.antt =====
-- The list `platform_names` of devices.c.
pub mod Below
pub mod Outermost
use asl.Base.{
  ℕ, Bool, true, false, ◌&&◌, Option, none, some, List, [], ◌∷◌, ◌++◌, ◌==◌, ltb, if◌then◌else◌,
  length, get_elem?,
}
use asl.Base.Text.{Bytes, codes, str_eq, starts_with}
use asl.Device.Rules.{find_last}
use asl.Device.{Uevent}

abbrev pub byte_at : Bytes → ℕ → ℕ
byte_at s i = elim (get_elem? s i) [ none ↦ 0 | some c ↦ c ]

-- Whether the name is that of a subdevice of `bus`.
unfoldable pub is_subdevice : Bytes → Bytes → Bool
is_subdevice name bus =
    ltb (length bus) (length name) && (byte_at name (length bus) == b'/' && starts_with bus name)

unfoldable pub find_platform_device : Bytes → List Bytes → Option Bytes
unfolding is_subdevice
find_platform_device name platform_names = find_last (is_subdevice name) platform_names

unfoldable pub add_platform_device : Bytes → List Bytes → List Bytes
unfolding is_subdevice
add_platform_device name platform_names = elim (find_last (is_subdevice name) platform_names) [
  | none ↦ platform_names ++ name ∷ []
  | some bus ↦ platform_names
]

-- Without the last element that is the name; none where there is no such element.
abbrev pub remove_last : Bytes → List Bytes → Option (List Bytes)
remove_last name [] = none
remove_last name (bus ∷ buses) = elim (remove_last name buses) [
  | some rest ↦ some (bus ∷ rest)
  | none ↦ if str_eq name bus then some buses else none
]

unfoldable pub remove_platform_device : Bytes → List Bytes → List Bytes
remove_platform_device name platform_names = elim (remove_last name platform_names) [
  | none ↦ platform_names
  | some rest ↦ rest
]
