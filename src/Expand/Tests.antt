-- ===== src/Expand/Tests.antt =====
-- Expansions with one property, and the theorems at them.
use asl.Base.{◌≤◌, ◌≡◌, ◌⊎◌, refl, Option, none, some, ◌++◌, if◌then◌else◌, length}
use asl.Base.Text.{Bytes, codes, str_eq, split_at}
use asl.Expand.{expanded, failed, expand_props, expand_loop, round, read_name}
use asl.Expand.Room.{expand_props_room}
use asl.Expand.Overflow.{expand_props_overflow}

abbrev property_get : Bytes → Option Bytes
property_get name = if str_eq name (codes "ro.hardware") then some (codes "p970") else none

expand_props-import :
    expand_props 32 property_get (codes "/init.${ro.hardware}.rc") 64
    ≡ expanded (codes "/init.p970.rc")
unfolding expand_props expand_loop round split_at read_name str_eq
expand_props-import = refl

expand_props_overflow_example :
    expand_props 32 property_get (codes "usr" ++ codes "$$") 4 ≡ expanded (codes "usr$")
expand_props_overflow_example =
    expand_props_overflow 32 property_get b'u' (codes "sr") (refl, (refl, (refl, tt)))

expand_props_room_example :
    (expand_props 32 property_get (codes "/init.${ro.hardware}.rc") 64 ≡ failed)
    ⊎ ((dst : Bytes) × (expand_props 32 property_get (codes "/init.${ro.hardware}.rc") 64
          ≡ expanded dst)
        × (length dst ≤ 64))
expand_props_room_example = expand_props_room 32 property_get (codes "/init.${ro.hardware}.rc") 64
