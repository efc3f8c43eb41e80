-- ===== src/Device/Node.antt =====
-- The path of a device node, and `handle_device`, of devices.c.
use asl.Base.{
  ℕ, ◌+◌, ◌/◌, ◌%◌, Bool, ◌&&◌, Option, none, some, List, [], ◌∷◌, ◌++◌, ◌==◌, map, if◌then◌else◌,
  take, drop,
}
use asl.Base.Text.{Bytes, codes, str_eq, starts_with}
use asl.Number.{decimal3}
use asl.Device.{Uevent}
use asl.Device.Rules.{Perms, Act, mkdir, make_link, remove_link, unlink, make_device}

-- The links are made behind the node, and removed in front of it.
unfoldable pub handle_device : Bytes → Bytes → Bool → ℕ → ℕ → List Bytes → List Perms → List Act
unfolding make_device
handle_device action devpath block major minor links dev_perms =
    (if str_eq action (codes "add")
      then make_device devpath block major minor dev_perms
        ++ map (λ newpath. make_link devpath newpath) links
      else [])
    ++ (if str_eq action (codes "remove")
        then map (λ newpath. remove_link devpath newpath) links ++ unlink devpath ∷ []
        else [])

-- The directories of a path behind `p`, with the bytes before it.
unfoldable pub build_directories : Bytes → Bytes → List Act
build_directories before [] = []
build_directories before (c ∷ p) =
    let rest = build_directories (before ++ c ∷ []) p in
    if c == b'/' then mkdir before 493 ∷ rest else rest

-- The path of a node, and the calls of `make_dir` for it.
abbrev pub Place : Type 0
Place = Bytes × List Act

-- A buffer of 96 bytes.
abbrev pub fit : Bytes → Bytes
fit s = take 95 s

-- The node that the kernel names.
unfoldable pub named_usb : Bytes → Place
unfolding build_directories
named_usb device_name =
    let devpath = fit (codes "/dev/" ++ device_name) in
    (devpath, build_directories (codes "/dev/") (drop 5 devpath))

-- The groups of 128 minors.
unfoldable pub numbered_usb : ℕ → Place
numbered_usb minor =
    let bus = codes "/dev/bus/usb/" ++ decimal3 (minor / 128 + 1) in
    (
      bus ++ b'/' ∷ decimal3 (minor % 128 + 1),
      mkdir (codes "/dev/bus") 493 ∷ mkdir (codes "/dev/bus/usb") 493 ∷ mkdir bus 493 ∷ [],
    )

-- The subsystems that have a directory of their own, in the order in which they are tried.
abbrev pub bases : List (Bytes × Bytes)
bases =
    (codes "graphics", codes "/dev/graphics/")
    ∷ (codes "oncrpc", codes "/dev/oncrpc/")
    ∷ (codes "adsp", codes "/dev/adsp/")
    ∷ (codes "msm_camera", codes "/dev/msm_camera/")
    ∷ (codes "input", codes "/dev/input/")
    ∷ (codes "mtd", codes "/dev/mtd/")
    ∷ (codes "sound", codes "/dev/snd/")
    ∷ []

-- The directory of the first subsystem that the name begins with.
unfoldable pub base_of : Bytes → List (Bytes × Bytes) → Option Bytes
base_of subsystem [] = none
base_of subsystem ((prefix, base) ∷ rest) =
    let later = base_of subsystem rest in if starts_with prefix subsystem then some base else later

abbrev pub in_base : Bytes → Bytes → Place
in_base base name = (fit (base ++ name), mkdir base 493 ∷ [])

-- The place in the directory of the subsystem, if it has one.
abbrev pub place_in : Bytes → Bytes → Option Bytes → Place
place_in subsystem name (some base) = in_base base name
place_in subsystem name none =
    if starts_with (codes "misc") subsystem && starts_with (codes "log_") name
    then in_base (codes "/dev/log/") (drop 4 name)
    else (fit (codes "/dev/" ++ name), [])

-- The other subsystems.
abbrev pub plain_place : Bytes → Bytes → Place
plain_place subsystem name = place_in subsystem name (base_of subsystem bases)

abbrev pub usb_place : ℕ → Option Bytes → Place
usb_place minor (some device_name) = named_usb device_name
usb_place minor none = numbered_usb minor

-- The place of a node that is no block device; none where the event is ignored.
unfoldable pub generic_place : Uevent → Bytes → Option Place
unfolding named_usb numbered_usb base_of
generic_place uevent name =
    if starts_with (codes "usb") uevent.subsystem
    then (if str_eq uevent.subsystem (codes "usb")
        then some (usb_place uevent.minor uevent.device_name)
        else none)
    else some (plain_place uevent.subsystem name)
