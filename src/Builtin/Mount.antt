-- ===== src/Builtin/Mount.antt =====
-- The words and the device of `do_mount`, and the short commands of builtins.c.
pub mod Device
use Prim.Native.Nat.{bit_or}
use asl.Base.{
  ℕ, zero, suc, ◌+◌, Bool, true, false, ◌&&◌, Option, none, some, List, [], ◌∷◌, ◌++◌, ◌==◌, ltb,
  if◌then◌else◌, length, drop,
}
use asl.Base.Text.{Bytes, codes, str_eq, starts_with}
use asl.Number.{decimal, atoi}
use asl.Builtin.{arg}

-- The table `mount_flags`, with the bits of the kernel.
abbrev pub mount_flags : List (Bytes × ℕ)
mount_flags =
    (codes "noatime", 1024)
    ∷ (codes "noexec", 8)
    ∷ (codes "nosuid", 2)
    ∷ (codes "nodev", 4)
    ∷ (codes "nodiratime", 2048)
    ∷ (codes "ro", 1)
    ∷ (codes "rw", 0)
    ∷ (codes "remount", 32)
    ∷ (codes "defaults", 0)
    ∷ []

unfoldable pub flag_of : Bytes → List (Bytes × ℕ) → Option ℕ
flag_of word [] = none
flag_of word ((name, flag) ∷ rest) =
    let later = flag_of word rest in if str_eq word name then some flag else later

-- The variables that the words set.
pub record MountWords : Type 0 where
  pub flags : ℕ
  pub wait : Bool
  pub options : Option Bytes

abbrev is_empty : List Bytes → Bool
is_empty [] = true
is_empty (w ∷ ws) = false

-- One word, and whether it is the last.
abbrev pub mount_word : Bytes → Bool → Option ℕ → MountWords → MountWords
mount_word word last (some flag) m = record m { flags = bit_or m.flags flag }
mount_word word last none m =
    if str_eq word (codes "wait")
    then record m { wait = true }
    else if last
    then record m { options = some word }
    else m

unfoldable pub mount_words : List Bytes → MountWords → MountWords
unfolding flag_of
mount_words [] m = m
mount_words (word ∷ words) m =
    mount_words words (mount_word word (is_empty words) (flag_of word mount_flags) m)

abbrev pub no_words : MountWords
no_words = record { flags = 0; wait = false; options = none }

-- What the kernel answers for a loop device: whether it opens, whether it is blank, and whether it
-- takes the file.
pub record LoopDevice : Type 0 where
  pub opens : Bool
  pub blank : Bool
  pub takes : Bool

-- The loop over the loop devices from a number on: the one that takes the file, or none where the
-- function returns -1. It gives up at the first device that does not open.
unfoldable pub find_loop : ℕ → List LoopDevice → Option ℕ
find_loop n [] = none
find_loop n (device ∷ devices) =
    let rest = find_loop (n + 1) devices in
    if device.opens then (if device.blank && device.takes then some n else rest) else none

-- The device that is mounted, or none where the function returns -1 before it mounts anything.
-- `mtd_name_to_number` gives none for -1, and `opens` tells whether the file of a loop device opens.
unfoldable pub mount_source :
    (Bytes → Option ℕ) → (Bytes → Bool) → List LoopDevice → Bytes → Option Bytes
unfolding find_loop
mount_source mtd_name_to_number opens devices source =
    if starts_with (codes "mtd@") source
    then elim (mtd_name_to_number (drop 4 source)) [
      | none ↦ none
      | some n ↦ some (codes "/dev/block/mtdblock" ++ decimal n)
    ]
    else if starts_with (codes "loop@") source
    then elim (if opens (drop 5 source) then find_loop 0 devices else none) [
      | none ↦ none
      | some n ↦ some (codes "/dev/block/loop" ++ decimal n)
    ]
    else some source

-- A call of `mount`.
pub record Mounting : Type 0 where
  pub source : Bytes
  pub target : Bytes
  pub system : Bytes
  pub flags : ℕ
  pub options : Option Bytes

abbrev mounting : List Bytes → Option Bytes → Option Mounting
mounting args none = none
mounting args (some source) =
    let m = mount_words (drop 4 args) no_words in
    some (record {
      source = source;
      target = arg args 3;
      system = arg args 1;
      flags = m.flags;
      options = m.options;
    })

-- The call of `mount` that the command comes to.
unfoldable pub do_mount :
    (Bytes → Option ℕ) → (Bytes → Bool) → List LoopDevice → List Bytes → Option Mounting
unfolding mount_source mount_words
do_mount mtd_name_to_number opens devices args =
    mounting args (mount_source mtd_name_to_number opens devices (arg args 2))

-- `do_loglevel`: the level that is set.
unfoldable pub do_loglevel : List Bytes → Option ℕ
do_loglevel args = if length args == 2 then some (atoi (arg args 1)) else none

-- `do_sysclktz`: the minutes west of Greenwich that are set.
unfoldable pub do_sysclktz : List Bytes → Option ℕ
do_sysclktz args = if length args == 2 then some (atoi (arg args 1)) else none

-- `do_setrlimit`: the resource and its limits.
unfoldable pub do_setrlimit : List Bytes → ℕ × ℕ × ℕ
do_setrlimit args = (atoi (arg args 1), atoi (arg args 2), atoi (arg args 3))
