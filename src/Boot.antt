-- ===== src/Boot.antt =====
-- The start of system/core/init/init.c: the kernel command line, the properties of the boot, the
-- actions that `main` queues, and the time-out of its loop.
pub mod Actions
pub mod Loop
pub mod Names
mod Tests
use asl.Base.{
  ℕ, zero, suc, ◌+◌, ◌-◌, ◌*◌, ◌<◌, ◌≤◌, Bool, true, false, ◌&&◌, ◌||◌, not, Option, none, some,
  List, [], ◌∷◌, ◌++◌, ◌==◌, leb, ltb, if◌then◌else◌, length, take, drop,
}
use asl.Base.Text.{Bytes, codes, str_eq, starts_with, split_at}
use asl.Number.{decimal_int}
use asl.Props.{Bionic, Props, property_get, property_set}
use asl.Util.Proc.{import_kernel_cmdline, Hardware}

-- The static variables; the strings have a size of 32 bytes.
pub record Vars : Type 0 where
  pub qemu : Bytes
  pub battchg_pause : Bytes
  pub console : Bytes
  pub bootmode : Bytes
  pub hardware : Bytes
  pub revision : ℕ
  pub emmc_boot : Bool
  pub props : Props

-- `strlcpy` into an array of 32 bytes.
abbrev pub copy32 : Bytes → Bytes
copy32 s = take 31 s

-- `BOARD_CHARGING_CMDLINE_NAME` and its value, where the build does not set them.
abbrev pub charging_name : Bytes
charging_name = codes "androidboot.battchg_pause"

abbrev pub charging_value : Bytes
charging_value = codes "true"

module _ (bionic : Bionic) where
  open bionic use {prop_name_max, prop_value_max}

  abbrev pub set_prop : Bytes → Bytes → Vars → Vars
  set_prop n v s = record s { props = (property_set bionic n v s.props).0 }

  -- A property whose name is built in a buffer of PROP_NAME_MAX bytes.
  abbrev pub set_if_short : Bytes → Bytes → Vars → Vars
  set_if_short n v s = if ltb (length n) prop_name_max then set_prop n v s else s

  -- The branches for a device.
  unfoldable pub import_device_nv : Bytes → Bytes → Vars → Vars
  import_device_nv name value s =
      if str_eq name (codes "qemu")
      then record s { qemu = copy32 value }
      else if str_eq name (codes "androidboot.emmc")
      then (if str_eq value (codes "true") then record s { emmc_boot = true } else s)
      else if str_eq name charging_name
      then record s { battchg_pause = copy32 value }
      else if starts_with (codes "androidboot.") name && ltb 12 (length name)
      then set_if_short (codes "ro.boot." ++ drop 12 name) value s
      else s

  -- A name that is not empty, and its value.
  abbrev pub import_pair : Bool → Option (Bytes × Bytes) → Vars → Vars
  import_pair for_emulator none s = s
  import_pair for_emulator (some ([], value)) s = s
  import_pair for_emulator (some (c ∷ cs, value)) s =
      if for_emulator
      then set_if_short (codes "ro.kernel." ++ (c ∷ cs)) value s
      else import_device_nv (c ∷ cs) value s

  unfoldable pub import_kernel_nv : Bool → Bytes → Vars → Vars
  unfolding import_device_nv
  import_kernel_nv for_emulator name s = import_pair for_emulator (split_at b'=' name) s

  abbrev or_default : Bytes → Option Bytes → Bytes
  or_default def_val none = def_val
  or_default def_val (some v) = v

  -- One turn of the loop over `prop_map`.
  unfoldable pub map_prop : Bytes → Bytes → Bytes → Vars → Vars
  map_prop src_prop dest_prop def_val s =
      set_prop dest_prop (or_default def_val (property_get bionic src_prop s.props)) s

  abbrev pub copied : Option Bytes → Bytes → Bytes
  copied none old = old
  copied (some pval) old = copy32 pval

  -- The number of the obsolete property for the factory.
  abbrev factory_test : Bytes → Bytes
  factory_test bootmode =
      if str_eq bootmode (codes "factory")
      then codes "1"
      else if str_eq bootmode (codes "factory2")
      then codes "2"
      else codes "0"

  abbrev bit : Bool → Bytes
  bit b = if b then codes "1" else codes "0"

  -- The properties that are set from the variables.
  unfoldable pub set_boot_props : Vars → Vars
  set_boot_props s = set_prop (codes "ro.factorytest") (factory_test s.bootmode) (
      set_prop (codes "ro.boot.emmc") (bit s.emmc_boot) (
        set_prop (codes "ro.emmc") (bit s.emmc_boot) (
          set_prop (codes "ro.revision") (decimal_int s.revision)
            (set_prop (codes "ro.hardware") s.hardware s))))

  -- The variables that are copied from the properties. A missing ro.bootmode would be a null pointer.
  unfoldable pub copy_boot_props : Vars → Vars
  copy_boot_props s =
      let get : Bytes → Option Bytes = λ n. property_get bionic n s.props in
      record s {
        console = copied (get (codes "ro.boot.console")) s.console;
        bootmode = copy32 (or_default [] (get (codes "ro.bootmode")));
        hardware = copied (get (codes "ro.boot.hardware")) s.hardware;
      }

  unfoldable pub export_kernel_boot_props : Vars → Vars
  unfolding map_prop copy_boot_props set_boot_props
  export_kernel_boot_props s = set_boot_props (
      copy_boot_props (
        map_prop (codes "ro.boot.bootloader") (codes "ro.bootloader") (codes "unknown") (
          map_prop (codes "ro.boot.baseband") (codes "ro.baseband") (codes "unknown") (
            map_prop (codes "ro.boot.mode") (codes "ro.bootmode") (codes "unknown")
              (map_prop (codes "ro.boot.serialno") (codes "ro.serialno") [] s)))))

  abbrev is_empty : Bytes → Bool
  is_empty [] = true
  is_empty (c ∷ cs) = false

  -- The text of /proc/cmdline, in two passes for the emulator.
  unfoldable pub process_kernel_cmdline : Option Bytes → Vars → Vars
  unfolding import_kernel_nv export_kernel_boot_props
  process_kernel_cmdline cmdline s =
      let once = import_kernel_cmdline cmdline (import_kernel_nv false) s in
      let twice = import_kernel_cmdline cmdline (import_kernel_nv true) once in
      export_kernel_boot_props (if is_empty once.qemu then once else twice)
