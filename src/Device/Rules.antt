-- ===== src/Device/Rules.antt =====
-- The rules for the owners and modes of device nodes and of files in /sys, of devices.c.
pub mod Override
use Prim.Native.Nat.{bit_or}
use asl.Base.{
  ℕ, ◌+◌, Bool, true, false, Option, none, some, List, [], ◌∷◌, ◌++◌, ltb, if◌then◌else◌, length,
  drop,
}
use asl.Base.Text.{Bytes, codes, str_eq, starts_with}

-- `struct perms_`
pub record Perms : Type 0 where
  pub name : Bytes
  pub attr : Option Bytes
  pub perm : ℕ
  pub uid : ℕ
  pub gid : ℕ
  pub prefix : Bool

-- The lists `sys_perms` and `dev_perms`.
pub record Rules : Type 0 where
  pub sys_perms : List Perms
  pub dev_perms : List Perms

-- What the functions of devices.c do to the files, in order.
pub data Act : Type 0 where
  mkdir chmod : Bytes → ℕ → Act
  chown : Bytes → ℕ → ℕ → Act
  setegid : ℕ → Act
  mknod : Bytes → ℕ → ℕ → ℕ → Act
  make_link remove_link : Bytes → Bytes → Act
  unlink : Bytes → Act

unfoldable pub add_dev_perms : Perms → Rules → Rules
add_dev_perms dp rules = elim dp.attr [
  | some attr ↦ record rules { sys_perms = rules.sys_perms ++ dp ∷ [] }
  | none ↦ record rules { dev_perms = rules.dev_perms ++ dp ∷ [] }
]

-- Whether a name, with a star at its end if it is a prefix, stands for the path.
abbrev pub name_matches : Bool → Bytes → Bytes → Bool
name_matches prefix name path = if prefix then starts_with name path else str_eq path name

abbrev pub attr_of : Perms → Bytes
attr_of dp = elim dp.attr [ none ↦ [] | some attr ↦ attr ]

-- The names of the rules start with /sys, and `upath` does not.
unfoldable pub fixup_sys_perms : Bytes → List Perms → List Act
fixup_sys_perms upath [] = []
fixup_sys_perms upath (dp ∷ sys_perms) =
    let rest = fixup_sys_perms upath sys_perms in
    let buf = codes "/sys" ++ (upath ++ b'/' ∷ attr_of dp) in
    if name_matches dp.prefix (drop 4 dp.name) upath
    then (if ltb 512 (length upath + length (attr_of dp) + 6)
        then []
        else chown buf dp.uid dp.gid ∷ chmod buf dp.perm ∷ rest)
    else rest

-- What `get_device_perm` gives.
pub record DevicePerm : Type 0 where
  pub perm : ℕ
  pub uid : ℕ
  pub gid : ℕ

abbrev pub perm_of : Perms → DevicePerm
perm_of dp = record { perm = dp.perm; uid = dp.uid; gid = dp.gid }

-- 0600 is 384.
abbrev pub default_perm : DevicePerm
default_perm = record { perm = 384; uid = 0; gid = 0 }

-- The last element that passes a test, as the loops of `list_for_each_reverse` find it.
abbrev pub find_last {ℓ} : {A : Type ℓ} → (A → Bool) → List A → Option A
find_last test [] = none
find_last test (x ∷ xs) = elim (find_last test xs) [
  | some y ↦ some y
  | none ↦ if test x then some x else none
]

abbrev pub answer : Option Perms → DevicePerm
answer none = default_perm
answer (some dp) = perm_of dp

unfoldable pub get_device_perm : Bytes → List Perms → DevicePerm
get_device_perm path dev_perms =
    answer (find_last (λ (dp : Perms). name_matches dp.prefix dp.name path) dev_perms)

-- The type bits of `S_IFBLK` and `S_IFCHR`.
abbrev pub type_bits : Bool → ℕ
type_bits block = if block then 24576 else 8192

-- `-1` for the group, and `AID_ROOT` for the effective group that is set back.
unfoldable pub make_device : Bytes → Bool → ℕ → ℕ → List Perms → List Act
unfolding get_device_perm
make_device path block major minor dev_perms =
    let p = get_device_perm path dev_perms in
    setegid p.gid
    ∷ mknod path (bit_or p.perm (type_bits block)) major minor
    ∷ chown path p.uid 4294967295
    ∷ setegid 0
    ∷ []
