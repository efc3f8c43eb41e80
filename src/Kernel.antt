-- ===== src/Kernel.antt =====
-- The proc files of the mechanism: kernel/security/asl/asl.c. CONFIG_ASL_DISABLED is not defined.
pub mod Status
mod Tests
use asl.Base.{
  ℕ, ◌+◌, ◌≤◌, ◌≡◌, Bool, true, false, Option, none, some, List, [], ◌∷◌, ◌++◌, ◌==◌, ltb,
  if◌then◌else◌, length, take, drop,
}
use asl.Base.Text.{Bytes, codes}

-- MAX_PROC_SIZE
abbrev pub max_proc_size : ℕ
max_proc_size = 4

-- The array `proc_data` of 4 bytes, and what stands behind it in memory.
pub record Image : Type 0 where
  pub proc_data : Bytes
  pub behind : Bytes

-- A result of `write_proc`: the count, or -EFAULT.
pub data Written : Type 0 where
  count : ℕ → Written
  efault : Written

-- `copy_from_user(to, from, n)`, which the rest of the kernel supplies: what `to` then holds, and
-- how many bytes were not copied. If all were, `to` has the bytes of the user.
pub record Uaccess : Type 0 where
  pub copy_from_user : Bytes → Bytes → ℕ → Bytes × ℕ
  pub copied :
      (to from : Bytes) (n : ℕ)
      → n ≤ length from
      → (copy_from_user to from n).1 ≡ 0
      → (copy_from_user to from n).0 ≡ take n from ++ drop n to

abbrev pub clamp : ℕ → ℕ
clamp n = if ltb max_proc_size n then max_proc_size else n

unfoldable pub write_proc : Uaccess → Bytes → ℕ → Image → Image × Written
write_proc uaccess buf n image =
    let r = uaccess.copy_from_user image.proc_data buf (clamp n) in
    (record image { proc_data = r.0 }, if r.1 == 0 then count (clamp n) else efault)

-- The string that starts at some bytes: `sprintf` reads up to the first 0.
unfoldable pub c_string : Bytes → Bytes
c_string [] = []
c_string (b ∷ bs) = if b == 0 then [] else b ∷ c_string bs

-- `read_proc`: the text, whose length is the result.
unfoldable pub read_proc : Image → Bytes
unfolding c_string
read_proc image = c_string (image.proc_data ++ image.behind)

-- `read_enabled_flag` and `read_ver`
abbrev pub read_enabled_flag : Bytes
read_enabled_flag = codes "1"

abbrev pub read_ver : Bytes
read_ver = codes "1.3"
