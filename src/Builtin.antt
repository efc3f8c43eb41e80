-- ===== src/Builtin.antt =====
-- The commands of system/core/init/builtins.c.
pub mod Classes
pub mod Exec
pub mod Modes
pub mod Copy
pub mod Mount
pub mod Settings
mod Tests
use asl.Base.{ℕ, zero, suc, Option, none, some, List, [], ◌∷◌, get_elem?}
use asl.Base.Text.{Bytes}

-- `args[i]`; the parser sees to it that a command has its words.
abbrev pub arg : List Bytes → ℕ → Bytes
arg args i = elim (get_elem? args i) [ none ↦ [] | some word ↦ word ]

-- What a command returns: 0, -1, or -errno.
pub data Ret : Type 0 where
  ok failed : Ret
  error : ℕ → Ret
