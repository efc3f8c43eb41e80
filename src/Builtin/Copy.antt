-- ===== src/Builtin/Copy.antt =====
-- The commands that write to files: `write_file` and `do_copy`.
pub mod Whole
use asl.Base.{
  ℕ, zero, suc, ◌+◌, ◌-◌, Bool, true, false, Option, none, some, List, [], ◌∷◌, ◌++◌, ◌==◌,
  if◌then◌else◌, length, take, drop,
}
use asl.Base.Text.{Bytes}
use asl.Builtin.{Ret, ok, failed, error}

abbrev pub eintr : ℕ
eintr = 4

-- The answers of `write` in the loop of `write_file`: none for success, or `errno`. The result is none
-- where there are no more answers.
unfoldable pub write_turns : List (Option ℕ) → Option Ret
write_turns [] = none
write_turns (none ∷ answers) = some ok
write_turns (some e ∷ answers) =
    let rest = write_turns answers in if e == eintr then rest else some (error e)

-- The answer of `open` likewise.
unfoldable pub write_file : Option ℕ → List (Option ℕ) → Option Ret
unfolding write_turns
write_file (some e) answers = some (error e)
write_file none answers = write_turns answers

-- The first loop of `do_copy`, with the bytes that are read so far and the number of those that are
-- missing. An answer is the bytes that `read` gives, or none for an error. The outer result is none
-- where there are no more answers, the inner one where the function gives up.
unfoldable pub read_turns : ℕ → List (Option Bytes) → Bytes → Option (Option Bytes)
read_turns zero answers buffer = some (some buffer)
read_turns (suc brtr) [] buffer = none
read_turns (suc brtr) (none ∷ answers) buffer = some none
read_turns (suc brtr) (some [] ∷ answers) buffer = some (some buffer)
read_turns (suc brtr) (some (c ∷ cs) ∷ answers) buffer =
    read_turns (brtr - length cs) answers (buffer ++ c ∷ cs)

-- The second loop, with the bytes that are left and those that are written. An answer is the number of
-- bytes that `write` takes, or none for an error.
unfoldable pub write_out : ℕ → Bytes → List (Option ℕ) → Bytes → Option (Bytes × Ret)
write_out zero p answers written = some (written, ok)
write_out (suc brtw) p [] written = none
write_out (suc brtw) p (none ∷ answers) written = some (written, failed)
write_out (suc brtw) p (some zero ∷ answers) written = some (written, ok)
write_out (suc brtw) p (some (suc n) ∷ answers) written =
    write_out (brtw - n) (drop (suc n) p) answers (written ++ take (suc n) p)

-- The buffer behind the bytes that were read: what `malloc` left there.
abbrev pub filled : Bytes → Bytes → Bytes
filled garbage buffer = buffer ++ drop (length buffer) garbage

-- `do_copy` behind the calls of `stat`, `open` and `malloc`, with `st_size`; the result has the bytes
-- that the new file gets.
unfoldable pub do_copy : ℕ → Bytes → List (Option Bytes) → List (Option ℕ) → Option (Bytes × Ret)
unfolding read_turns write_out
do_copy st_size garbage reads writes = elim (read_turns st_size reads []) [
  | none ↦ none
  | some none ↦ some ([], failed)
  | some (some buffer) ↦ write_out st_size (filled garbage buffer) writes []
]
