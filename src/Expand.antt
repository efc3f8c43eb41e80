-- ===== src/Expand.antt =====
-- `expand_props` of system/core/init/init_parser.c.
pub mod Room
pub mod Overflow
mod Tests
use asl.Base.{
  ℕ, zero, suc, ◌+◌, ◌-◌, Bool, true, false, Option, none, some, List, [], ◌∷◌, ◌++◌, ◌==◌, ltb,
  if◌then◌else◌, length,
}
use asl.Base.Text.{Bytes, split_at}

-- How the function ends: with the string in `dst`, which has its final 0 behind it, or with -1.
-- `unfinished` is the model's fuel used up.
pub data Outcome : Type 0 where
  expanded : Bytes → Outcome
  failed unfinished : Outcome

-- `push_chars`: the bytes written and `left`, or none for -1.
abbrev pub push_chars : Bytes → ℕ → Bytes → Option (Bytes × ℕ)
push_chars dst len chars =
    if ltb len (length chars) then none else some (dst ++ chars, len - length chars)

-- The loop that copies while there is room.
abbrev pub copy_rest : ℕ → Bytes → Bytes
copy_rest zero src = []
copy_rest (suc left) [] = []
copy_rest (suc left) (c ∷ src) = c ∷ copy_rest left src

-- The loops over the name: up to `limit` bytes, in braces up to the closing one.
unfoldable pub name_in_braces : ℕ → Bytes → Bytes × Bytes
name_in_braces zero c = ([], c)
name_in_braces (suc limit) [] = ([], [])
name_in_braces (suc limit) (b ∷ c) =
    let rest = name_in_braces limit c in if b == b'}' then ([], b ∷ c) else (b ∷ rest.0, rest.1)

unfoldable pub name_to_end : ℕ → Bytes → Bytes × Bytes
name_to_end zero c = ([], c)
name_to_end (suc limit) [] = ([], [])
name_to_end (suc limit) (b ∷ c) = let rest = name_to_end limit c in (b ∷ rest.0, rest.1)

-- The name and what stands behind it, or none where the function gives up: in braces the closing
-- brace must follow, without them the end of the string.
unfoldable pub closed : Bytes × Bytes → Option (Bytes × Bytes)
closed (prop, []) = none
closed (prop, b ∷ c) = if b == b'}' then some (prop, c) else none

unfoldable pub ended : Bytes × Bytes → Option (Bytes × Bytes)
ended (prop, []) = some (prop, [])
ended (prop, b ∷ c) = none

-- The part behind a dollar sign with the name, for `c` at the byte behind the dollar sign.
unfoldable pub read_name : ℕ → Bytes → Option (Bytes × Bytes)
unfolding name_in_braces name_to_end closed ended
read_name prop_name_max [] = none
read_name prop_name_max (b ∷ c) =
    if b == b'{'
    then closed (name_in_braces prop_name_max c)
    else ended (name_to_end prop_name_max (b ∷ c))

-- One round of the loop: it goes on with `dst`, `left` and `src_ptr`, it is left by `break`, or it
-- fails.
pub data Round : Type 0 where
  go_on : Bytes → ℕ → Bytes → Round
  break : Bytes → Round
  error : Round

unfoldable pub push_value : Bytes → ℕ → Option Bytes → Bytes → Round
push_value dst left none c = error
push_value dst left (some prop_val) c = elim (push_chars dst left prop_val) [
  | none ↦ error
  | some (dst', left') ↦ go_on dst' left' c
]

unfoldable pub look_up : (Bytes → Option Bytes) → Bytes → ℕ → Option (Bytes × Bytes) → Round
unfolding push_value
look_up property_get dst left none = error
look_up property_get dst left (some ([], c)) = error
look_up property_get dst left (some (p ∷ prop, c)) = push_value dst left (property_get (p ∷ prop)) c

-- The part behind the first dollar sign. For `$$` the room is not asked: `left` gets -1 where it is
-- 0, and either ends the loop.
unfoldable pub behind_dollar : ℕ → (Bytes → Option Bytes) → Bytes → ℕ → Bytes → Round
unfolding look_up
behind_dollar prop_name_max property_get dst left [] = break dst
behind_dollar prop_name_max property_get dst left (b ∷ c) =
    if b == b'$'
    then go_on (dst ++ b'$' ∷ []) (left - 1) c
    else look_up property_get dst left (read_name prop_name_max (b ∷ c))

unfoldable pub push_front : ℕ → (Bytes → Option Bytes) → Option (Bytes × ℕ) → Bytes → Round
unfolding behind_dollar
push_front prop_name_max property_get none c = error
push_front prop_name_max property_get (some (dst, left)) c =
    behind_dollar prop_name_max property_get dst left c

unfoldable pub round : ℕ → (Bytes → Option Bytes) → Bytes → ℕ → Bytes → Round
unfolding push_front
round prop_name_max property_get dst left src_ptr = elim (split_at b'$' src_ptr) [
  | none ↦ break (dst ++ copy_rest left src_ptr)
  | some (front, c) ↦ push_front prop_name_max property_get (push_chars dst left front) c
]

-- `while (*src_ptr && left > 0)`
unfoldable pub expand_loop : ℕ → (Bytes → Option Bytes) → ℕ → Bytes → ℕ → Bytes → Outcome
expand_loop prop_name_max property_get zero dst left src_ptr = unfinished
expand_loop prop_name_max property_get (suc fuel) dst left [] = expanded dst
expand_loop prop_name_max property_get (suc fuel) dst zero src_ptr = expanded dst
expand_loop prop_name_max property_get (suc fuel) dst (suc left) (s ∷ src_ptr) =
    elim (round prop_name_max property_get dst (suc left) (s ∷ src_ptr)) [
      | go_on dst' left' src' ↦ expand_loop prop_name_max property_get fuel dst' left' src'
      | break dst' ↦ expanded dst'
      | error ↦ failed
    ]

-- The pointers are not null. Each round reads a dollar sign, so the bytes of `src` are enough fuel.
unfoldable pub expand_props : ℕ → (Bytes → Option Bytes) → Bytes → ℕ → Outcome
expand_props prop_name_max property_get src dst_size =
    if dst_size == 0
    then failed
    else expand_loop prop_name_max property_get (length src + 1) [] (dst_size - 1) src
