-- ===== src/Builtin/Exec.antt =====
-- The commands that run a program or load a module: `do_exec`, `do_log` and `do_insmod`.
pub mod Plain
use asl.Base.{
  ℕ, zero, suc, ◌+◌, ◌≤◌, ◌≡◌, Bool, true, false, Option, none, some, List, [], ◌∷◌, ◌++◌, ◌==◌,
  leb, ltb, if◌then◌else◌, length, map,
}
use asl.Base.Text.{Bytes, codes}
use asl.Expand.{Outcome, expanded, expand_props}

-- A word of a command, and whether its bytes may be written to; those of a string literal of the
-- program may not.
pub record Word : Type 0 where
  pub text : Bytes
  pub writable : Bool

abbrev pub literal : Bytes → Word
literal text = record { text = text; writable = false }

abbrev pub word : Bytes → Word
word text = record { text = text; writable = true }

-- The value, or the word itself where there is no such property.
abbrev or_else : Bytes → Option Bytes → Bytes
or_else old none = old
or_else old (some value) = value

abbrev pub max_parameters : ℕ
max_parameters = 64

-- How `do_exec` ends: with -1, with a write to a literal, or with the program run to its end, on
-- these arguments.
pub data Executed : Type 0 where
  too_many faulted : Executed
  ran : List Bytes → Executed

abbrev run_with : Option (List Bytes) → Executed
run_with none = faulted
run_with (some par) = ran par

-- `PROP_NAME_MAX`, `PROP_VALUE_MAX` and `property_get`.
module _ (prop_name_max prop_value_max : ℕ) (property_get : Bytes → Option Bytes) where
  -- The word behind the `strncpy` of its expansion, if there is one that is no longer than the word;
  -- none where a literal would be written to.
  abbrev pub overwritten : Word → Outcome → Option Bytes
  overwritten w (expanded prop_val) =
      if leb (length prop_val) (length w.text)
      then (if w.writable then some prop_val else none)
      else some w.text
  overwritten w _ = some w.text

  unfoldable pub expand_word : Word → Option Bytes
  expand_word w = overwritten w (expand_props prop_name_max property_get w.text prop_value_max)

  abbrev both : Option Bytes → Option (List Bytes) → Option (List Bytes)
  both none rest = none
  both (some w) none = none
  both (some w) (some ws) = some (w ∷ ws)

  unfoldable pub expand_words : List Word → Option (List Bytes)
  unfolding expand_word
  expand_words [] = some []
  expand_words (w ∷ ws) = both (expand_word w) (expand_words ws)

  unfoldable pub do_exec : List Word → Executed
  unfolding expand_words
  do_exec args =
      if ltb max_parameters (length args)
      then too_many
      else elim args [ [] ↦ run_with (some []) | name ∷ par ↦ run_with (expand_words par) ]

  -- The value of a word of `do_log`. A property's value stands in the property area, which init may
  -- write to.
  unfoldable pub log_word : Bytes → Word
  log_word [] = word []
  log_word (c ∷ []) = word (if c == b'$' then or_else (c ∷ []) (property_get []) else c ∷ [])
  log_word (c ∷ d ∷ cs) = word (
      if c == b'$'
      then (if d == b'$' then d ∷ cs else or_else (c ∷ d ∷ cs) (property_get (d ∷ cs)))
      else c ∷ d ∷ cs)

  -- The words behind the name of the command.
  unfoldable pub do_log : List Bytes → Executed
  unfolding do_exec log_word
  do_log args = do_exec (
      literal (codes "exec")
      ∷ literal (codes "/system/bin/log")
      ∷ literal (codes "-tinit")
      ∷ map log_word args)

-- The options of `do_insmod_inner`, with a blank between each and the next.
unfoldable pub insmod_options : List Bytes → Bytes
insmod_options [] = []
insmod_options (w ∷ []) = w
insmod_options (w ∷ v ∷ ws) = w ++ b' ' ∷ insmod_options (v ∷ ws)

-- The size that `do_insmod` finds for them.
unfoldable pub options_size : List Bytes → ℕ
options_size [] = 0
options_size (w ∷ ws) = length w + 1 + options_size ws
