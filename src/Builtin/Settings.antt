-- ===== src/Builtin/Settings.antt =====
-- The commands on properties and actions: `do_setprop`, `do_write`, `do_trigger`, `do_mount_all`,
-- `do_load_persist_props` and `do_wait`.
pub mod Setprop
use asl.Base.{
  ℕ, ◌+◌, Bool, true, false, Option, none, some, List, [], ◌∷◌, ◌==◌, if◌then◌else◌, length,
}
use asl.Base.Text.{Bytes, codes}
use asl.Builtin.{arg, Ret, ok, failed, error}
use asl.Builtin.Modes.{einval}
use asl.Builtin.Copy.{write_file}
use asl.Expand.{Outcome, expanded, expand_props}
use asl.Props.{Bionic, Props, property_get, property_set}
use asl.Props.Load.{Entry, load_persist_props}
use asl.Queue.{Cutils, Init}
use asl.Queue.Triggers.{action_for_each_trigger}
use asl.Util.{Watch, wait_for_file}

-- `COMMAND_RETRY_TIMEOUT`
abbrev pub command_retry_timeout : ℕ
command_retry_timeout = 5

module _ (bionic : Bionic) where
  open bionic use {prop_name_max, prop_value_max}

  -- The value of a word, with the properties as they are.
  abbrev pub expansion : Bytes → Props → Outcome
  expansion value s = expand_props prop_name_max (λ n. property_get bionic n s) value prop_value_max

  abbrev set_expanded : Bytes → Outcome → Props → Props × Ret
  set_expanded name (expanded prop_val) s = ((property_set bionic name prop_val s).0, ok)
  set_expanded name _ s = (s, error einval)

  unfoldable pub do_setprop : List Bytes → Props → Props × Ret
  do_setprop args s = set_expanded (arg args 1) (expansion (arg args 2) s) s

  abbrev write_expanded : Outcome → Option ℕ → List (Option ℕ) → Option (Bytes × Ret)
  write_expanded (expanded prop_val) opened answers = elim (write_file opened answers) [
    | none ↦ none
    | some ret ↦ some (prop_val, ret)
  ]
  write_expanded _ opened answers = some ([], error einval)

  -- The bytes that `do_write` writes, and what it returns, for the answers of `open` and `write`.
  unfoldable pub do_write : List Bytes → Props → Option ℕ → List (Option ℕ) → Option (Bytes × Ret)
  unfolding write_file
  do_write args s opened answers = write_expanded (expansion (arg args 2) s) opened answers

  unfoldable pub do_load_persist_props : List Bytes → Option (List Entry) → Props → Props × Ret
  do_load_persist_props args entries s =
      if length args == 1 then (load_persist_props bionic entries s, ok) else (s, failed)

  module _ (cutils : Cutils) where
    unfoldable pub do_trigger : List Bytes → Init cutils → Init cutils
    do_trigger args init = action_for_each_trigger cutils (arg args 1) init

    -- The properties and actions behind the answer of the child process.
    abbrev pub mounted : ℕ → Props → Init cutils → Props × Init cutils
    mounted ret s init =
        let set = λ (n v : Bytes) (t : Props). (property_set bionic n v t).0 in
        if ret == 1
        then (
          set (codes "vold.decrypt") (codes "1")
              (set (codes "ro.crypto.state") (codes "encrypted") s),
          init,
        )
        else if ret == 0
        then (
          set (codes "ro.crypto.state") (codes "unencrypted") s,
          action_for_each_trigger cutils (codes "nonencrypted") init,
        )
        else (s, init)

    -- The exit status of the child, or none where `fork` fails or the child does not exit.
    unfoldable pub do_mount_all : List Bytes → Option ℕ → Props → Init cutils → Props × Init cutils
    do_mount_all args none s init = (s, init)
    do_mount_all args (some ret) s init = if length args == 2 then mounted ret s init else (s, init)

-- `do_wait`: whether the file is there, or none for a wrong number of words.
unfoldable pub do_wait : ℕ → Watch → ℕ → List Bytes → Option (Option Bool)
do_wait fuel watch now args =
    if length args == 2 then some (wait_for_file fuel watch now command_retry_timeout) else none
