-- ===== src/Queue.antt =====
-- Actions at work: the queue and the triggers of init_parser.c, and `execute_one_command` of
-- init.c.
pub mod Order
pub mod Drain
pub mod Triggers
pub mod Match
pub mod Tests
use asl.Base.{
  ℕ, zero, suc, ◌+◌, ◌≡◌, ◌≢◌, Bool, true, false, ◌&&◌, ◌||◌, Option, none, some, List, [], ◌∷◌,
  ◌++◌, ◌==◌, ltb, if◌then◌else◌, length, get_elem?, drop, All,
}
use asl.Base.Text.{Bytes, codes, str_eq, starts_with, split_at}
use asl.Service.{Command, action_function}
use asl.Parser.{Action}

-- What libcutils supplies: a list with a head node, whose items are places in `action_list`. A node
-- is in one place of one list only, so nothing is known of the addition of a node that is there.
pub record Cutils : Type 1 where
  pub Ring : Type 0
  pub items : Ring → List ℕ
  pub list_add_tail : ℕ → Ring → Ring
  pub list_remove : Ring → Ring
  pub items-add_tail :
      (i : ℕ) (ring : Ring)
      → All (λ j. j ≢ i) (items ring)
      → items (list_add_tail i ring) ≡ items ring ++ i ∷ []
  pub items-remove :
      (i : ℕ) (is : List ℕ) (ring : Ring) → items ring ≡ i ∷ is → items (list_remove ring) ≡ is

abbrev pub commands_of : Option Action → List Command
commands_of none = []
commands_of (some act) = act.commands

unfoldable pub get_first_command : List Command → Option ℕ
get_first_command [] = none
get_first_command (cmd ∷ commands) = some 0

unfoldable pub get_next_command : List Command → ℕ → Option ℕ
get_next_command commands cmd = if ltb (cmd + 1) (length commands) then some (cmd + 1) else none

unfoldable pub is_last_command : List Command → ℕ → Bool
is_last_command commands cmd = cmd + 1 == length commands

-- What the pointer leads to.
abbrev pub command_at : List Command → Option ℕ → Option Command
command_at commands none = none
command_at commands (some cmd) = get_elem? commands cmd

module _ (cutils : Cutils) where
  open cutils use {Ring, items, list_add_tail, list_remove}

  -- `action_list`, `action_queue`, `cur_action` and `cur_command`, which is a place in the commands
  -- of `cur_action`.
  pub record Init : Type 0 where
    pub action_list : List Action
    pub action_queue : Ring
    pub cur_action : Option ℕ
    pub cur_command : Option ℕ

  unfoldable pub action_add_queue_tail : ℕ → Init → Init
  action_add_queue_tail act s = record s { action_queue = list_add_tail act s.action_queue }

  -- The commands of the action at a place.
  abbrev pub commands_at : ℕ → Init → List Command
  commands_at act s = commands_of (get_elem? s.action_list act)

  -- `action_remove_queue_head` and the first command of what it gives.
  unfoldable pub next_action : List ℕ → Init → Init
  unfolding get_first_command
  next_action [] s = record s { cur_action = none; cur_command = none }
  next_action (act ∷ acts) s = record s {
    action_queue = list_remove s.action_queue;
    cur_action = some act;
    cur_command = get_first_command (commands_at act s);
  }

  -- The choice of the next command, from `cur_action` and `cur_command`.
  unfoldable pub choose : Option ℕ → Option ℕ → Init → Init
  unfolding next_action get_next_command is_last_command
  choose (some act) (some cmd) s =
      if is_last_command (commands_at act s) cmd
      then next_action (items s.action_queue) s
      else record s { cur_command = get_next_command (commands_at act s) cmd }
  choose _ _ s = next_action (items s.action_queue) s

  abbrev pub current : Option ℕ → Option ℕ → Init → Option Command
  current none cmd s = none
  current (some act) cmd s = command_at (commands_at act s) cmd

  -- The state in which the command's function is called, and the command, or none where the
  -- function returns without one.
  unfoldable pub execute_one_command : Init → Init × Option Command
  unfolding choose
  execute_one_command s =
      let s' = choose s.cur_action s.cur_command s in (s', current s'.cur_action s'.cur_command s')

  -- `queue_builtin_action`, with the function named by its action; the command has no words.
  unfoldable pub queue_builtin_action : Bytes → Init → Init
  unfolding action_add_queue_tail
  queue_builtin_action action_name s = action_add_queue_tail (length s.action_list) (record s {
    action_list =
        s.action_list
        ++ record {
          name = action_name;
          commands = record { func = action_function action_name; args = [] } ∷ [];
        }
          ∷ [];
  })

  -- The loops over `action_list` that queue the actions which pass a test, from a place on.
  unfoldable pub queue_where : (Action → Bool) → ℕ → List Action → Init → Init
  unfolding action_add_queue_tail
  queue_where test i [] s = s
  queue_where test i (act ∷ actions) s =
      queue_where test (i + 1) actions (if test act then action_add_queue_tail i s else s)
