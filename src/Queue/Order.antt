-- ===== src/Queue/Order.antt =====
-- The order in which `execute_one_command` runs the commands of the queued actions.
use asl.Base.{
  ℕ, zero, suc, ◌+◌, ◌≡◌, ◌≢◌, refl, sym, ap, ◌∙◌, true, false, Option, none, some, List, [], ◌∷◌,
  ◌++◌, append-nil, append_assoc, arith, ltb, if_elim, length, get_elem?, drop, All,
}
use asl.Service.{Command}
use asl.Parser.{Action}
use asl.Queue.{
  Cutils, Init, action_add_queue_tail, command_at, commands_of, commands_at, get_first_command,
  get_next_command, is_last_command, next_action, choose, current, execute_one_command,
}

-- What happens to the queue: an action is queued, or the main loop executes a command.
pub data Turn : Type 0 where
  enqueue : ℕ → Turn
  execute : Turn

abbrev pub listed {ℓ} : {A : Type ℓ} → Option A → List A
listed none = []
listed (some a) = a ∷ []

drop-get {ℓ} :
    {A : Type ℓ} (xs : List A) (i : ℕ) → drop i xs ≡ listed (get_elem? xs i) ++ drop (suc i) xs
drop-get [] zero = refl
drop-get [] (suc i) = refl
drop-get (x ∷ xs) zero = refl
drop-get (x ∷ xs) (suc i) = drop-get xs i

drop_all {ℓ} : {A : Type ℓ} (xs : List A) (i : ℕ) → ltb i (length xs) ≡ false → drop i xs ≡ []
drop_all [] zero h = refl
drop_all [] (suc i) h = refl
drop_all (x ∷ xs) zero h = absurd (ground arith)
drop_all (x ∷ xs) (suc i) h = drop_all xs i (ground arith)

-- The commands behind a pointer.
abbrev behind : List Command → Option ℕ → List Command
behind commands none = []
behind commands (some cmd) = drop (suc cmd) commands

split : (xs now later more : List Command) → xs ≡ now ++ later → xs ++ more ≡ now ++ (later ++ more)
split xs now later more eq = ap (λ l. l ++ more) eq ∙ append_assoc now later more

from_first :
    (commands : List Command)
    → commands
      ≡ listed (command_at commands (get_first_command commands))
        ++ behind commands (get_first_command commands)
unfolding get_first_command
from_first [] = refl
from_first (cmd ∷ commands) = refl

from_next :
    (commands : List Command) (cmd : ℕ)
    → drop (suc cmd) commands
      ≡ listed (command_at commands (get_next_command commands cmd))
        ++ behind commands (get_next_command commands cmd)
unfolding get_next_command
from_next commands cmd =
    if_elim
      (λ (o : Option ℕ).
        drop (suc cmd) commands ≡ listed (command_at commands o) ++ behind commands o)
      (ltb (cmd + 1) (length commands)) _ _
      (λ e.
        drop-get commands (suc cmd)
        ∙ ap (λ i. listed (get_elem? commands i) ++ drop (suc i) commands) (omega arith))
      (λ e. drop_all commands (suc cmd) (ground (arith, e)))

module _ (cutils : Cutils) where
  open cutils use {items, list_add_tail, list_remove, items-add_tail, items-remove}

  -- The commands of the actions at some places, in order.
  abbrev pub all_commands : List Action → List ℕ → List Command
  all_commands actions [] = []
  all_commands actions (act ∷ acts) =
      commands_of (get_elem? actions act) ++ all_commands actions acts

  abbrev pub rest_of : List Action → Option ℕ → Option ℕ → List Command
  rest_of actions none cmd = []
  rest_of actions (some act) cmd = behind (commands_of (get_elem? actions act)) cmd

  -- What is left of the current action, and the commands of the queued actions.
  abbrev pub pending : Init cutils → List Command
  pending s =
      rest_of s.action_list s.cur_action s.cur_command
      ++ all_commands s.action_list (items s.action_queue)

  -- The state and the executed commands after some turns.
  unfoldable pub run_turns : List Turn → Init cutils → Init cutils × List Command
  run_turns [] s = (s, [])
  run_turns (enqueue act ∷ turns) s = run_turns turns (action_add_queue_tail cutils act s)
  run_turns (execute ∷ turns) s =
      let now = execute_one_command cutils s in
      let later = run_turns turns now.0 in (later.0, listed now.1 ++ later.1)

  -- No action is queued while it is in the queue.
  abbrev pub Apart : List Turn → Init cutils → Type 0
  Apart [] s = Unit
  Apart (enqueue act ∷ turns) s =
      All (λ j. j ≢ act) (items s.action_queue) × Apart turns (action_add_queue_tail cutils act s)
  Apart (execute ∷ turns) s = Apart turns (execute_one_command cutils s).0

  -- The places that the turns queue.
  abbrev pub enqueued : List Turn → List ℕ
  enqueued [] = []
  enqueued (enqueue act ∷ turns) = act ∷ enqueued turns
  enqueued (execute ∷ turns) = enqueued turns

  abbrev Executes : Init cutils → Init cutils → Type 0
  Executes s s' =
      (s'.action_list ≡ s.action_list)
      × (pending s ≡ listed (current cutils s'.cur_action s'.cur_command s') ++ pending s')

  next_action-Executes :
      (s : Init cutils) (acts : List ℕ)
      → items s.action_queue ≡ acts
      → rest_of s.action_list s.cur_action s.cur_command ≡ []
      → Executes s (next_action cutils acts s)
  unfolding next_action
  next_action-Executes s [] e r = (refl, rw (r, e) refl)
  next_action-Executes s (act ∷ acts) e r = (
    refl,
    rw (r, e)
        (rw (items-remove act acts s.action_queue e) (
          split _ _ _ (all_commands s.action_list acts)
            (from_first (commands_of (get_elem? s.action_list act))))),
  )

  choose-Executes : (s : Init cutils) → Executes s (choose cutils s.cur_action s.cur_command s)
  unfolding choose
  choose-Executes s = go s.cur_action s.cur_command refl refl
    where
      done :
          rest_of s.action_list s.cur_action s.cur_command ≡ []
          → Executes s (next_action cutils (items s.action_queue) s)
      done r = next_action-Executes s (items s.action_queue) refl r

      go :
          (a c : Option ℕ) → s.cur_action ≡ a → s.cur_command ≡ c → Executes s (choose cutils a c s)
      go none c ea ec = done (rw ea refl)
      go (some act) none ea ec = done (rw (ea, ec) refl)
      go (some act) (some cmd) ea ec =
          if_elim (Executes s) (is_last_command (commands_at cutils act s) cmd) _ _
            (λ e. done (rw (ea, ec) (drop_all (commands_at cutils act s) (suc cmd) (last e))))
            (λ e. (
              refl,
              rw (ea, ec)
                  (split _ _ _ (all_commands s.action_list (items s.action_queue))
                    (from_next (commands_at cutils act s) cmd)),
            ))
        where
          last :
              is_last_command (commands_at cutils act s) cmd ≡ true
              → ltb (suc cmd) (length (commands_at cutils act s)) ≡ false
          last e = unfold is_last_command in ground (arith, e)

  pub execute_one_command-Executes :
      (s : Init cutils)
      → ((execute_one_command cutils s).0.action_list ≡ s.action_list)
        × (pending s
            ≡ listed (execute_one_command cutils s).1 ++ pending (execute_one_command cutils s).0)
  unfolding execute_one_command
  execute_one_command-Executes s = choose-Executes s

  pub all_commands-append :
      (actions : List Action) (xs ys : List ℕ)
      → all_commands actions (xs ++ ys) ≡ all_commands actions xs ++ all_commands actions ys
  all_commands-append actions [] ys = refl
  all_commands-append actions (x ∷ xs) ys =
      ap (λ l. commands_of (get_elem? actions x) ++ l) (all_commands-append actions xs ys)
      ∙ sym (
          append_assoc (commands_of (get_elem? actions x)) (all_commands actions xs)
            (all_commands actions ys))

  -- Queueing puts the action's commands behind all that is pending.
  enqueue-pending :
      (act : ℕ) (s : Init cutils)
      → All (λ j. j ≢ act) (items s.action_queue)
      → pending (action_add_queue_tail cutils act s) ≡ pending s ++ commands_at cutils act s
  unfolding action_add_queue_tail
  enqueue-pending act s apart = rw (items-add_tail act s.action_queue apart) (
      rw (all_commands-append s.action_list (items s.action_queue) (act ∷ [])) (
        rw append-nil (
          sym (
            append_assoc (rest_of s.action_list s.cur_action s.cur_command)
              (all_commands s.action_list (items s.action_queue)) (commands_at cutils act s)))))

  -- Over any turns, if no action is queued while it is in the queue, the commands that are executed,
  -- followed by those that are then pending, are the commands that were pending, followed by those
  -- of the actions that were queued, in the order in which they were.
  pub run_turns_in_order :
      (turns : List Turn) (s : Init cutils)
      → Apart turns s
      → (run_turns turns s).1 ++ pending (run_turns turns s).0
        ≡ pending s ++ all_commands s.action_list (enqueued turns)
  unfolding run_turns action_add_queue_tail
  run_turns_in_order [] s apart = sym (append-nil (pending s))
  run_turns_in_order (enqueue act ∷ turns) s apart =
      run_turns_in_order turns (action_add_queue_tail cutils act s) apart.1
      ∙ rw (enqueue-pending act s apart.0) (
          append_assoc (pending s) (commands_at cutils act s)
            (all_commands s.action_list (enqueued turns)))
  run_turns_in_order (execute ∷ turns) s apart =
      append_assoc (listed now.1) (run_turns turns now.0).1 (pending (run_turns turns now.0).0)
      ∙ ap (λ l. listed now.1 ++ l) (run_turns_in_order turns now.0 apart)
      ∙ ap (λ l. listed now.1 ++ (pending now.0 ++ all_commands l (enqueued turns))) executes.0
      ∙ sym (
          split (pending s) (listed now.1) (pending now.0)
            (all_commands s.action_list (enqueued turns)) executes.1)
    where
      now : Init cutils × Option Command
      now = execute_one_command cutils s

      executes : (now.0.action_list ≡ s.action_list) × (pending s ≡ listed now.1 ++ pending now.0)
      executes = execute_one_command-Executes s
