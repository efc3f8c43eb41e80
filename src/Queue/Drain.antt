-- ===== src/Queue/Drain.antt =====
-- That the main loop executes every command that is pending.
use asl.Base.{
  ℕ, zero, suc, ◌+◌, ◌-◌, ◌<◌, ◌≤◌, ◌≡◌, refl, sym, ap, ◌∙◌, true, false, Option, none, some, List,
  [], ◌∷◌, ◌++◌, append-nil, arith, ltb, if_elim, length, length-append, get_elem?, ◌⊎◌, inl, inr,
}
use asl.Service.{Command}
use asl.Queue.{
  Cutils, Init, commands_at, get_first_command, get_next_command, is_last_command, next_action,
  choose, current, execute_one_command,
}
use asl.Queue.Order.{
  Turn, execute, listed, pending, all_commands, enqueued, Apart, run_turns, run_turns_in_order,
  execute_one_command-Executes,
}

abbrev pub turns : ℕ → List Turn
turns zero = []
turns (suc n) = execute ∷ turns n

-- The pointer leads to one of the commands.
abbrev pub IsPlaced : List Command → Option ℕ → Type 0
IsPlaced commands none = Unit
IsPlaced commands (some cmd) = cmd < length commands

get_first_command-IsPlaced :
    (commands : List Command) → IsPlaced commands (get_first_command commands)
unfolding get_first_command
get_first_command-IsPlaced [] = tt
get_first_command-IsPlaced (c ∷ commands) = omega arith

get_elem-some :
    (commands : List Command) (i : ℕ)
    → i < length commands
    → (c : Command) × (get_elem? commands i ≡ some c)
get_elem-some [] i h = absurd (ground arith)
get_elem-some (c ∷ commands) zero h = (c, refl)
get_elem-some (c ∷ commands) (suc i) h = get_elem-some commands i (omega (arith, h))

module _ (cutils : Cutils) where
  open cutils use {items, list_remove, items-remove}

  -- `cur_command` points to a command of `cur_action`.
  abbrev pub IsAt : Option ℕ → Option ℕ → Init cutils → Type 0
  IsAt none cmd s = Unit
  IsAt (some act) cmd s = IsPlaced (commands_at cutils act s) cmd

  -- The commands and the actions that are waiting.
  abbrev pub weight : Init cutils → ℕ
  weight s = length (pending cutils s) + length (items s.action_queue)

  -- A turn takes an action from the queue, or it executes a command and leaves the queue, or nothing
  -- is waiting.
  abbrev Moves : Init cutils → Init cutils → Type 0
  Moves s s' =
      IsAt s'.cur_action s'.cur_command s'
      × ((suc (length (items s'.action_queue)) ≡ length (items s.action_queue))
          ⊎ ((items s'.action_queue ≡ items s.action_queue)
              × (((items s.action_queue ≡ []) × (s'.cur_action ≡ none))
                  ⊎ ((c : Command) × (current cutils s'.cur_action s'.cur_command s' ≡ some c)))))

  next_action-Moves :
      (s : Init cutils) (is : List ℕ)
      → items s.action_queue ≡ is
      → Moves s (next_action cutils is s)
  unfolding next_action
  next_action-Moves s [] e = (tt, inr (refl, inl (e, refl)))
  next_action-Moves s (act ∷ acts) e = (
    get_first_command-IsPlaced (commands_at cutils act s),
    inl (rw (items-remove act acts s.action_queue e, e) refl),
  )

  next_command-Moves :
      (s : Init cutils) (act cmd : ℕ)
      → s.cur_action ≡ some act
      → cmd < length (commands_at cutils act s)
      → is_last_command (commands_at cutils act s) cmd ≡ false
      → Moves s (record s { cur_command = get_next_command (commands_at cutils act s) cmd })
  unfolding get_next_command is_last_command
  next_command-Moves s act cmd e h last =
      rw (more, e)
        (
          ground (arith, h, last),
          inr (
            refl,
            inr (get_elem-some (commands_at cutils act s) (cmd + 1) (ground (arith, h, last))),
          ),
        )
    where
      more : ltb (cmd + 1) (length (commands_at cutils act s)) ≡ true
      more = ground (arith, h, last)

  choose-Moves :
      (s : Init cutils) (a c : Option ℕ)
      → s.cur_action ≡ a
      → IsAt a c s
      → Moves s (choose cutils a c s)
  unfolding choose
  choose-Moves s none c e h = next_action-Moves s (items s.action_queue) refl
  choose-Moves s (some act) none e h = next_action-Moves s (items s.action_queue) refl
  choose-Moves s (some act) (some cmd) e h =
      if_elim (Moves s) (is_last_command (commands_at cutils act s) cmd) _ _
        (λ l. next_action-Moves s (items s.action_queue) refl)
        (λ l. next_command-Moves s act cmd e h l)

  turn-Moves :
      (s : Init cutils)
      → IsAt s.cur_action s.cur_command s
      → Moves s (execute_one_command cutils s).0
        × ((execute_one_command cutils s).1
            ≡ current cutils
                (execute_one_command cutils s).0.cur_action
                (execute_one_command cutils s).0.cur_command
                (execute_one_command cutils s).0)
  unfolding execute_one_command
  turn-Moves s h = (choose-Moves s s.cur_action s.cur_command refl h, refl)

  no_more : (s : Init cutils) → items s.action_queue ≡ [] → s.cur_action ≡ none → weight s ≡ 0
  no_more s e n = rw (e, n) refl

  listed-length : (o : Option Command) (c : Command) → o ≡ some c → length (listed o) ≡ 1
  listed-length none c h = cc h
  listed-length (some d) c h = refl

  turn-weight :
      (s : Init cutils)
      → IsAt s.cur_action s.cur_command s
      → weight (execute_one_command cutils s).0 ≤ weight s - 1
  turn-weight s h = go (turn-Moves s h).0.1
    where
      s' : Init cutils
      s' = (execute_one_command cutils s).0

      out : Option Command
      out = (execute_one_command cutils s).1

      lengths : length (pending cutils s) ≡ length (listed out) + length (pending cutils s')
      lengths =
          ap length (execute_one_command-Executes cutils s).1
          ∙ length-append (listed out) (pending cutils s')

      go :
          (suc (length (items s'.action_queue)) ≡ length (items s.action_queue))
            ⊎ ((items s'.action_queue ≡ items s.action_queue)
                × (((items s.action_queue ≡ []) × (s'.cur_action ≡ none))
                    ⊎ ((c : Command) × (current cutils s'.cur_action s'.cur_command s' ≡ some c))))
          → weight s' ≤ weight s - 1
      go (inl e) = omega (arith, e, lengths)
      go (inr (same, inl (e, n))) = omega (arith, no_more s' (same ∙ e) n)
      go (inr (same, inr (c, e))) =
          omega (arith, lengths, ap length same, listed-length out c ((turn-Moves s h).1 ∙ e))

  turns-weight :
      (n : ℕ) (s : Init cutils)
      → IsAt s.cur_action s.cur_command s
      → weight (run_turns cutils (turns n) s).0 ≤ weight s - n
  unfolding run_turns
  turns-weight zero s h = omega arith
  turns-weight (suc n) s h =
      omega (
        arith,
        turn-weight s h,
        turns-weight n (execute_one_command cutils s).0 (turn-Moves s h).0.0,
      )

  turns-Apart : (n : ℕ) (s : Init cutils) → Apart cutils (turns n) s
  turns-Apart zero s = tt
  turns-Apart (suc n) s = turns-Apart n (execute_one_command cutils s).0

  turns-enqueued : (n : ℕ) → enqueued cutils (turns n) ≡ []
  turns-enqueued zero = refl
  turns-enqueued (suc n) = turns-enqueued n

  is_empty : (cs : List Command) → length cs ≡ 0 → cs ≡ []
  is_empty [] h = refl
  is_empty (c ∷ cs) h = absurd (ground arith)

  -- If the loop of `main` takes as many turns as there are commands and queued actions waiting, and no
  -- action is queued meanwhile, it executes every command that was pending, in order, and none is left.
  pub turns-drain :
      (n : ℕ) (s : Init cutils)
      → IsAt s.cur_action s.cur_command s
      → weight s ≤ n
      → ((run_turns cutils (turns n) s).1 ≡ pending cutils s)
        × (pending cutils (run_turns cutils (turns n) s).0 ≡ [])
  turns-drain n s h enough = (
    sym (append-nil (run_turns cutils (turns n) s).1)
        ∙ ap (λ l. (run_turns cutils (turns n) s).1 ++ l) (sym nothing)
        ∙ run_turns_in_order cutils (turns n) s (turns-Apart n s)
        ∙ ap (λ l. pending cutils s ++ all_commands cutils s.action_list l) (turns-enqueued n)
        ∙ append-nil (pending cutils s),
    nothing,
  )
    where
      nothing : pending cutils (run_turns cutils (turns n) s).0 ≡ []
      nothing =
          is_empty (pending cutils (run_turns cutils (turns n) s).0)
            (omega (arith, enough, turns-weight n s h))
