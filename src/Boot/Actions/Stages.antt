-- ===== src/Boot/Actions/Stages.antt =====
-- What one stage of the boot adds to the queue.
use asl.Base.{
  ℕ, ◌+◌, ◌<◌, ◌≡◌, ◌≢◌, refl, ap, ◌∙◌, Bool, true, List, [], ◌∷◌, ◌++◌, arith, if◌then◌else◌,
  length, length-append, All-append, if_elim,
}
use asl.Base.Text.{Bytes}
use asl.Parser.{Action}
use asl.Queue.{Cutils, Init, action_add_queue_tail, queue_where, queue_builtin_action}
use asl.Queue.Triggers.{action_for_each_trigger}
use asl.Queue.Order.{all_commands-append}
use asl.Boot.Actions.{Stage, trigger, built_in, named, stage_commands, all_stages}
use asl.Boot.Actions.Places.{
  places, places-below, queue_where-places, all_places-commands, all_commands_extended,
  last-commands, map-All,
}
use asl.Boot.Actions.Clearing.{
  stage_name, new_name, builtin_act, stages_extended, queue_stage, queued, Ready,
  add_trigger-AllClear, add_builtin-AllClear,
}

module _ (cutils : Cutils) where
  open cutils use {items, items-add_tail}

  queue_where-keeps :
      (test : Action → Bool) (i : ℕ) (actions : List Action) (s : Init cutils)
      → ((queue_where cutils test i actions s).action_list ≡ s.action_list)
        × ((queue_where cutils test i actions s).cur_action ≡ s.cur_action)
  unfolding queue_where action_add_queue_tail
  queue_where-keeps test i [] s = (refl, refl)
  queue_where-keeps test i (act ∷ actions) s =
      let ih =
        queue_where-keeps test (i + 1) actions
          (if test act then action_add_queue_tail cutils i s else s) in
      let same =
        if_elim
          (λ (r : Init cutils). (r.action_list ≡ s.action_list) × (r.cur_action ≡ s.cur_action))
          (test act) (action_add_queue_tail cutils i s) s (λ e. (refl, refl)) (λ e. (refl, refl)) in
      (ih.0 ∙ same.0, ih.1 ∙ same.1)

  -- A stage puts its commands behind those that are queued, and leaves the later stages theirs.
  abbrev pub Follows : Stage → List Stage → Init cutils → Init cutils → Type 0
  Follows st sts s s' =
      (queued cutils s' ≡ queued cutils s ++ stage_commands s.action_list st)
      × Ready cutils sts s'
      × (all_stages s'.action_list sts ≡ all_stages s.action_list sts)

  trigger-Follows :
      (t : Bytes) (sts : List Stage) (s : Init cutils)
      → new_name t sts ≡ true
      → Ready cutils (trigger t ∷ sts) s
      → Follows (trigger t) sts s (queue_stage cutils (trigger t) s)
  unfolding action_for_each_trigger
  trigger-Follows t sts s h (below, clear, none_now) = (
    rw (keeps.0, added)
        (all_commands-append cutils s.action_list (items s.action_queue)
            (places (named t) 0 s.action_list)
          ∙ ap (λ l. queued cutils s ++ l) (all_places-commands cutils (named t) s.action_list)),
    (
      rw (keeps.0, added)
          (All-append (λ j. j < length s.action_list) (items s.action_queue)
            (places (named t) 0 s.action_list) below (places-below (named t) s.action_list)),
      rw (keeps.0, added)
          (add_trigger-AllClear cutils t sts s.action_list (items s.action_queue) h clear.1),
      keeps.1 ∙ none_now,
    ),
    ap (λ l. all_stages l sts) keeps.0,
  )
    where
      s' : Init cutils
      s' = queue_where cutils (named t) 0 s.action_list s

      keeps : (s'.action_list ≡ s.action_list) × (s'.cur_action ≡ s.cur_action)
      keeps = queue_where-keeps (named t) 0 s.action_list s

      added : items s'.action_queue ≡ items s.action_queue ++ places (named t) 0 s.action_list
      added = queue_where-places cutils (named t) 0 s.action_list s clear.0

  built_in-Follows :
      (n : Bytes) (sts : List Stage) (s : Init cutils)
      → new_name n sts ≡ true
      → Ready cutils (built_in n ∷ sts) s
      → Follows (built_in n) sts s (queue_stage cutils (built_in n) s)
  unfolding queue_builtin_action action_add_queue_tail
  built_in-Follows n sts s h (below, clear, none_now) = (
    rw added (
        all_commands-append cutils extended (items s.action_queue) (length s.action_list ∷ [])
        ∙ rw
            (
              all_commands_extended cutils s.action_list (builtin_act n) (items s.action_queue)
                  below,
              last-commands cutils s.action_list (builtin_act n),
            )
            refl),
    (
      rw added (
          All-append (λ j. j < length extended) (items s.action_queue) (length s.action_list ∷ [])
            (map-All (λ j. j < length s.action_list) (λ j. j < length extended)
              (λ j k. omega (arith, longer, k)) (items s.action_queue) below)
            (omega (arith, longer), tt)),
      rw added (add_builtin-AllClear cutils n sts s.action_list (items s.action_queue) h clear),
      none_now,
    ),
    stages_extended s.action_list n sts h,
  )
    where
      extended : List Action
      extended = s.action_list ++ builtin_act n ∷ []

      longer : length extended ≡ length s.action_list + 1
      longer = length-append s.action_list (builtin_act n ∷ [])

      added :
          items (action_add_queue_tail cutils (length s.action_list) s).action_queue
          ≡ items s.action_queue ++ length s.action_list ∷ []
      added = items-add_tail (length s.action_list) s.action_queue (
          map-All (λ j. j < length s.action_list) (λ j. j ≢ length s.action_list)
            (λ j k e. ground (arith, k, e)) (items s.action_queue) below)

  pub stage-Follows :
      (st : Stage) (sts : List Stage) (s : Init cutils)
      → new_name (stage_name st) sts ≡ true
      → Ready cutils (st ∷ sts) s
      → Follows st sts s (queue_stage cutils st s)
  stage-Follows (trigger t) sts s h r = trigger-Follows t sts s h r
  stage-Follows (built_in n) sts s h r = built_in-Follows n sts s h r
