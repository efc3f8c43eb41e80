-- ===== src/Boot/Actions/Clearing.antt =====
-- That the stages of the boot queue different actions.
use asl.Base.{
  ℕ, ◌<◌, ◌≡◌, refl, sym, ap, subst, Bool, true, false, ◌&&◌, not, none, List, [], ◌∷◌, ◌++◌, arith,
  if◌then◌else◌, length, All, All-append, and_split,
}
use asl.Base.Text.{Bytes, str_eq, str_eq→eq}
use asl.Service.{Command, action_function}
use asl.Parser.{Action}
use asl.Queue.{Cutils, Init, queue_builtin_action}
use asl.Queue.Triggers.{action_for_each_trigger}
use asl.Queue.Order.{all_commands}
use asl.Boot.Actions.{Stage, trigger, built_in, commands_where, named, all_stages}
use asl.Boot.Actions.Places.{places, Clear, append-Clear, behind-Clear, places-Clear, map-All}

abbrev pub stage_name : Stage → Bytes
stage_name (trigger t) = t
stage_name (built_in n) = n

-- No later trigger has the name.
abbrev pub new_name : Bytes → List Stage → Bool
new_name n [] = true
new_name n (trigger t ∷ sts) = not (str_eq n t) && new_name n sts
new_name n (built_in m ∷ sts) = new_name n sts

abbrev pub distinct : List Stage → Bool
distinct [] = true
distinct (st ∷ sts) = new_name (stage_name st) sts && distinct sts

abbrev pub builtin_act : Bytes → Action
builtin_act n = record { name = n; commands = record { func = action_function n; args = [] } ∷ [] }

pub named-false : (t : Bytes) (act : Action) → not (str_eq act.name t) ≡ true → named t act ≡ false
named-false t act h = ground (arith, h)

pub apart-named :
    (t u : Bytes)
    → not (str_eq t u) ≡ true
    → (act : Action) → named t act ≡ true
    → named u act ≡ false
apart-named t u h act e =
    named-false u act
      (subst (λ (n : Bytes). not (str_eq n u) ≡ true) (sym (str_eq→eq act.name t e)) h)

pub commands_where_extended :
    (t : Bytes) (actions : List Action) (act : Action)
    → named t act ≡ false
    → commands_where (named t) (actions ++ act ∷ []) ≡ commands_where (named t) actions
commands_where_extended t [] act e = rw e refl
commands_where_extended t (a ∷ actions) act e =
    ap (λ l. if named t a then a.commands ++ l else l) (commands_where_extended t actions act e)

-- A function of init is no action of a later stage.
pub stages_extended :
    (actions : List Action) (n : Bytes) (sts : List Stage)
    → new_name n sts ≡ true
    → all_stages (actions ++ builtin_act n ∷ []) sts ≡ all_stages actions sts
stages_extended actions n [] h = refl
stages_extended actions n (trigger t ∷ sts) h =
    let both = and_split (not (str_eq n t)) (new_name n sts) h in
    rw
      (
        commands_where_extended t actions (builtin_act n) (named-false t (builtin_act n) both.0),
        stages_extended actions n sts both.1,
      )
      refl
stages_extended actions n (built_in m ∷ sts) h =
    ap (λ l. record { func = action_function m; args = [] } ∷ l) (stages_extended actions n sts h)

module _ (cutils : Cutils) where
  open cutils use {items, items-add_tail}

  abbrev pub queue_stage : Stage → Init cutils → Init cutils
  queue_stage (trigger t) s = action_for_each_trigger cutils t s
  queue_stage (built_in n) s = queue_builtin_action cutils n s

  abbrev pub queue_stages : List Stage → Init cutils → Init cutils
  queue_stages [] s = s
  queue_stages (st ∷ sts) s = queue_stages sts (queue_stage st s)

  abbrev pub queued : Init cutils → List Command
  queued s = all_commands cutils s.action_list (items s.action_queue)

  -- What is at the places of the queue is of no trigger that is still to come.
  abbrev pub AllClear : List Stage → List Action → List ℕ → Type 0
  AllClear [] actions js = Unit
  AllClear (trigger t ∷ sts) actions js =
      All (Clear (named t) 0 actions) js × AllClear sts actions js
  AllClear (built_in n ∷ sts) actions js = AllClear sts actions js

  abbrev pub Ready : List Stage → Init cutils → Type 0
  Ready sts s =
      All (λ j. j < length s.action_list) (items s.action_queue)
      × AllClear sts s.action_list (items s.action_queue)
      × (s.cur_action ≡ none)

  pub add_trigger-AllClear :
      (t : Bytes) (sts : List Stage) (actions : List Action) (js : List ℕ)
      → new_name t sts ≡ true
      → AllClear sts actions js
      → AllClear sts actions (js ++ places (named t) 0 actions)
  add_trigger-AllClear t [] actions js h c = tt
  add_trigger-AllClear t (trigger u ∷ sts) actions js h c =
      let both = and_split (not (str_eq t u)) (new_name t sts) h in
      (
        All-append (Clear (named u) 0 actions) js (places (named t) 0 actions) c.0
            (places-Clear (named t) (named u) (apart-named t u both.0) 0 actions),
        add_trigger-AllClear t sts actions js both.1 c.1,
      )
  add_trigger-AllClear t (built_in n ∷ sts) actions js h c =
      add_trigger-AllClear t sts actions js h c

  pub add_builtin-AllClear :
      (n : Bytes) (sts : List Stage) (actions : List Action) (js : List ℕ)
      → new_name n sts ≡ true
      → AllClear sts actions js
      → AllClear sts (actions ++ builtin_act n ∷ []) (js ++ length actions ∷ [])
  add_builtin-AllClear n [] actions js h c = tt
  add_builtin-AllClear n (trigger u ∷ sts) actions js h c =
      let both = and_split (not (str_eq n u)) (new_name n sts) h in
      let no = named-false u (builtin_act n) both.0 in
      (
        All-append (Clear (named u) 0 (actions ++ builtin_act n ∷ [])) js (length actions ∷ [])
            (map-All (Clear (named u) 0 actions) (Clear (named u) 0 (actions ++ builtin_act n ∷ []))
              (λ j k. append-Clear (named u) 0 actions (builtin_act n) j no k) js c.0)
            (
              append-Clear (named u) 0 actions (builtin_act n) (length actions) no
                  (behind-Clear (named u) 0 actions (length actions) (omega arith)),
              tt,
            ),
        add_builtin-AllClear n sts actions js both.1 c.1,
      )
  add_builtin-AllClear n (built_in m ∷ sts) actions js h c =
      add_builtin-AllClear n sts actions js h c
