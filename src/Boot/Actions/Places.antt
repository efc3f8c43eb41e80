-- ===== src/Boot/Actions/Places.antt =====
-- The places of `action_list` that a trigger queues.
use asl.Base.{
  ℕ, zero, suc, ◌+◌, ◌<◌, ◌≤◌, ◌≡◌, ◌≢◌, refl, sym, ap, ◌∙◌, Bool, true, false, some, List, [], ◌∷◌,
  ◌++◌, append-nil, append_assoc, arith, if◌then◌else◌, if_elim, length, length-append, get_elem?,
  All, All-append,
}
use asl.Parser.{Action}
use asl.Queue.{Cutils, Init, action_add_queue_tail, queue_where}
use asl.Queue.Order.{all_commands}
use asl.Boot.Actions.{commands_where}

abbrev pub places : (Action → Bool) → ℕ → List Action → List ℕ
places test i [] = []
places test i (act ∷ actions) =
    let rest = places test (i + 1) actions in if test act then i ∷ rest else rest

-- No action from the place `i` on that passes the test is at `j`.
abbrev pub Clear : (Action → Bool) → ℕ → List Action → ℕ → Type 0
Clear test i [] j = Unit
Clear test i (act ∷ actions) j = (test act ≡ true → j ≢ i) × Clear test (i + 1) actions j

pub before-Clear :
    (test : Action → Bool) (i : ℕ) (actions : List Action) (j : ℕ) → j < i → Clear test i actions j
before-Clear test i [] j h = tt
before-Clear test i (act ∷ actions) j h =
    ((λ t e. ground (arith, h, e)), before-Clear test (i + 1) actions j (omega (arith, h)))

pub append-Clear :
    (test : Action → Bool) (i : ℕ) (actions : List Action) (act : Action) (j : ℕ)
    → test act ≡ false
    → Clear test i actions j
    → Clear test i (actions ++ act ∷ []) j
append-Clear test i [] act j f h = ((λ t. absurd (ground (arith, f, t))), tt)
append-Clear test i (a ∷ actions) act j f h = (h.0, append-Clear test (i + 1) actions act j f h.1)

-- A place behind the list.
pub behind-Clear :
    (test : Action → Bool) (i : ℕ) (actions : List Action) (j : ℕ)
    → i + length actions ≤ j
    → Clear test i actions j
behind-Clear test i [] j h = tt
behind-Clear test i (act ∷ actions) j h =
    ((λ t e. ground (arith, h, e)), behind-Clear test (i + 1) actions j (omega (arith, h)))

abbrev Within : ℕ → ℕ → ℕ → Type 0
Within i n j = (i ≤ j) × (j < i + n)

pub map-All {ℓ κ μ} :
    {A : Type ℓ} (P : A → Type κ) (Q : A → Type μ)
    → ((x : A) → P x → Q x)
    → (xs : List A) → All P xs
    → All Q xs
map-All P Q f [] h = tt
map-All P Q f (x ∷ xs) h = (f x h.0, map-All P Q f xs h.1)

places-Within :
    (test : Action → Bool) (i : ℕ) (actions : List Action)
    → All (Within i (length actions)) (places test i actions)
places-Within test i [] = tt
places-Within test i (act ∷ actions) =
    let rest =
      map-All (Within (i + 1) (length actions)) (Within i (suc (length actions)))
        (λ j w. (omega (arith, w.0), omega (arith, w.1))) (places test (i + 1) actions)
        (places-Within test (i + 1) actions) in
    if_elim (All (Within i (suc (length actions)))) (test act) _ _
      (λ e. ((omega arith, omega arith), rest)) (λ e. rest)

pub places-below :
    (test : Action → Bool) (actions : List Action)
    → All (λ j. j < length actions) (places test 0 actions)
places-below test actions =
    map-All (Within 0 (length actions)) (λ j. j < length actions) (λ j w. omega (arith, w.1))
      (places test 0 actions) (places-Within test 0 actions)

-- What one test queues is clear for a test that no action passes together with it.
pub places-Clear :
    (test other : Action → Bool)
    → ((act : Action) → test act ≡ true → other act ≡ false)
    → (i : ℕ) (actions : List Action) → All (Clear other i actions) (places test i actions)
places-Clear test other apart i [] = tt
places-Clear test other apart i (act ∷ actions) =
    let rest =
      later (places test (i + 1) actions) (places-Within test (i + 1) actions)
        (places-Clear test other apart (i + 1) actions) in
    if_elim (All (Clear other i (act ∷ actions))) (test act) _ _
      (λ e. (
        (
          (λ o. absurd (ground (arith, o, apart act e))),
          before-Clear other (i + 1) actions i (omega arith),
        ),
        rest,
      ))
      (λ e. rest)
  where
    later :
        (js : List ℕ)
        → All (Within (i + 1) (length actions)) js
        → All (Clear other (i + 1) actions) js
        → All (Clear other i (act ∷ actions)) js
    later [] w c = tt
    later (j ∷ js) w c = (((λ o e. ground (arith, w.0.0, e)), c.0), later js w.1 c.1)

if_both {ℓ κ} :
    {A : Type ℓ} {B : Type κ} (f : A → B) (b : Bool) {x y : A} {u v : B}
    → f x ≡ u
    → f y ≡ v
    → f (if b then x else y) ≡ (if b then u else v)
if_both f true p q = p
if_both f false p q = q

module _ (cutils : Cutils) where
  open cutils use {items, items-add_tail}

  -- A loop over the actions adds the places of those that pass its test.
  pub queue_where-places :
      (test : Action → Bool) (i : ℕ) (actions : List Action) (s : Init cutils)
      → All (Clear test i actions) (items s.action_queue)
      → items (queue_where cutils test i actions s).action_queue
        ≡ items s.action_queue ++ places test i actions
  unfolding queue_where action_add_queue_tail
  queue_where-places test i [] s h = sym (append-nil (items s.action_queue))
  queue_where-places test i (act ∷ actions) s h =
      go (λ r. queue_where-places test (i + 1) actions r) (test act) refl
    where
      Rest : Init cutils → Type 0
      Rest r =
          All (Clear test (i + 1) actions) (items r.action_queue)
          → items (queue_where cutils test (i + 1) actions r).action_queue
            ≡ items r.action_queue ++ places test (i + 1) actions

      later : All (Clear test (i + 1) actions) (items s.action_queue)
      later =
          map-All (Clear test i (act ∷ actions)) (Clear test (i + 1) actions) (λ j c. c.1)
            (items s.action_queue) h

      go :
          ((r : Init cutils) → Rest r)
          → (b : Bool) → test act ≡ b
          → items
              (queue_where cutils test
                (i + 1)
                actions
                (if b then action_add_queue_tail cutils i s else s)).action_queue
            ≡ items s.action_queue
              ++ (if b then i ∷ places test (i + 1) actions else places test (i + 1) actions)
      go ih false e = ih s later
      go ih true e =
          ih (action_add_queue_tail cutils i s) (
            rw added (
              All-append (Clear test (i + 1) actions) (items s.action_queue) (i ∷ []) later
                (before-Clear test (i + 1) actions i (omega arith), tt)))
          ∙ ap (λ l. l ++ places test (i + 1) actions) added
          ∙ append_assoc (items s.action_queue) (i ∷ []) (places test (i + 1) actions)
        where
          added :
              items (action_add_queue_tail cutils i s).action_queue ≡ items s.action_queue ++ i ∷ []
          added = items-add_tail i s.action_queue (
              map-All (Clear test i (act ∷ actions)) (λ j. j ≢ i) (λ j c. c.0 e)
                (items s.action_queue) h)

  get-behind {ℓ} :
      {A : Type ℓ} (front : List A) (a : A) (xs : List A)
      → get_elem? (front ++ a ∷ xs) (length front) ≡ some a
  get-behind [] a xs = refl
  get-behind (x ∷ front) a xs = get-behind front a xs

  -- The commands at those places.
  places-commands :
      (test : Action → Bool) (front actions : List Action)
      → all_commands cutils (front ++ actions) (places test (length front) actions)
        ≡ commands_where test actions
  places-commands test front [] = refl
  places-commands test front (act ∷ actions) =
      if_both (all_commands cutils (front ++ act ∷ actions)) (test act)
        (rw (get-behind front act actions, rest (places-commands test (front ++ act ∷ []) actions))
          refl)
        (rest (places-commands test (front ++ act ∷ []) actions))
    where
      rest :
          all_commands cutils
              ((front ++ act ∷ []) ++ actions)
              (places test (length (front ++ act ∷ [])) actions)
            ≡ commands_where test actions
          → all_commands cutils (front ++ act ∷ actions) (places test (length front + 1) actions)
            ≡ commands_where test actions
      rest ih =
          ap (λ n. all_commands cutils (front ++ act ∷ actions) (places test n actions))
            (sym (length-append front (act ∷ [])))
          ∙ ap (λ l. all_commands cutils l (places test (length (front ++ act ∷ [])) actions))
              (sym (append_assoc front (act ∷ []) actions))
          ∙ ih

  pub all_places-commands :
      (test : Action → Bool) (actions : List Action)
      → all_commands cutils actions (places test 0 actions) ≡ commands_where test actions
  all_places-commands test actions = places-commands test [] actions

  -- Actions that come later change nothing for the places before them.
  pub all_commands_extended :
      (actions : List Action) (act : Action) (js : List ℕ)
      → All (λ j. j < length actions) js
      → all_commands cutils (actions ++ act ∷ []) js ≡ all_commands cutils actions js
  all_commands_extended actions act [] h = refl
  all_commands_extended actions act (j ∷ js) h =
      rw (get-before actions j h.0, all_commands_extended actions act js h.1) refl
    where
      get-before :
          (xs : List Action) (j : ℕ) → j < length xs → get_elem? (xs ++ act ∷ []) j ≡ get_elem? xs j
      get-before [] j k = absurd (ground (arith, k))
      get-before (x ∷ xs) zero k = refl
      get-before (x ∷ xs) (suc j) k = get-before xs j (omega (arith, k))

  pub last-commands :
      (actions : List Action) (act : Action)
      → all_commands cutils (actions ++ act ∷ []) (length actions ∷ []) ≡ act.commands
  last-commands actions act = rw (get-behind actions act []) (append-nil act.commands)
