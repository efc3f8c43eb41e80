-- ===== src/Device/Platform/Outermost.antt =====
-- Which platform device `find_platform_device` answers.
use asl.Base.{
  ℕ, ◌≤◌, ◌≡◌, refl, Bool, true, false, Option, none, some, List, [], ◌∷◌, ◌++◌, arith,
  if◌then◌else◌, if_elim, All, length, Holds, All-append,
}
use asl.Base.Text.{Bytes, str_eq}
use asl.Device.Platform.{
  is_subdevice, find_platform_device, add_platform_device, remove_last, remove_platform_device,
}
use asl.Device.Rules.{find_last}
use asl.Device.Platform.Below.{not_longer}

-- No device is in the list behind one that it is below.
abbrev pub Ordered : List Bytes → Type 0
Ordered [] = Unit
Ordered (bus ∷ buses) = All (λ later. is_subdevice later bus ≡ false) buses × Ordered buses

-- What is answered for a name: none if no device of the list has it below it, and else one that has,
-- and that is not longer than any other that has.
abbrev pub Outermost : Bytes → List Bytes → Option Bytes → Type 0
Outermost name buses none = All (λ bus. is_subdevice name bus ≡ false) buses
Outermost name buses (some found) =
    (is_subdevice name found ≡ true)
    × All (λ bus. is_subdevice name bus ≡ true → length found ≤ length bus) buses

find_last-none :
    (test : Bytes → Bool) (buses : List Bytes)
    → find_last test buses ≡ none
    → All (λ bus. test bus ≡ false) buses
find_last-none test [] h = tt
find_last-none test (bus ∷ buses) h = go (find_last test buses) (find_last-none test buses) refl
  where
    go :
        (o : Option Bytes)
        → (o ≡ none → All (λ b. test b ≡ false) buses)
        → find_last test buses ≡ o
        → (test bus ≡ false) × All (λ b. test b ≡ false) buses
    go none k e = (ground (arith, h, e), k refl)
    go (some b) k e = absurd (ground (arith, h, e))

add-Ordered :
    (name : Bytes) (buses : List Bytes)
    → All (λ bus. is_subdevice name bus ≡ false) buses
    → Ordered buses
    → Ordered (buses ++ name ∷ [])
add-Ordered name [] h k = (tt, tt)
add-Ordered name (bus ∷ buses) h k = (
  All-append (λ later. is_subdevice later bus ≡ false) buses (name ∷ []) k.0 (h.0, tt),
  add-Ordered name buses h.1 k.1,
)

find_last-Holds :
    (test : Bytes → Bool) (P : Bytes → Type 0) (buses : List Bytes)
    → All P buses
    → Holds P (find_last test buses)
find_last-Holds test P [] h = tt
find_last-Holds test P (bus ∷ buses) h =
    go (find_last test buses) (find_last-Holds test P buses h.1)
  where
    go :
        (o : Option Bytes)
        → Holds P o
        → Holds P (elim o [ some y ↦ some y | none ↦ if test bus then some bus else none ])
    go none k = if_elim (Holds P) (test bus) _ _ (λ e. h.0) (λ e. tt)
    go (some f) k = k

all_false :
    (name : Bytes) (n : ℕ) (buses : List Bytes)
    → All (λ bus. is_subdevice name bus ≡ false) buses
    → All (λ bus. is_subdevice name bus ≡ true → n ≤ length bus) buses
all_false name n [] h = tt
all_false name n (bus ∷ buses) h =
    (λ e. absurd (ground (arith, e, h.0)), all_false name n buses h.1)

find_last-Outermost :
    (name : Bytes) (buses : List Bytes)
    → Ordered buses
    → Outermost name buses (find_last (is_subdevice name) buses)
find_last-Outermost name [] h = tt
find_last-Outermost name (bus ∷ buses) h =
    go (find_last (is_subdevice name) buses) (find_last-Outermost name buses h.1)
      (find_last-Holds (is_subdevice name) (λ later. is_subdevice later bus ≡ false) buses h.0)
  where
    found : Option Bytes → Option Bytes
    found o = elim o [ some y ↦ some y | none ↦ if is_subdevice name bus then some bus else none ]

    go :
        (o : Option Bytes)
        → Outermost name buses o
        → Holds (λ f. is_subdevice f bus ≡ false) o
        → Outermost name (bus ∷ buses) (found o)
    go none k later =
        if_elim (Outermost name (bus ∷ buses)) (is_subdevice name bus) _ _
          (λ e. (e, (λ e'. omega arith, all_false name (length bus) buses k))) (λ e. (e, k))
    go (some f) k later = (k.0, (λ e. not_longer name f bus k.0 e later, k.1))

-- Removing the last element of a name keeps what holds of the elements, and their order.
All-remove_last :
    (P : Bytes → Type 0) (name : Bytes) (buses : List Bytes)
    → All P buses
    → Holds (All P) (remove_last name buses)
All-remove_last P name [] h = tt
All-remove_last P name (bus ∷ buses) h =
    go (remove_last name buses) (All-remove_last P name buses h.1)
  where
    go :
        (o : Option (List Bytes))
        → Holds (All P) o
        → Holds (All P) (elim o [
          | some rest ↦ some (bus ∷ rest)
          | none ↦ if str_eq name bus then some buses else none
        ])
    go none k = if_elim (Holds (All P)) (str_eq name bus) _ _ (λ e. h.1) (λ e. tt)
    go (some rest) k = (h.0, k)

remove_last-Ordered :
    (name : Bytes) (buses : List Bytes) → Ordered buses → Holds Ordered (remove_last name buses)
remove_last-Ordered name [] h = tt
remove_last-Ordered name (bus ∷ buses) h =
    go (remove_last name buses) (remove_last-Ordered name buses h.1)
      (All-remove_last (λ later. is_subdevice later bus ≡ false) name buses h.0)
  where
    go :
        (o : Option (List Bytes))
        → Holds Ordered o
        → Holds (All (λ later. is_subdevice later bus ≡ false)) o
        → Holds Ordered (elim o [
          | some rest ↦ some (bus ∷ rest)
          | none ↦ if str_eq name bus then some buses else none
        ])
    go none k l = if_elim (Holds Ordered) (str_eq name bus) _ _ (λ e. h.1) (λ e. tt)
    go (some rest) k l = (l, k)

-- The two events of a platform device.
pub data Change : Type 0 where
  added removed : Bytes → Change

-- The list after some events, from an empty one.
abbrev pub after : List Change → List Bytes → List Bytes
after [] buses = buses
after (added name ∷ changes) buses = after changes (add_platform_device name buses)
after (removed name ∷ changes) buses = after changes (remove_platform_device name buses)

after-Ordered :
    (changes : List Change) (buses : List Bytes) → Ordered buses → Ordered (after changes buses)
unfolding add_platform_device remove_platform_device
after-Ordered [] buses h = h
after-Ordered (added name ∷ changes) buses h =
    after-Ordered changes _
      (go (find_last (is_subdevice name) buses) (find_last-none (is_subdevice name) buses))
  where
    go :
        (o : Option Bytes)
        → (o ≡ none → All (λ bus. is_subdevice name bus ≡ false) buses)
        → Ordered (elim o [ none ↦ buses ++ name ∷ [] | some bus ↦ buses ])
    go none k = add-Ordered name buses (k refl) h
    go (some bus) k = h
after-Ordered (removed name ∷ changes) buses h =
    after-Ordered changes _ (go (remove_last name buses) (remove_last-Ordered name buses h))
  where
    go :
        (o : Option (List Bytes))
        → Holds Ordered o
        → Ordered (elim o [ none ↦ buses | some rest ↦ rest ])
    go none k = h
    go (some rest) k = k

-- After any platform devices were added and removed, `find_platform_device` answers the outermost
-- device of the list that has the name below it, and none only if there is no such device.
pub find_platform_device-Outermost :
    (changes : List Change) (name : Bytes)
    → Outermost name (after changes []) (find_platform_device name (after changes []))
unfolding find_platform_device
find_platform_device-Outermost changes name =
    find_last-Outermost name (after changes []) (after-Ordered changes [] tt)
