-- ===== src/Device/Events/Undo.antt =====
-- What a remove event takes away, and what an add event has made.
use asl.Base.{
  ℕ, ◌≡◌, refl, sym, ap, ◌∙◌, Bool, true, false, Option, none, some, List, [], ◌∷◌, ◌++◌, map,
  if◌then◌else◌, Holds, All, append-nil,
}
use asl.Base.Text.{Bytes, codes, str_eq, starts_with}
use asl.Device.{Uevent, parse_device_name}
use asl.Device.Rules.{
  Rules, Perms, Act, make_link, remove_link, unlink, make_device, fixup_sys_perms,
}
use asl.Device.Links.{parse_platform_block_device, get_character_device_symlinks}
use asl.Device.Node.{Place, handle_device, fit, generic_place}
use asl.Device.Events.{
  Handled, handle_block_device_event, handle_generic_device_event, handle_platform_device_event,
  handle_device_event, fixed, after_fixes, if_placed, if_named, at_place, if_block, block_links,
}
use asl.Device.Events.Quiet.{
  collect, node_of, link_of, removed_link_of, unlinked_of, Undoes, collect-append, Undoes-append,
  IsQuiet, Undoes-quiet, fixes-IsQuiet, IsQuietPlace, generic_place-IsQuietPlace, IsQuietLinks,
  links-IsQuietLinks,
}

made : Bytes → List Bytes → List Act
made devpath links = map (λ newpath. make_link devpath newpath) links

removed : Bytes → List Bytes → List Act
removed devpath links = map (λ newpath. remove_link devpath newpath) links

-- The links with what they lead to.
led : Bytes → List Bytes → List (Bytes × Bytes)
led devpath links = map (λ newpath. (devpath, newpath)) links

links_made :
    (devpath : Bytes) (links : List Bytes)
    → (collect link_of (made devpath links) ≡ led devpath links)
      × (collect node_of (made devpath links) ≡ [])
unfolding made led
links_made devpath [] = (refl, refl)
links_made devpath (l ∷ links) =
    let (h, k) = links_made devpath links in (ap (λ r. (devpath, l) ∷ r) h, k)

links_removed :
    (devpath : Bytes) (links : List Bytes)
    → (collect removed_link_of (removed devpath links) ≡ led devpath links)
      × (collect unlinked_of (removed devpath links) ≡ [])
unfolding removed led
links_removed devpath [] = (refl, refl)
links_removed devpath (l ∷ links) =
    let (h, k) = links_removed devpath links in (ap (λ r. (devpath, l) ∷ r) h, k)

handle_device-Undoes :
    (devpath : Bytes) (block : Bool) (major minor : ℕ) (links : List Bytes) (dev_perms : List Perms)
    → Undoes
        (handle_device (codes "remove") devpath block major minor links dev_perms)
        (handle_device (codes "add") devpath block major minor links dev_perms)
unfolding handle_device make_device str_eq made removed
handle_device-Undoes devpath block major minor links dev_perms =
    let (h, k) = links_made devpath links in
    let (h', k') = links_removed devpath links in
    (
      collect-append removed_link_of (removed devpath links) (unlink devpath ∷ [])
          ∙ append-nil (collect removed_link_of (removed devpath links))
          ∙ h'
          ∙ sym h
          ∙ ap (collect link_of) (sym (append-nil (made devpath links))),
      collect-append unlinked_of (removed devpath links) (unlink devpath ∷ [])
          ∙ ap (λ l. l ++ devpath ∷ []) k'
          ∙ ap (λ l. devpath ∷ l)
              (sym k ∙ ap (collect node_of) (sym (append-nil (made devpath links)))),
    )

-- The event with another action.
abbrev pub with_action : Bytes → Uevent → Uevent
with_action action uevent = record uevent { action = action }

-- Both are read to their end and the first undoes the second, or both read a null pointer.
abbrev pub BothUndo : Option (List Act) → Option (List Act) → Type 0
BothUndo none none = Unit
BothUndo (some removes) (some adds) = Undoes removes adds
BothUndo _ _ = ⊥

abbrev pub acts_of : Option Handled → Option (List Act)
acts_of none = none
acts_of (some (platform_names, acts)) = some acts

block-Undoes :
    (uevent : Uevent) (rules : Rules) (platform_names : List Bytes)
    → Undoes
        (handle_block_device_event (with_action (codes "remove") uevent) rules platform_names)
        (handle_block_device_event (with_action (codes "add") uevent) rules platform_names)
unfolding handle_block_device_event parse_device_name parse_platform_block_device
block-Undoes uevent rules platform_names = go (parse_device_name uevent 64)
  where
    go :
        (name : Option Bytes)
        → Undoes
            (if_block (with_action (codes "remove") uevent) rules platform_names name)
            (if_block (with_action (codes "add") uevent) rules platform_names name)
    go none = (refl, refl)
    go (some name) =
        handle_device-Undoes (fit (codes "/dev/block/" ++ name)) true uevent.major uevent.minor
          (block_links uevent platform_names) rules.dev_perms

generic-BothUndo :
    (uevent : Uevent) (rules : Rules)
    → BothUndo
        ((handle_generic_device_event (with_action (codes "remove") uevent) rules))
        ((handle_generic_device_event (with_action (codes "add") uevent) rules))
unfolding handle_generic_device_event parse_device_name generic_place get_character_device_symlinks
generic-BothUndo uevent rules = named (parse_device_name uevent 64)
  where
    after : Bytes → Uevent
    after action = with_action action uevent

    linked :
        (place : Place) (links : Option (List Bytes × List Act))
        → All IsQuiet place.1
        → Holds IsQuietLinks links
        → BothUndo
            ((at_place (after (codes "remove")) rules place links))
            ((at_place (after (codes "add")) rules place links))
    linked place none h k = tt
    linked place (some links) h k =
        Undoes-append place.1 place.1 _ _ (Undoes-quiet place.1 place.1 h h) (
          Undoes-append links.1 links.1 _ _ (Undoes-quiet links.1 links.1 k k)
            (handle_device-Undoes place.0 false uevent.major uevent.minor links.0 rules.dev_perms))

    placed :
        (place : Option Place)
        → IsQuietPlace place
        → BothUndo
            ((if_placed (after (codes "remove")) rules place))
            ((if_placed (after (codes "add")) rules place))
    placed none h = (refl, refl)
    placed (some place) h =
        linked place (get_character_device_symlinks uevent) h (links-IsQuietLinks uevent)

    named :
        (name : Option Bytes)
        → BothUndo
            ((if_named (after (codes "remove")) rules name))
            ((if_named (after (codes "add")) rules name))
    named none = (refl, refl)
    named (some name) = placed (generic_place uevent name) (generic_place-IsQuietPlace uevent name)

behind_fixes :
    (fixes : List Act) (names : List Bytes) (o o' : Option (List Act))
    → All IsQuiet fixes
    → BothUndo o o'
    → BothUndo (acts_of (after_fixes [] names o)) (acts_of (after_fixes fixes names o'))
behind_fixes fixes names none none h k = tt
behind_fixes fixes names none (some ads) h k = k
behind_fixes fixes names (some rs) none h k = k
behind_fixes fixes names (some rs) (some ads) h k =
    Undoes-append [] fixes rs ads (Undoes-quiet [] fixes tt h) k

-- A remove event takes away what the add event of the same device makes, as the rules and the platform
-- devices are: the links in the same order, each with what it leads to, and the device node, with the
-- same paths. One of the two reads a null pointer only if the other does.
pub handle_device_event-BothUndo :
    (uevent : Uevent) (rules : Rules) (platform_names : List Bytes)
    → BothUndo
        (acts_of (handle_device_event (with_action (codes "remove") uevent) rules platform_names))
        (acts_of (handle_device_event (with_action (codes "add") uevent) rules platform_names))
unfolding handle_device_event handle_platform_device_event str_eq
handle_device_event-BothUndo uevent rules platform_names =
    go (starts_with (codes "block") uevent.subsystem)
      (starts_with (codes "platform") uevent.subsystem)
  where
    handled : Bytes → Bool → Bool → Option Handled
    handled action block bus =
        let event = with_action action uevent in
        let fixes = fixed event rules in
        if block
        then after_fixes fixes platform_names
            (some (handle_block_device_event event rules platform_names))
        else if bus
        then some (handle_platform_device_event event platform_names, fixes)
        else after_fixes fixes platform_names (handle_generic_device_event event rules)

    fixes : List Act
    fixes = fixup_sys_perms uevent.path rules.sys_perms

    fixes_quiet : All IsQuiet fixes
    fixes_quiet = fixes-IsQuiet uevent.path rules.sys_perms

    go :
        (block bus : Bool)
        → BothUndo
            (acts_of (handled (codes "remove") block bus))
            (acts_of (handled (codes "add") block bus))
    go true bus =
        behind_fixes fixes platform_names
          (some
            (handle_block_device_event (with_action (codes "remove") uevent) rules platform_names))
          (some (handle_block_device_event (with_action (codes "add") uevent) rules platform_names))
          fixes_quiet (block-Undoes uevent rules platform_names)
    go false true = Undoes-quiet [] fixes tt fixes_quiet
    go false false =
        behind_fixes fixes platform_names
          (handle_generic_device_event (with_action (codes "remove") uevent) rules)
          (handle_generic_device_event (with_action (codes "add") uevent) rules) fixes_quiet
          (generic-BothUndo uevent rules)
