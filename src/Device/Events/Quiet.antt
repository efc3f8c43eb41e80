-- ===== src/Device/Events/Quiet.antt =====
-- What the acts of an event make and remove, and the acts that do neither.
use asl.Base.{
  ℕ, ◌+◌, ◌≡◌, refl, sym, ap, ◌∙◌, Option, none, some, List, [], ◌∷◌, ◌++◌, if_elim, ltb, ◌&&◌,
  ◌==◌, length, drop, Holds, All, append_assoc,
}
use asl.Base.Text.{Bytes, codes, str_eq, starts_with, split_at}
use asl.Device.{Uevent}
use asl.Device.Rules.{
  Perms, Act, mknod, make_link, remove_link, unlink, fixup_sys_perms, attr_of, name_matches,
}
use asl.Device.Links.{
  get_character_device_symlinks, usb_interface, usb_link, links_behind, platform,
}
use asl.Device.Node.{
  Place, fit, build_directories, named_usb, numbered_usb, place_in, usb_place, base_of, bases,
  generic_place,
}

-- What the acts give in order: the paths of the nodes that are made, the links that are made with what
-- they lead to, and those that are taken away.
abbrev pub collect {ℓ} : {A : Type ℓ} → (Act → List A) → List Act → List A
collect f [] = []
collect f (act ∷ acts) = f act ++ collect f acts

abbrev pub node_of : Act → List Bytes
node_of (mknod path mode major minor) = path ∷ []
node_of _ = []

abbrev pub link_of : Act → List (Bytes × Bytes)
link_of (make_link oldpath newpath) = (oldpath, newpath) ∷ []
link_of _ = []

abbrev pub removed_link_of : Act → List (Bytes × Bytes)
removed_link_of (remove_link oldpath newpath) = (oldpath, newpath) ∷ []
removed_link_of _ = []

abbrev pub unlinked_of : Act → List Bytes
unlinked_of (unlink path) = path ∷ []
unlinked_of _ = []

abbrev pub Undoes : List Act → List Act → Type 0
Undoes removes adds =
    (collect removed_link_of removes ≡ collect link_of adds)
    × (collect unlinked_of removes ≡ collect node_of adds)

pub collect-append {ℓ} :
    {A : Type ℓ} (f : Act → List A) (xs ys : List Act)
    → collect f (xs ++ ys) ≡ collect f xs ++ collect f ys
collect-append f [] ys = refl
collect-append f (x ∷ xs) ys =
    ap (λ l. f x ++ l) (collect-append f xs ys)
    ∙ sym (append_assoc (f x) (collect f xs) (collect f ys))

pub Undoes-append :
    (rs ads rs' ads' : List Act)
    → Undoes rs ads
    → Undoes rs' ads'
    → Undoes (rs ++ rs') (ads ++ ads')
Undoes-append rs ads rs' ads' (h, k) (h', k') = (
  rw (collect-append removed_link_of rs rs', collect-append link_of ads ads', h, h') refl,
  rw (collect-append unlinked_of rs rs', collect-append node_of ads ads', k, k') refl,
)

-- An act that makes or removes neither a node nor a link.
abbrev pub IsQuiet : Act → Type 0
IsQuiet act =
    (node_of act ≡ []) × (link_of act ≡ []) × (removed_link_of act ≡ []) × (unlinked_of act ≡ [])

abbrev pub AreQuiet : List Act → Type 0
AreQuiet acts =
    (collect node_of acts ≡ [])
    × (collect link_of acts ≡ [])
    × (collect removed_link_of acts ≡ [])
    × (collect unlinked_of acts ≡ [])

pub quiet : (acts : List Act) → All IsQuiet acts → AreQuiet acts
quiet [] h = (refl, refl, refl, refl)
quiet (act ∷ acts) ((a, b, c, d), h) =
    let (e, f, g, i) = quiet acts h in
    (rw (a, e) refl, rw (b, f) refl, rw (c, g) refl, rw (d, i) refl)

pub Undoes-quiet : (rs ads : List Act) → All IsQuiet rs → All IsQuiet ads → Undoes rs ads
Undoes-quiet rs ads h k =
    let (a, b, c, d) = quiet rs h in let (e, f, g, i) = quiet ads k in (c ∙ sym f, d ∙ sym e)

pub fixes-IsQuiet :
    (upath : Bytes) (sys_perms : List Perms) → All IsQuiet (fixup_sys_perms upath sys_perms)
unfolding fixup_sys_perms
fixes-IsQuiet upath [] = tt
fixes-IsQuiet upath (dp ∷ sys_perms) =
    if_elim (All IsQuiet) (name_matches dp.prefix (drop 4 dp.name) upath) _ _
      (λ e.
        if_elim (All IsQuiet) (ltb 512 (length upath + length (attr_of dp) + 6)) _ _ (λ f. tt)
          (λ f.
            ((refl, refl, refl, refl), ((refl, refl, refl, refl), fixes-IsQuiet upath sys_perms))))
      (λ e. fixes-IsQuiet upath sys_perms)

pub directories-IsQuiet : (before p : Bytes) → All IsQuiet (build_directories before p)
unfolding build_directories
directories-IsQuiet before [] = tt
directories-IsQuiet before (c ∷ p) =
    if_elim (All IsQuiet) (c == b'/') _ _
      (λ e. ((refl, refl, refl, refl), directories-IsQuiet (before ++ c ∷ []) p))
      (λ e. directories-IsQuiet (before ++ c ∷ []) p)

pub place_in-IsQuiet :
    (subsystem name : Bytes) (base : Option Bytes) → All IsQuiet (place_in subsystem name base).1
place_in-IsQuiet subsystem name (some base) = ((refl, refl, refl, refl), tt)
place_in-IsQuiet subsystem name none =
    if_elim (λ (r : Place). All IsQuiet r.1)
      (starts_with (codes "misc") subsystem && starts_with (codes "log_") name) _ _
      (λ e. ((refl, refl, refl, refl), tt)) (λ e. tt)

pub usb_place-IsQuiet :
    (minor : ℕ) (device_name : Option Bytes) → All IsQuiet (usb_place minor device_name).1
unfolding named_usb numbered_usb
usb_place-IsQuiet minor (some device_name) =
    directories-IsQuiet (codes "/dev/") (drop 5 (fit (codes "/dev/" ++ device_name)))
usb_place-IsQuiet minor none =
    ((refl, refl, refl, refl), ((refl, refl, refl, refl), ((refl, refl, refl, refl), tt)))

abbrev pub IsQuietPlace : Option Place → Type 0
IsQuietPlace = Holds (λ (place : Place). All IsQuiet place.1)

pub generic_place-IsQuietPlace :
    (uevent : Uevent) (name : Bytes) → IsQuietPlace (generic_place uevent name)
unfolding generic_place
generic_place-IsQuietPlace uevent name =
    if_elim IsQuietPlace (starts_with (codes "usb") uevent.subsystem) _ _
      (λ e.
        if_elim IsQuietPlace (str_eq uevent.subsystem (codes "usb")) _ _
          (λ f. usb_place-IsQuiet uevent.minor uevent.device_name) (λ f. tt))
      (λ e. place_in-IsQuiet uevent.subsystem name (base_of uevent.subsystem bases))

abbrev pub IsQuietLinks : List Bytes × List Act → Type 0
IsQuietLinks links = All IsQuiet links.1

pub links-IsQuietLinks :
    (uevent : Uevent) → Holds IsQuietLinks (get_character_device_symlinks uevent)
unfolding get_character_device_symlinks
links-IsQuietLinks uevent =
    if_elim (Holds IsQuietLinks) (starts_with platform uevent.path) _ _
      (λ e. behind (split_at b'/' (drop 18 uevent.path))) (λ e. tt)
  where
    usb : (interface : Option Bytes) → IsQuietLinks (usb_link uevent.subsystem interface)
    usb none = tt
    usb (some interface) = ((refl, refl, refl, refl), tt)

    behind : (s : Option (Bytes × Bytes)) → Holds IsQuietLinks (links_behind uevent.subsystem s)
    behind none = tt
    behind (some (driver, parent)) =
        if_elim IsQuietLinks (starts_with (codes "usb") parent) _ _
          (λ e. usb (usb_interface parent)) (λ e. tt)
