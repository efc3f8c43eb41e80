-- ===== src/Builtin/Modes.antt =====
-- The commands that change modes and owners: `do_chmod`, `do_chown` and `do_mkdir`.
pub mod Octal
use Prim.Native.Nat.{bit_or}
use asl.Base.{
  ℕ, zero, suc, ◌+◌, ◌-◌, ◌*◌, ◌/◌, ◌%◌, ◌≡◌, refl, Bool, true, false, ◌&&◌, Option, none, some,
  List, [], ◌∷◌, ◌++◌, ◌==◌, leb, if◌then◌else◌, if_elim, length,
}
use asl.Base.Text.{Bytes}
use asl.Number.{AndroidIdInfo, word, decode_uid, strtoul}
use asl.Util.{eexist}
use asl.Builtin.{arg, Ret, ok, failed, error}

-- What `lstat` tells: `st_mode`, or `errno`.
pub data Lstat : Type 0 where
  st_mode errno : ℕ → Lstat

-- What the kernel supplies: the files, and the calls on them. A call that succeeds gives none, and one
-- that fails gives `errno`.
pub record Inodes : Type 1 where
  pub Files : Type 0
  pub lstat : Bytes → Files → Lstat
  pub chmod : Bytes → ℕ → Files → Files × Option ℕ
  pub chown : Bytes → ℕ → ℕ → Files → Files × Option ℕ
  pub mkdir : Bytes → ℕ → Files → Files × Option ℕ

abbrev pub einval : ℕ
einval = 22

-- `S_ISLNK(mode)`: the type of the file is 0120000.
abbrev pub is_link : ℕ → Bool
is_link mode = (mode / 4096) % 16 == 10

-- The digits of the string in base 8, behind `mode`; a byte that is none gives -1.
unfoldable pub mode_digits : ℕ → Bytes → ℕ
mode_digits mode [] = mode
mode_digits mode (c ∷ s) =
    let rest = mode_digits ((mode * 8) % word + (c - b'0')) s in
    if leb b'0' c && leb c b'7' then rest else word - 1

unfoldable pub get_mode : Bytes → ℕ
unfolding mode_digits
get_mode s = mode_digits 0 s

-- `-errno` for a call that failed.
abbrev pub ret_of : Option ℕ → Ret
ret_of none = ok
ret_of (some e) = error e

module _ (inodes : Inodes) where
  open inodes use {Files, lstat, chmod, chown, mkdir}

  -- A call on a file that is no link.
  abbrev pub unless_link : Lstat → Files → Files × Option ℕ → Files × Option ℕ
  unless_link (errno e) f called = (f, some e)
  unless_link (st_mode mode) f called = if is_link mode then (f, some einval) else called

  -- `_chmod` and `_chown`, with `errno` where they give -1.
  unfoldable pub chmod_no_link : Bytes → ℕ → Files → Files × Option ℕ
  chmod_no_link path mode f = unless_link (lstat path f) f (chmod path mode f)

  unfoldable pub chown_no_link : Bytes → ℕ → ℕ → Files → Files × Option ℕ
  chown_no_link path uid gid f = unless_link (lstat path f) f (chown path uid gid f)

  unfoldable pub do_chmod : List Bytes → Files → Files × Ret
  unfolding get_mode chmod_no_link
  do_chmod args f =
      let done = chmod_no_link (arg args 2) (get_mode (arg args 1)) f in (done.0, ret_of done.1)

  -- `-1` for the id of the group that is not changed.
  unfoldable pub do_chown : List AndroidIdInfo → List Bytes → Files → Files × Ret
  unfolding chown_no_link
  do_chown android_ids args f =
      let user = decode_uid android_ids (arg args 1) in
      let two = chown_no_link (arg args 2) user (word - 1) f in
      let three = chown_no_link (arg args 3) user (decode_uid android_ids (arg args 2)) f in
      if length args == 3
      then (two.0, ret_of two.1)
      else if length args == 4
      then (three.0, ret_of three.1)
      else (f, failed)

  -- The mode and the owner of a directory that is there.
  abbrev pub chmod_if_there : Bytes → ℕ → Files × Option ℕ → Files × Option ℕ
  chmod_if_there path mode (f, none) = (f, none)
  chmod_if_there path mode (f, some e) =
      if e == eexist then chmod_no_link path mode f else (f, some e)

  abbrev pub chown_if_made : List AndroidIdInfo → List Bytes → Files × Option ℕ → Files × Ret
  chown_if_made android_ids args (f, some e) = (f, error e)
  chown_if_made android_ids args (f, none) =
      let uid = decode_uid android_ids (arg args 3) in
      let gid = if length args == 5 then decode_uid android_ids (arg args 4) else word - 1 in
      let owned = chown_no_link (arg args 1) uid gid f in
      if leb 4 (length args) then (owned.0, ret_of owned.1) else (f, ok)

  -- 0755 is 493.
  unfoldable pub do_mkdir : List AndroidIdInfo → List Bytes → Files → Files × Ret
  unfolding chmod_no_link chown_no_link
  do_mkdir android_ids args f =
      let mode = if leb 3 (length args) then (strtoul 8 (arg args 2)).0 else 493 in
      chown_if_made android_ids args (chmod_if_there (arg args 1) mode (mkdir (arg args 1) mode f))

  -- What a call does to a file that is a link.
  link-kept :
      (path : Bytes) (mode : ℕ) (f : Files) (called : Files × Option ℕ)
      → lstat path f ≡ st_mode mode
      → is_link mode ≡ true
      → unless_link (lstat path f) f called ≡ (f, some einval)
  link-kept path mode f called e h = rw e (rw h refl)

  -- `chmod` and `chown`, with and without a group, leave the files as they are and give -EINVAL where
  -- the path is a link.
  pub links_left :
      (android_ids : List AndroidIdInfo) (mode user group path : Bytes) (m : ℕ) (f : Files)
      → lstat path f ≡ st_mode m
      → is_link m ≡ true
      → (do_chmod (mode ∷ mode ∷ path ∷ []) f ≡ (f, error einval))
        × (do_chown android_ids (user ∷ user ∷ path ∷ []) f ≡ (f, error einval))
        × (do_chown android_ids (user ∷ user ∷ group ∷ path ∷ []) f ≡ (f, error einval))
  unfolding do_chmod do_chown chmod_no_link chown_no_link
  links_left android_ids mode user group path m f e h =
      (rw (e, h) refl, rw (e, h) refl, rw (e, h) refl)
