-- ===== src/Builtin/Mount/Device.antt =====
-- The loop device and the options that `do_mount` comes to.
use asl.Base.{
  ℕ, ◌+◌, ◌≡◌, refl, ap, ◌∙◌, Bool, true, false, ◌&&◌, Option, none, some, List, [], ◌∷◌, ◌++◌,
  arith, length, All,
}
use asl.Base.Text.{Bytes, codes, str_eq, starts_with}
use asl.Number.{decimal}
use asl.Builtin.Mount.{
  LoopDevice, find_loop, mount_source, do_mount, Mounting, MountWords, mount_words, no_words,
  flag_of, mount_flags,
}

-- A device that opens and does not take the file.
abbrev pub IsBusy : LoopDevice → Type 0
IsBusy device = (device.opens ≡ true) × ((device.blank && device.takes) ≡ false)

find_loop-first :
    (n : ℕ) (busy : List LoopDevice) (device : LoopDevice) (rest : List LoopDevice)
    → All IsBusy busy
    → device.opens ≡ true
    → (device.blank && device.takes) ≡ true
    → find_loop n (busy ++ device ∷ rest) ≡ some (n + length busy)
unfolding find_loop
find_loop-first n [] device rest h o t = rw (o, t) (ap some (omega arith))
find_loop-first n (d ∷ busy) device rest h o t =
    rw (h.0.0, h.0.1) (find_loop-first (n + 1) busy device rest h.1 o t ∙ ap some (omega arith))

-- A word that is neither a flag nor `wait`.
abbrev pub IsOption : Bytes → Type 0
IsOption word = (flag_of word mount_flags ≡ none) × (str_eq word (codes "wait") ≡ false)

mount_words-last :
    (words : List Bytes) (last : Bytes) (m : MountWords)
    → IsOption last
    → (mount_words (words ++ last ∷ []) m).options ≡ some last
unfolding mount_words
mount_words-last [] last m h = rw (h.0, h.1) refl
mount_words-last (word ∷ words) last m h = mount_words-last words last _ h

-- `mount` of a `loop@` source mounts the first loop device that opens, is blank and takes the file,
-- where all devices before it open, and passes on the last word as options if it is neither a flag
-- nor `wait`.
pub do_mount-loop :
    (mtd_name_to_number : Bytes → Option ℕ) (opens : Bytes → Bool) (busy rest : List LoopDevice)
    (device : LoopDevice) (name system file target last : Bytes) (words : List Bytes)
    → opens file ≡ true
    → All IsBusy busy
    → device.opens ≡ true
    → (device.blank && device.takes) ≡ true
    → IsOption last
    → (m : Mounting) × (do_mount mtd_name_to_number opens
          (busy ++ device ∷ rest)
          (name ∷ system ∷ (codes "loop@" ++ file) ∷ target ∷ (words ++ last ∷ []))
        ≡ some m)
      × (m.source ≡ codes "/dev/block/loop" ++ decimal (length busy))
      × (m.target ≡ target)
      × (m.system ≡ system)
      × (m.options ≡ some last)
unfolding do_mount mount_source starts_with
do_mount-loop mtd_name_to_number opens busy rest device name system file target last words o h d t
      l =
    (
      record {
        source = codes "/dev/block/loop" ++ decimal (length busy);
        target = target;
        system = system;
        flags = (mount_words (words ++ last ∷ []) no_words).flags;
        options = (mount_words (words ++ last ∷ []) no_words).options;
      },
      rw (o, find_loop-first 0 busy device rest h d t ∙ ap some zero_plus) refl,
      refl,
      refl,
      refl,
      mount_words-last words last no_words l,
    )
  where
    zero_plus : 0 + length busy ≡ length busy
    zero_plus = omega arith
