-- ===== src/Util.antt =====
-- The rest of system/core/init/util.c: directories and links, the files of /proc, and waiting.
pub mod Proc
pub mod Mtd
pub mod Parents
pub mod Waiting
pub mod Words
pub mod Partitions
pub mod Table
pub mod Fits
pub mod Insecure
mod Tests
use asl.Base.{
  ℕ, zero, suc, ◌+◌, ◌≡◌, Bool, true, false, ◌&&◌, ◌||◌, Option, none, some, List, [], ◌∷◌, ◌++◌,
  ◌==◌, leb, ltb, if◌then◌else◌, length, take,
}
use asl.Base.Text.{Bytes, str_eq, is_alnum}

-- `EEXIST`
abbrev pub eexist : ℕ
eexist = 17

-- What the kernel supplies: the file system, with the calls on it. `entry` tells whether there is
-- anything at a path, a link that leads nowhere included, while `stat` follows links. The result of
-- a call is none where the call returns 0, and `errno` where it fails.
pub record FileSystem : Type 1 where
  pub Files : Type 0
  pub entry : Bytes → Files → Bool
  pub stat : Bytes → Files → Bool
  pub mkdir : Bytes → ℕ → Files → Files × Option ℕ
  pub symlink : Bytes → Bytes → Files → Files × Option ℕ
  pub readlink : Bytes → Files → Option Bytes
  pub unlink : Bytes → Files → Files
  pub stat-entry : (p : Bytes) (f : Files) → stat p f ≡ true → entry p f ≡ true
  pub mkdir_made :
      (p : Bytes) (mode : ℕ) (f : Files)
      → (mkdir p mode f).1 ≡ none
      → entry p (mkdir p mode f).0 ≡ true
  pub mkdir_exists :
      (p : Bytes) (mode : ℕ) (f : Files)
      → (mkdir p mode f).1 ≡ some eexist
      → entry p (mkdir p mode f).0 ≡ true
  pub mkdir_keeps :
      (p q : Bytes) (mode : ℕ) (f : Files) → entry q f ≡ true → entry q (mkdir p mode f).0 ≡ true

-- `!(ret && errno != EEXIST)`
abbrev pub made_or_there : Option ℕ → Bool
made_or_there none = true
made_or_there (some errno) = errno == eexist

-- `strrchr(s, c)`: what stands before the last `c`, and what stands behind it.
unfoldable pub split_at_last : ℕ → Bytes → Option (Bytes × Bytes)
split_at_last c [] = none
split_at_last c (x ∷ xs) = elim (split_at_last c xs) [
  | some (a, b) ↦ some (x ∷ a, b)
  | none ↦ if x == c then some ([], xs) else none
]

-- What is left of the string: the 0 is written over the first byte that is no letter or digit.
unfoldable pub sanitize : Bytes → Bytes
sanitize [] = []
sanitize (c ∷ cs) = let rest = sanitize cs in if is_alnum c then c ∷ rest else []

module _ (fs : FileSystem) where
  open fs use {Files, stat, mkdir, symlink, readlink, unlink}

  -- The body of the loop of `mkdir_recursive` for the bytes before a slash.
  unfoldable pub mkdir_before : Bytes → ℕ → Files → Files × Bool
  mkdir_before [] mode f = (f, true)
  mkdir_before (c ∷ cs) mode f =
      let made = mkdir (c ∷ cs) mode f in
      if ltb 127 (length (c ∷ cs))
      then (f, false)
      else if stat (c ∷ cs) f
      then (f, true)
      else (made.0, made_or_there made.1)

  -- The loop, byte by byte, with the bytes before `p`; the result is whether it comes to its end.
  unfoldable pub mkdir_parents : Bytes → Bytes → ℕ → Files → Files × Bool
  unfolding mkdir_before
  mkdir_parents before [] mode f = (f, true)
  mkdir_parents before (c ∷ p) mode f =
      let here = if c == b'/' then mkdir_before before mode f else (f, true) in
      let rest = mkdir_parents (before ++ c ∷ []) p mode here.0 in
      if here.1 then rest else (here.0, false)

  -- The result is `true` for 0.
  unfoldable pub mkdir_recursive : Bytes → ℕ → Files → Files × Bool
  unfolding mkdir_parents
  mkdir_recursive pathname mode f =
      let parents = mkdir_parents [] pathname mode f in
      let made = mkdir pathname mode parents.0 in
      if parents.1 then (made.0, made_or_there made.1) else (parents.0, false)

  -- 0755 is 493.
  unfoldable pub make_link : Bytes → Bytes → Files → Files
  unfolding split_at_last mkdir_recursive
  make_link oldpath newpath f = elim (split_at_last b'/' newpath) [
    | none ↦ f
    | some (buf, rest) ↦
        if leb (length buf) 0 || ltb 255 (length buf)
        then f
        else (symlink oldpath newpath (mkdir_recursive buf 493 f).0).0
  ]

  -- `readlink` puts no more than 255 bytes into `path`; an empty answer returns as an error does.
  unfoldable pub remove_link : Bytes → Bytes → Files → Files
  remove_link oldpath newpath f = elim (readlink newpath f) [
    | none ↦ f
    | some target ↦
        let path = take 255 target in
        if leb (length path) 0 then f else if str_eq path oldpath then unlink newpath f else f
  ]

-- The clock and the file at the time of each turn of the loop of `wait_for_file`.
pub record Watch : Type 0 where
  pub gettime : ℕ → ℕ
  pub stat : ℕ → Bool

-- The loop from a turn on, on fuel: none where the fuel ends, and otherwise whether `stat` succeeded.
unfoldable pub wait_turns : ℕ → Watch → ℕ → ℕ → Option Bool
wait_turns zero watch timeout_time i = none
wait_turns (suc fuel) watch timeout_time i =
    let rest = wait_turns fuel watch timeout_time (suc i) in
    if ltb (watch.gettime i) timeout_time
    then (if watch.stat i then some true else rest)
    else some false

-- `now` is what the first `gettime` gives.
unfoldable pub wait_for_file : ℕ → Watch → ℕ → ℕ → Option Bool
unfolding wait_turns
wait_for_file fuel watch now timeout = wait_turns fuel watch (now + timeout) 0
