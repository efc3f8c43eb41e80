-- ===== src/Util/Parents.antt =====
-- What is there when `mkdir_recursive` reports success.
use asl.Base.{
  false, List, All, ◌&&◌, and_split, ℕ, ◌≡◌, refl, ◌∙◌, Bool, true, Option, none, some, [], ◌∷◌,
  ◌++◌, arith, ◌==◌, if◌then◌else◌, if_elim, ap, ==_iff,
}
use asl.Base.Text.{Bytes}
use asl.Util.{FileSystem, eexist, made_or_there, mkdir_before, mkdir_parents, mkdir_recursive}

abbrev pub is_nonempty : Bytes → Bool
is_nonempty [] = false
is_nonempty (c ∷ cs) = true

-- What of a path has a slash behind it and is not empty, with the bytes before `p`.
abbrev pub directories : Bytes → Bytes → List Bytes
directories before [] = []
directories before (c ∷ p) =
    let rest = directories (before ++ c ∷ []) p in
    if c == b'/' && is_nonempty before then before ∷ rest else rest

module _ (fs : FileSystem) where
  open fs use {Files, entry, stat, mkdir, stat-entry, mkdir_made, mkdir_exists, mkdir_keeps}

  mkdir-entry :
      (p : Bytes) (mode : ℕ) (f : Files)
      → made_or_there (mkdir p mode f).1 ≡ true
      → entry p (mkdir p mode f).0 ≡ true
  mkdir-entry p mode f h = go (mkdir p mode f).1 refl h
    where
      go :
          (r : Option ℕ)
          → (mkdir p mode f).1 ≡ r
          → made_or_there r ≡ true
          → entry p (mkdir p mode f).0 ≡ true
      go none e k = mkdir_made p mode f e
      go (some errno) e k = mkdir_exists p mode f (e ∙ ap some ((==_iff errno eexist).0 k))

  mkdir_before-keeps :
      (p q : Bytes) (mode : ℕ) (f : Files)
      → entry q f ≡ true
      → entry q (mkdir_before fs p mode f).0 ≡ true
  unfolding mkdir_before
  mkdir_before-keeps [] q mode f h = h
  mkdir_before-keeps (c ∷ cs) q mode f h = ground (arith, mkdir_keeps (c ∷ cs) q mode f h)

  mkdir_before-entry :
      (p : Bytes) (mode : ℕ) (f : Files)
      → is_nonempty p ≡ true
      → (mkdir_before fs p mode f).1 ≡ true
      → entry p (mkdir_before fs p mode f).0 ≡ true
  unfolding mkdir_before
  mkdir_before-entry [] mode f ne h = cc
  mkdir_before-entry (c ∷ cs) mode f ne h =
      ground (arith, mkdir-entry (c ∷ cs) mode f, stat-entry (c ∷ cs) f)

  mkdir_parents-keeps :
      (before p q : Bytes) (mode : ℕ) (f : Files)
      → entry q f ≡ true
      → entry q (mkdir_parents fs before p mode f).0 ≡ true
  unfolding mkdir_parents
  mkdir_parents-keeps before [] q mode f h = h
  mkdir_parents-keeps before (c ∷ p) q mode f h =
      if_elim (λ (r : Files × Bool). entry q r.0 ≡ true) here.1 _ _
        (λ e. mkdir_parents-keeps (before ++ c ∷ []) p q mode here.0 kept) (λ e. kept)
    where
      here : Files × Bool
      here = if c == b'/' then mkdir_before fs before mode f else (f, true)

      kept : entry q here.0 ≡ true
      kept =
          if_elim (λ (r : Files × Bool). entry q r.0 ≡ true) (c == b'/') _ _
            (λ e. mkdir_before-keeps before q mode f h) (λ e. h)

  mkdir_parents-entries :
      (before p : Bytes) (mode : ℕ) (f : Files)
      → (mkdir_parents fs before p mode f).1 ≡ true
      → All (λ dir. entry dir (mkdir_parents fs before p mode f).0 ≡ true) (directories before p)
  unfolding mkdir_parents
  mkdir_parents-entries before [] mode f h = tt
  mkdir_parents-entries before (c ∷ p) mode f h =
      if_elim
        (λ (s : Files × Bool).
          s.1 ≡ true → All (λ dir. entry dir s.0 ≡ true) (directories before (c ∷ p)))
        here.1 _ _
        (λ e k.
          if_elim (All (λ dir. entry dir rest.0 ≡ true)) (c == b'/' && is_nonempty before) _ _
            (λ named. (
              mkdir_parents-keeps (before ++ c ∷ []) p before mode here.0 (made named e),
              mkdir_parents-entries (before ++ c ∷ []) p mode here.0 k,
            ))
            (λ other. mkdir_parents-entries (before ++ c ∷ []) p mode here.0 k))
        (λ e k. absurd (ground arith)) h
    where
      here : Files × Bool
      here = if c == b'/' then mkdir_before fs before mode f else (f, true)

      rest : Files × Bool
      rest = mkdir_parents fs (before ++ c ∷ []) p mode here.0

      made : (c == b'/' && is_nonempty before) ≡ true → here.1 ≡ true → entry before here.0 ≡ true
      made named =
          let both = and_split (c == b'/') (is_nonempty before) named in
          rw both.0 (mkdir_before-entry before mode f both.1)

  -- If `mkdir_recursive` returns 0, there is something at the path, and at everything of the path
  -- that is not empty and has a slash behind it.
  pub mkdir_recursive_makes :
      (pathname : Bytes) (mode : ℕ) (f : Files)
      → (mkdir_recursive fs pathname mode f).1 ≡ true
      → All
          (λ p. entry p (mkdir_recursive fs pathname mode f).0 ≡ true)
          (pathname ∷ directories [] pathname)
  unfolding mkdir_recursive
  mkdir_recursive_makes pathname mode f h =
      if_elim
        (λ (s : Files × Bool).
          s.1 ≡ true → All (λ p. entry p s.0 ≡ true) (pathname ∷ directories [] pathname))
        parents.1 _ _
        (λ e k. (
          mkdir-entry pathname mode parents.0 k,
          still (directories [] pathname) (mkdir_parents-entries [] pathname mode f e),
        ))
        (λ e k. absurd (ground arith)) h
    where
      parents : Files × Bool
      parents = mkdir_parents fs [] pathname mode f

      still :
          (dirs : List Bytes)
          → All (λ dir. entry dir parents.0 ≡ true) dirs
          → All (λ dir. entry dir (mkdir pathname mode parents.0).0 ≡ true) dirs
      still [] a = tt
      still (dir ∷ dirs) a = (mkdir_keeps pathname dir mode parents.0 a.0, still dirs a.1)
