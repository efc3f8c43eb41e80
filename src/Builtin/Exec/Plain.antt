-- ===== src/Builtin/Exec/Plain.antt =====
-- What the commands do to words without a dollar sign.
use asl.Base.{
  ℕ, zero, suc, ◌+◌, ◌-◌, ◌<◌, ◌≤◌, ◌≡◌, ◌≢◌, refl, ap, ◌∙◌, true, false, Option, none, some, List,
  [], ◌∷◌, map, arith, ◌==◌, leb, ltb, if◌then◌else◌, length, length-append, length-map, all-All,
  not, take, All, le→leb,
}
use asl.Base.Text.{Bytes, codes, split_at}
use asl.Expand.{expanded, expand_props, expand_loop, round, break, copy_rest}
use asl.Builtin.Exec.{
  Word, literal, word, expand_word, expand_words, ran, faulted, do_exec, do_log, log_word,
  insmod_options, options_size,
}

abbrev pub HasNoDollar : Bytes → Type 0
HasNoDollar = All (λ c. c ≢ b'$')

split_at-none : (s : Bytes) → HasNoDollar s → split_at b'$' s ≡ none
unfolding split_at
split_at-none [] h = refl
split_at-none (c ∷ s) h = rw (other h.0, split_at-none s h.1) refl
  where
    other : c ≢ b'$' → (c == b'$') ≡ false
    other ne = ground (arith, ne)

copy_rest-take : (n : ℕ) (s : Bytes) → copy_rest n s ≡ take n s
copy_rest-take zero s = refl
copy_rest-take (suc n) [] = refl
copy_rest-take (suc n) (c ∷ s) = ap (λ l. c ∷ l) (copy_rest-take n s)

module _ (prop_name_max : ℕ) (property_get : Bytes → Option Bytes) where
  round-plain :
      (left : ℕ) (s : Bytes)
      → HasNoDollar s
      → round prop_name_max property_get [] left s ≡ break (take left s)
  unfolding round
  round-plain left s h = rw (split_at-none s h, round) (ap break (copy_rest-take left s))

  expand_loop-plain :
      (fuel left : ℕ) (s : Bytes)
      → HasNoDollar s
      → expand_loop prop_name_max property_get (suc fuel) [] (suc left) s
        ≡ expanded (take (suc left) s)
  unfolding expand_loop
  expand_loop-plain fuel left [] h = refl
  expand_loop-plain fuel left (c ∷ s) h = rw (round-plain (suc left) (c ∷ s) h, expand_loop) refl

  -- A text without a dollar sign is copied as far as there is room.
  pub expand_props-plain :
      (left : ℕ) (s : Bytes)
      → HasNoDollar s
      → expand_props prop_name_max property_get s (left + 2) ≡ expanded (take (suc left) s)
  unfolding expand_props
  expand_props-plain left s h =
      rw (size, expand_props)
        (ap (λ n. expand_loop prop_name_max property_get n [] (left + 2 - 1) s) (omega arith)
          ∙ ap (λ n. expand_loop prop_name_max property_get (suc (length s)) [] n s) (omega arith)
          ∙ expand_loop-plain (length s) left s h)
    where
      size : (left + 2 == 0) ≡ false
      size = ground arith

  length-take_le : (n : ℕ) (s : Bytes) → leb (length (take n s)) (length s) ≡ true
  length-take_le zero s = le→leb _ _ (omega arith)
  length-take_le (suc n) [] = refl
  length-take_le (suc n) (c ∷ s) = ground (arith, length-take_le n s)

  expand_word-plain :
      (left : ℕ) (w : Word)
      → HasNoDollar w.text
      → expand_word prop_name_max (left + 2) property_get w
        ≡ (if w.writable then some (take (suc left) w.text) else none)
  unfolding expand_word
  expand_word-plain left w h =
      rw (expand_props-plain left w.text h, length-take_le (suc left) w.text) refl

  expand_words-plain :
      (left : ℕ) (ws : List Bytes)
      → All HasNoDollar ws
      → expand_words prop_name_max (left + 2) property_get (map word ws)
        ≡ some (map (take (suc left)) ws)
  unfolding expand_words
  expand_words-plain left [] h = refl
  expand_words-plain left (w ∷ ws) h =
      rw (expand_word-plain left (word w) h.0, expand_words-plain left ws h.1) refl

  -- `exec` runs the program on its words where there are at most 64, but a word that has no dollar
  -- sign is cut to the size of a property's value.
  pub do_exec-plain :
      (left : ℕ) (name : Bytes) (ws : List Bytes)
      → All HasNoDollar ws
      → length ws < 64
      → do_exec prop_name_max (left + 2) property_get (map word (name ∷ ws))
        ≡ ran (map (take (suc left)) ws)
  unfolding do_exec
  do_exec-plain left name ws h few = rw (room, do_exec) (rw (expand_words-plain left ws h) refl)
    where
      room : ltb 64 (length (map word (name ∷ ws))) ≡ false
      room = ground (arith, few, length-map word ws)

  -- `log` writes to the name of the program, which is a string literal, whatever its words are, where
  -- there are at most 61 of them.
  pub do_log-faulted :
      (left : ℕ) (args : List Bytes)
      → length args ≤ 61
      → do_log prop_name_max (left + 2) property_get args ≡ faulted
  unfolding do_log do_exec expand_words
  do_log-faulted left args few =
      rw (room, do_log)
        (rw (expand_word-plain left (literal (codes "/system/bin/log")) no_dollar) refl)
    where
      no_dollar : HasNoDollar (codes "/system/bin/log")
      no_dollar =
          all-All (λ c. not (c == b'$')) (λ c. c ≢ b'$') (λ c k e. ground (arith, k, e))
            (codes "/system/bin/log") refl

      room :
          ltb 64
            (suc (suc (suc (length (map (log_word prop_name_max (left + 2) property_get) args)))))
          ≡ false
      room = ground (arith, few, length-map (log_word prop_name_max (left + 2) property_get) args)

pub insmod_options-fit : (ws : List Bytes) → length (insmod_options ws) ≤ options_size ws
unfolding insmod_options options_size
insmod_options-fit [] = omega arith
insmod_options-fit (w ∷ []) = omega arith
insmod_options-fit (w ∷ v ∷ ws) =
    ground (arith, length-append w (b' ' ∷ insmod_options (v ∷ ws)), insmod_options-fit (v ∷ ws))
