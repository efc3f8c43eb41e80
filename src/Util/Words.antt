-- ===== src/Util/Words.antt =====
-- The words of the kernel command line, and the bytes of the hardware name.
use asl.Base.{
  ℕ, ◌≤◌, ◌≡◌, ◌≢◌, refl, sym, ◌∙◌, false, Option, none, some, List, [], ◌∷◌, ◌++◌, arith, ◌==◌,
  if◌then◌else◌, if_elim, append-nil, append_assoc, ap, All, length, take_all, leb, ◌&&◌, ◌-◌, ◌||◌,
  ◌⊎◌, inl, inr,
}
use asl.Base.Text.{Bytes, is_space}
use asl.Util.Proc.{
  cmdline_words, without_newline, fold_words, import_kernel_cmdline, hardware_bytes, set_hardware,
  set_revision, get_hardware_name, Hardware, last_word, tolower,
}

-- The words with a blank between each and the next.
abbrev pub join : List Bytes → Bytes
join [] = []
join (w ∷ []) = w
join (w ∷ v ∷ ws) = w ++ b' ' ∷ join (v ∷ ws)

abbrev pub Plain : Bytes → Type 0
Plain = All (λ c. (c ≢ b' ') × (c ≢ b'\n'))

-- No word has a blank or a newline, and the last one is not empty.
abbrev pub AreWords : List Bytes → Type 0
AreWords [] = Unit
AreWords (w ∷ []) = Plain w × (w ≢ [])
AreWords (w ∷ v ∷ ws) = Plain w × AreWords (v ∷ ws)

cmdline_words-step :
    (word ptr : Bytes) (c : ℕ)
    → c ≢ b' '
    → cmdline_words word (c ∷ ptr) ≡ cmdline_words (word ++ c ∷ []) ptr
unfolding cmdline_words
cmdline_words-step word ptr c h = rw (different h) refl
  where
    different : c ≢ b' ' → (c == b' ') ≡ false
    different h = ground (arith, h)

cmdline_words-Plain :
    (word w ptr : Bytes) → Plain w → cmdline_words word (w ++ ptr) ≡ cmdline_words (word ++ w) ptr
cmdline_words-Plain word [] ptr h = rw append-nil refl
cmdline_words-Plain word (c ∷ w) ptr h =
    cmdline_words-step word (w ++ ptr) c h.0.0
    ∙ cmdline_words-Plain (word ++ c ∷ []) w ptr h.1
    ∙ ap (λ s. cmdline_words s ptr) (append_assoc word (c ∷ []) w)

last_word-nonempty : (w : Bytes) → w ≢ [] → last_word w ≡ w ∷ []
last_word-nonempty [] h = absurd (h refl)
last_word-nonempty (c ∷ w) h = refl

cmdline_words-join : (ws : List Bytes) → AreWords ws → cmdline_words [] (join ws) ≡ ws
unfolding cmdline_words
cmdline_words-join [] h = refl
cmdline_words-join (w ∷ []) h =
    ap (cmdline_words []) (sym (append-nil w))
    ∙ cmdline_words-Plain [] w [] h.0
    ∙ last_word-nonempty w h.1
cmdline_words-join (w ∷ v ∷ ws) h =
    cmdline_words-Plain [] w (b' ' ∷ join (v ∷ ws)) h.0
    ∙ ap (λ l. w ∷ l) (cmdline_words-join (v ∷ ws) h.1)

without_newline-append : (s : Bytes) → without_newline (s ++ b'\n' ∷ []) ≡ s
unfolding without_newline
without_newline-append [] = refl
without_newline-append (c ∷ []) = refl
without_newline-append (c ∷ d ∷ s) = ap (λ l. c ∷ l) (without_newline-append (d ∷ s))

-- From a kernel command line that is made of words with a blank between each and the next, and a
-- newline at its end, of at most 1023 bytes, `import_kernel_cmdline` passes on each word, in order.
pub import_kernel_cmdline-join {ℓ} :
    {S : Type ℓ} (import_kernel_nv : Bytes → S → S) (ws : List Bytes) (s : S)
    → AreWords ws
    → length (join ws ++ b'\n' ∷ []) ≤ 1023
    → import_kernel_cmdline (some (join ws ++ b'\n' ∷ [])) import_kernel_nv s
      ≡ fold_words import_kernel_nv ws s
unfolding import_kernel_cmdline
import_kernel_cmdline-join import_kernel_nv ws s h bound =
    ap (λ l. fold_words import_kernel_nv l s)
      (ap (λ t. cmdline_words [] (without_newline t)) (take_all 1023 _ bound)
        ∙ ap (cmdline_words []) (without_newline-append (join ws))
        ∙ cmdline_words-join ws h)

-- A byte of the hardware name is no blank and no capital letter.
abbrev pub IsHardwareByte : ℕ → Type 0
IsHardwareByte c = (is_space c ≡ false) × ((leb b'A' c && leb c b'Z') ≡ false)

abbrev pub IsHardwareName : ℕ → Bytes → Type 0
IsHardwareName room name = All IsHardwareByte name × (length name ≤ room)

tolower-IsHardwareByte : (c : ℕ) → is_space c ≡ false → IsHardwareByte (tolower c)
tolower-IsHardwareByte c h =
    if_elim IsHardwareByte (leb b'A' c && leb c b'Z') _ _
      (λ e. (ground (arith, e), ground (arith, e))) (λ e. (h, e))

hardware_bytes-IsHardwareName : (room : ℕ) (x : Bytes) → IsHardwareName room (hardware_bytes room x)
unfolding hardware_bytes
hardware_bytes-IsHardwareName room [] = (tt, omega arith)
hardware_bytes-IsHardwareName room (c ∷ x) =
    if_elim (IsHardwareName room) (room == 0 || c == b'\n') _ _ (λ e. (tt, omega arith))
      (λ e.
        if_elim
          (λ r.
            IsHardwareName r (hardware_bytes r x)
            → IsHardwareName room
                (if is_space c then hardware_bytes r x else tolower c ∷ hardware_bytes r x))
          (is_space c) room (room - 1) (λ s h. rw s h)
          (λ s h. rw s ((tolower-IsHardwareByte c s, h.0), ground (arith, e, h.1)))
          (hardware_bytes-IsHardwareName (if is_space c then room else room - 1) x))

-- The hardware name that `get_hardware_name` leaves is the one that it was given, unless that is
-- empty; otherwise it has at most 31 bytes, and none of them is a blank or a capital letter.
pub get_hardware_name-IsHardwareName :
    (text : Option Bytes) (hw : Hardware)
    → ((get_hardware_name text hw).hardware ≡ hw.hardware)
      ⊎ ((hw.hardware ≡ []) × IsHardwareName 31 (get_hardware_name text hw).hardware)
unfolding get_hardware_name
get_hardware_name-IsHardwareName none hw = inl refl
get_hardware_name-IsHardwareName (some text) hw = revision _ _ (name _)
  where
    Good : Hardware → Type 0
    Good r = (r.hardware ≡ hw.hardware) ⊎ ((hw.hardware ≡ []) × IsHardwareName 31 r.hardware)

    revision : (x : Option Bytes) (r : Hardware) → Good r → Good (set_revision x r)
    revision none r h = unfold set_revision in h
    revision (some x) r h = unfold set_revision in h

    given : (x n : Bytes) → hw.hardware ≡ n → Good (set_hardware (some x) hw)
    given x [] e = unfold set_hardware in rw e (inr (refl, hardware_bytes-IsHardwareName 31 x))
    given x (c ∷ cs) e = unfold set_hardware in rw e (inl refl)

    name : (x : Option Bytes) → Good (set_hardware x hw)
    name none = unfold set_hardware in inl refl
    name (some x) = given x hw.hardware refl
