-- ===== src/Device/Message.antt =====
-- The round trip of a message of the kernel.
use Prim.Native.String.{String}
use asl.Base.{
  ℕ, ◌≤◌, ◌≡◌, ◌≢◌, refl, ap, ◌∙◌, Bool, true, false, Option, none, some, List, [], ◌∷◌, ◌++◌,
  arith, if◌then◌else◌, All, append_assoc, append-nil, ltb, ◌==◌, ◌-◌,
}
use asl.Base.Text.{Bytes, codes, starts_with}
use asl.Number.{word, atoi}
use asl.Device.{Uevent, new_uevent, parse_string, unless_empty, strings, parse_strings, parse_event}

-- The texts of an event.
pub record Texts : Type 0 where
  pub action : Bytes
  pub path : Bytes
  pub subsystem : Bytes
  pub seqnum : Bytes
  pub firmware : Option Bytes
  pub numbers : Option (Bytes × Bytes)
  pub device_name : Option Bytes
  pub partition_num : Option Bytes
  pub partition_name : Option Bytes

abbrev item : String → Option Bytes → List Bytes
item key none = []
item key (some text) = (codes key ++ text) ∷ []

abbrev numbers_of : Option (Bytes × Bytes) → List Bytes
numbers_of none = []
numbers_of (some (major, minor)) = (codes "MAJOR=" ++ major) ∷ (codes "MINOR=" ++ minor) ∷ []

-- The strings with a key, in the order in which the kernel writes them.
abbrev keyed : Texts → List Bytes
keyed t =
    (codes "ACTION=" ++ t.action)
    ∷ (codes "DEVPATH=" ++ t.path)
    ∷ (codes "SUBSYSTEM=" ++ t.subsystem)
    ∷ (item "FIRMWARE=" t.firmware
        ++ (numbers_of t.numbers
            ++ (item "DEVNAME=" t.device_name
                ++ (item "PARTN=" t.partition_num
                    ++ (item "PARTNAME=" t.partition_name ++ (codes "SEQNUM=" ++ t.seqnum) ∷ [])))))

-- The strings, behind the one with the action and the path.
abbrev pub lines : Texts → List Bytes
lines t = (t.action ++ b'@' ∷ t.path) ∷ keyed t

-- Each string with a 0 behind it.
abbrev pub message : List Bytes → Bytes
message [] = []
message (s ∷ ss) = s ++ 0 ∷ message ss

-- The text, or what was there before.
abbrev text_or : Bytes → Option Bytes → Bytes
text_or old none = old
text_or old (some text) = text

abbrev number_or : ℕ → Option Bytes → ℕ
number_or old none = old
number_or old (some text) = atoi text

abbrev either : Option Bytes → Option Bytes → Option Bytes
either old none = old
either old (some text) = some text

abbrev major_of : Option (Bytes × Bytes) → Option Bytes
major_of none = none
major_of (some (major, minor)) = some major

abbrev minor_of : Option (Bytes × Bytes) → Option Bytes
minor_of none = none
minor_of (some (major, minor)) = some minor

abbrev pub event_of : Texts → Uevent
event_of t = record {
  action = t.action;
  path = t.path;
  subsystem = t.subsystem;
  firmware = text_or [] t.firmware;
  partition_name = t.partition_name;
  device_name = t.device_name;
  partition_num = number_or (word - 1) t.partition_num;
  major = number_or (word - 1) (major_of t.numbers);
  minor = number_or (word - 1) (minor_of t.numbers);
}

-- A string that is not empty and has no 0 in it.
abbrev pub IsString : Bytes → Type 0
IsString s = (s ≢ []) × All (λ c. c ≢ 0) s

strings-step :
    (start msg : Bytes) (c : ℕ) → c ≢ 0 → strings start (c ∷ msg) ≡ strings (start ++ c ∷ []) msg
unfolding strings
strings-step start msg c h = ap (λ b. if b then unless_empty start (next b) else next b) other
  where
    next : Bool → List Bytes
    next b = strings (if b then [] else start ++ c ∷ []) msg

    other : (c == 0) ≡ false
    other = ground (arith, h)

strings-append :
    (start s msg : Bytes) → All (λ c. c ≢ 0) s → strings start (s ++ msg) ≡ strings (start ++ s) msg
strings-append start [] msg h = rw append-nil refl
strings-append start (c ∷ s) msg h =
    strings-step start (s ++ msg) c h.0
    ∙ strings-append (start ++ c ∷ []) s msg h.1
    ∙ ap (λ t. strings t msg) (append_assoc start (c ∷ []) s)

strings-message : (ss : List Bytes) → All IsString ss → strings [] (message ss) ≡ ss
unfolding strings
strings-message [] h = refl
strings-message (s ∷ ss) h =
    strings-append [] s (0 ∷ message ss) h.0.1 ∙ rw (strings-message ss h.1) (go s h.0.0)
  where
    go : (s : Bytes) → s ≢ [] → unless_empty s ss ≡ s ∷ ss
    go [] ne = absurd (ne refl)
    go (c ∷ cs) ne = refl

either-none : (o : Option Bytes) → either none o ≡ o
either-none none = refl
either-none (some text) = refl

module _ (u : Uevent) (rest : List Bytes) where
  parse-firmware :
      (o : Option Bytes)
      → parse_strings (item "FIRMWARE=" o ++ rest) u
        ≡ parse_strings rest (record u { firmware = text_or u.firmware o })
  unfolding parse_string starts_with
  parse-firmware none = refl
  parse-firmware (some text) = refl

  parse-numbers :
      (o : Option (Bytes × Bytes))
      → parse_strings (numbers_of o ++ rest) u
        ≡ parse_strings rest (record u {
          major = number_or u.major (major_of o);
          minor = number_or u.minor (minor_of o);
        })
  unfolding parse_string starts_with
  parse-numbers none = refl
  parse-numbers (some (major, minor)) = refl

  parse-device_name :
      (o : Option Bytes)
      → parse_strings (item "DEVNAME=" o ++ rest) u
        ≡ parse_strings rest (record u { device_name = either u.device_name o })
  unfolding parse_string starts_with
  parse-device_name none = refl
  parse-device_name (some text) = refl

  parse-partition_num :
      (o : Option Bytes)
      → parse_strings (item "PARTN=" o ++ rest) u
        ≡ parse_strings rest (record u { partition_num = number_or u.partition_num o })
  unfolding parse_string starts_with
  parse-partition_num none = refl
  parse-partition_num (some text) = refl

  parse-partition_name :
      (o : Option Bytes)
      → parse_strings (item "PARTNAME=" o ++ rest) u
        ≡ parse_strings rest (record u { partition_name = either u.partition_name o })
  unfolding parse_string starts_with
  parse-partition_name none = refl
  parse-partition_name (some text) = refl

-- The keys are in capital letters.
abbrev starts_with_capital : Bytes → Bool
starts_with_capital [] = false
starts_with_capital (x ∷ xs) = ltb x b'a'

no_key :
    (key : Bytes) (c : ℕ) (s : Bytes)
    → starts_with_capital key ≡ true
    → b'a' ≤ c
    → starts_with key (c ∷ s) ≡ false
unfolding starts_with
no_key [] c s h k = cc h
no_key (x ∷ key) c s h k = ground (arith, h, k)

parse_string-other : (c : ℕ) (s : Bytes) (u : Uevent) → b'a' ≤ c → parse_string (c ∷ s) u ≡ u
unfolding parse_string
parse_string-other c s u h =
    rw
      (
        no_key (codes "ACTION=") c s refl h,
        no_key (codes "DEVPATH=") c s refl h,
        no_key (codes "SUBSYSTEM=") c s refl h,
        no_key (codes "FIRMWARE=") c s refl h,
        no_key (codes "MAJOR=") c s refl h,
        no_key (codes "MINOR=") c s refl h,
        no_key (codes "PARTN=") c s refl h,
        no_key (codes "PARTNAME=") c s refl h,
        no_key (codes "DEVNAME=") c s refl h,
      )
      refl

parse_strings-lines :
    (t : Texts) (c : ℕ) (cs : Bytes)
    → t.action ≡ c ∷ cs
    → b'a' ≤ c
    → parse_strings (lines t) new_uevent ≡ event_of t
unfolding parse_string starts_with
parse_strings-lines t c cs e h =
    ap (parse_strings (keyed t)) (
      ap (λ a. parse_string (a ++ b'@' ∷ t.path) new_uevent) e
      ∙ parse_string-other c (cs ++ b'@' ∷ t.path) new_uevent h)
    ∙ parse-firmware start _ t.firmware
    ∙ parse-numbers _ _ t.numbers
    ∙ parse-device_name _ _ t.device_name
    ∙ parse-partition_num _ _ t.partition_num
    ∙ parse-partition_name _ _ t.partition_name
    ∙ rw (either-none t.device_name, either-none t.partition_name) refl
  where
    start : Uevent
    start = record new_uevent { action = t.action; path = t.path; subsystem = t.subsystem }

-- The event of a message that the kernel writes has the texts and the numbers of it, where the action
-- begins with a small letter and no string has a 0 in it; what the message does not name is empty,
-- NULL or -1.
pub parse_event-message :
    (t : Texts) (c : ℕ) (cs : Bytes)
    → t.action ≡ c ∷ cs
    → b'a' ≤ c
    → All IsString (lines t)
    → parse_event (message (lines t)) ≡ event_of t
unfolding parse_event
parse_event-message t c cs e h s =
    ap (λ l. parse_strings l new_uevent) (strings-message (lines t) s)
    ∙ parse_strings-lines t c cs e h
