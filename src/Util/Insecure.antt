-- ===== src/Util/Insecure.antt =====
-- Which files can influence what init parses.
use asl.Base.{◌≡◌, ◌⊎◌, inl, inr, refl, ap, sym, ◌∙◌, ℕ, true, Option, none, some, List}
use asl.Base.Text.{Bytes}
use asl.Number.{AndroidIdInfo}
use asl.Parser.{Args}
use asl.Parser.Imports.{Lists, init_parse_config_file}
use asl.Util.Proc.{Stored, group_or_world_writable, read_safely, read_file}

-- A file that cannot be opened, or that others than its owner may write.
abbrev pub IsInsecure : Option Stored → Type 0
IsInsecure none = Unit
IsInsecure (some sb) = group_or_world_writable sb.st_mode ≡ true

read_safely-insecure : (o : Option Stored) → IsInsecure o → read_safely o ≡ none
read_safely-insecure none h = refl
read_safely-insecure (some sb) h = rw h refl

-- Two systems whose files are the same, except for files that group or others can write, have the
-- same services and actions behind `init_parse_config_file`.
pub insecure_files_ignored :
    (expand : Bytes → Option Bytes) (ids : List AndroidIdInfo) (garbage : Bytes → Args)
    (files files' : Bytes → Option Stored) (depth : ℕ) (fn : Bytes) (l : Lists)
    → ((n : Bytes) → (files n ≡ files' n) ⊎ (IsInsecure (files n) × IsInsecure (files' n)))
    → init_parse_config_file expand ids (read_file files) garbage depth fn l
      ≡ init_parse_config_file expand ids (read_file files') garbage depth fn l
unfolding read_file
insecure_files_ignored expand ids garbage files files' depth fn l agree =
    ap (λ read. init_parse_config_file expand ids read garbage depth fn l) (λ i n. same n i)
  where
    same : (n : Bytes) → read_file files n ≡ read_file files' n
    same n = elim (agree n) [
      | inl e ↦ ap read_safely e
      | inr (h, k) ↦ read_safely-insecure (files n) h ∙ sym (read_safely-insecure (files' n) k)
    ]
