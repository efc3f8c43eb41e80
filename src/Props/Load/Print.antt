-- ===== src/Props/Load/Print.antt =====
-- A file of lines `name=value` loads as the row of its settings.
use asl.Base.{
  ℕ, ◌≡◌, refl, ap, ◌∙◌, false, some, List, [], ◌∷◌, ◌++◌, arith, ◌==◌, All, All-append, append-nil,
  append_assoc,
}
use asl.Base.Text.{Bytes, split_at}
use asl.Props.{Bionic, Props, property_set}
use asl.Props.Load.{skip_spaces, trim_end, is_comment, load_line, load_from, load_properties}

abbrev pub Without : ℕ → Bytes → Type 0
Without b = All (λ c. (c == b) ≡ false)

-- A setting that a line can hold: no separator in the name, no newline, no mark of a comment and
-- no spaces at the ends.
pub record IsPrintable (name value : Bytes) : Type 0 where
  pub name_separator : Without b'=' name
  pub name_newline : Without b'\n' name
  pub value_newline : Without b'\n' value
  pub name_starts : skip_spaces name ≡ name
  pub no_comment : is_comment name ≡ false
  pub name_ends : trim_end name ≡ name
  pub value_starts : skip_spaces value ≡ value
  pub value_ends : trim_end value ≡ value

abbrev pub print_line : Bytes × Bytes → Bytes
print_line (name, value) = name ++ b'=' ∷ value

abbrev pub print : List (Bytes × Bytes) → Bytes
print [] = []
print (p ∷ ps) = print_line p ++ b'\n' ∷ print ps

split_at-Without : (b : ℕ) (n v : Bytes) → Without b n → split_at b (n ++ b ∷ v) ≡ some (n, v)
unfolding split_at
split_at-Without b [] v h = ground arith
split_at-Without b (c ∷ n) v h = rw (h.0, split_at-Without b n v h.1)

line_newline :
    (name value : Bytes) → IsPrintable name value → Without b'\n' (print_line (name, value))
line_newline name value h =
    All-append (λ c. (c == b'\n') ≡ false) name (b'=' ∷ value) h.name_newline
      (refl, h.value_newline)

module _ (bionic : Bionic) where
  pub set_all : List (Bytes × Bytes) → Props → Props
  set_all [] s = s
  set_all ((name, value) ∷ ps) s = set_all ps (property_set bionic name value s).0

  load_line-print_line :
      (name value : Bytes) (s : Props)
      → IsPrintable name value
      → load_line bionic (print_line (name, value)) s ≡ (property_set bionic name value s).0
  unfolding load_line
  load_line-print_line name value s h = rw (
    split_at-Without b'=' name value h.name_separator,
    load_line,
    h.name_starts,
    h.no_comment,
    h.name_ends,
    h.value_starts,
    h.value_ends,
  )

  load_from-Without :
      (sol line rest : Bytes) (s : Props)
      → Without b'\n' line
      → load_from bionic sol (line ++ b'\n' ∷ rest) s
        ≡ load_from bionic [] rest (load_line bionic (sol ++ line) s)
  unfolding load_from
  load_from-Without sol [] rest s h = rw append-nil
  load_from-Without sol (c ∷ line) rest s h =
      rw (h.0, load_from) (load_from-Without (sol ++ c ∷ []) line rest s h.1 ∙ rw append_assoc)

  -- Loading the printed lines of settings that a line can hold sets them one after the other.
  pub load_properties-print :
      (ps : List (Bytes × Bytes)) (s : Props)
      → All (λ p. IsPrintable p.0 p.1) ps
      → load_properties bionic (print ps) s ≡ set_all ps s
  unfolding load_properties set_all
  load_properties-print [] s h = unfold load_from in refl
  load_properties-print ((name, value) ∷ ps) s (h, hs) =
      load_from-Without [] (print_line (name, value)) (print ps) s (line_newline name value h)
      ∙ ap (load_from bionic [] (print ps)) (load_line-print_line name value s h)
      ∙ load_properties-print ps (property_set bionic name value s).0 hs
