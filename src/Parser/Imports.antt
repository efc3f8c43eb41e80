-- ===== src/Parser/Imports.antt =====
-- The imports of a file: `init_parse_config_file`, and `parse_config` behind `parser_done`.
use asl.Base.{
  ℕ, zero, suc, ◌<◌, ◌≡◌, refl, Option, none, some, List, [], ◌∷◌, arith, All, Option-cases, inl,
  inr,
}
use asl.Base.Text.{Bytes}
use asl.Number.{AndroidIdInfo}
use asl.Service.{Service}
use asl.Parser.{Action, Args}
use asl.Parser.Config.{Parser, parse_config}
use asl.Parser.Invariant.{IsLoaded}
use asl.Parser.Finish.{parse_config-IsLoaded}

-- `service_list` and `action_list`
pub record Lists : Type 0 where
  pub services : List Service
  pub actions : List Action

-- `expand_props`, the table of the ids, `read_file`, and what the array of a call holds.
module _ (expand : Bytes → Option Bytes) (ids : List AndroidIdInfo)
    (read_file : Bytes → Option Bytes) (garbage : Bytes → Args) where
  -- The loop over the import list; a file that cannot be read is only logged.
  import_all : (Bytes → Lists → Option Lists) → List Bytes → Lists → Option Lists
  import_all parse [] l = some l
  import_all parse (fn ∷ import_list) l = elim (parse fn l) [
    | none ↦ none
    | some l' ↦ import_all parse import_list l'
  ]

  -- `depth` bounds the calls of the function in itself; none is for a depth that is not enough.
  unfoldable pub init_parse_config_file : ℕ → Bytes → Lists → Option Lists
  unfolding import_all
  init_parse_config_file zero fn l = none
  init_parse_config_file (suc depth) fn l = elim (read_file fn) [
    | none ↦ some l
    | some content ↦ elim (parse_config expand ids content (garbage fn) l.services l.actions) [
      | none ↦ none
      | some p ↦
          import_all (init_parse_config_file depth) p.import_list
            (record { services = p.services; actions = p.actions })
    ]
  ]

  -- The rank falls from a file to the files that it imports.
  abbrev pub Falls : (Bytes → ℕ) → Type 0
  Falls rank =
      (fn content : Bytes) (l : Lists) (p : Parser)
      → read_file fn ≡ some content
      → parse_config expand ids content (garbage fn) l.services l.actions ≡ some p
      → All (λ f. rank f < rank fn) p.import_list

  abbrev Loads : Option Lists → Type 0
  Loads o = (l : Lists) × (o ≡ some l) × IsLoaded l.services l.actions

  import_all-Loads :
      (parse : Bytes → Lists → Option Lists) (rank : Bytes → ℕ) (n : ℕ) (import_list : List Bytes)
      (l : Lists)
      → ((fn : Bytes) (l : Lists)
          → rank fn < n
          → IsLoaded l.services l.actions
          → Loads (parse fn l))
      → All (λ f. rank f < n) import_list
      → IsLoaded l.services l.actions
      → Loads (import_all parse import_list l)
  unfolding import_all
  import_all-Loads parse rank n [] l h a loaded = (l, refl, loaded)
  import_all-Loads parse rank n (fn ∷ import_list) l h a loaded =
      let (l', e, loaded') = h fn l a.0 loaded in
      rw (e, import_all) (import_all-Loads parse rank n import_list l' h a.1 loaded')

  -- Where the imports have no cycle, a file and all that it imports is parsed to the end at a depth
  -- above its rank, and leaves the lists in order if it found them so.
  pub init_parse_config_file-IsLoaded :
      (rank : Bytes → ℕ) (depth : ℕ) (fn : Bytes) (l : Lists)
      → Falls rank
      → rank fn < depth
      → IsLoaded l.services l.actions
      → (l' : Lists) × (init_parse_config_file depth fn l ≡ some l')
        × IsLoaded l'.services l'.actions
  unfolding init_parse_config_file
  init_parse_config_file-IsLoaded rank zero fn l falls deep loaded = absurd (omega arith)
  init_parse_config_file-IsLoaded rank (suc depth) fn l falls deep loaded =
      elim (Option-cases (read_file fn)) [
        | inl e ↦ rw (e, init_parse_config_file) (l, refl, loaded)
        | inr (content, e) ↦
            let (p, e2, loaded2) =
              parse_config-IsLoaded expand ids content (garbage fn) l.services l.actions loaded in
            rw (e, e2, init_parse_config_file)
              (import_all-Loads (init_parse_config_file depth) rank (rank fn) p.import_list
                (record { services = p.services; actions = p.actions })
                (λ f l' lower loaded'.
                  init_parse_config_file-IsLoaded rank depth f l' falls (omega (arith, lower, deep))
                    loaded')
                (falls fn content l p e e2) loaded2)
      ]
