-- ===== src/Props/Load.antt =====
-- Properties from files: `load_properties` and its callers in property_service.c.
pub mod Print
use asl.Base.{
  ℕ, ◌-◌, Bool, true, false, ◌&&◌, Option, none, some, List, [], ◌∷◌, ◌++◌, ◌==◌, if◌then◌else◌,
  take,
}
use asl.Base.Text.{Bytes, codes, split_at, is_space, starts_with}
use asl.Props.{Bionic, Props, property_set}
use asl.Props.Socket.{until_zero}

-- `while(isspace(*s)) s++`
unfoldable pub skip_spaces : Bytes → Bytes
skip_spaces [] = []
skip_spaces (c ∷ cs) = if is_space c then skip_spaces cs else c ∷ cs

abbrev is_empty : Bytes → Bool
is_empty [] = true
is_empty (c ∷ cs) = false

-- The text up to its last byte that is no space.
unfoldable pub strip : Bytes → Bytes
strip [] = []
strip (c ∷ cs) = let rest = strip cs in if is_space c && is_empty rest then [] else c ∷ rest

-- `while((tmp > s) && isspace(*tmp)) *tmp-- = 0`, from the last byte: the first byte stays.
unfoldable pub trim_end : Bytes → Bytes
unfolding strip
trim_end [] = []
trim_end (c ∷ cs) = c ∷ strip cs

abbrev is_comment : Bytes → Bool
is_comment [] = false
is_comment (c ∷ cs) = c == b'#'

-- A persistent property's file: its name, and what `read` gives, if `open` and `read` succeed.
pub record Entry : Type 0 where
  pub d_name : Bytes
  pub content : Option Bytes

module _ (bionic : Bionic) where
  open bionic use {prop_value_max}

  -- One turn of the loop of `load_properties`, on a line without its newline.
  unfoldable pub load_line : Bytes → Props → Props
  unfolding skip_spaces strip trim_end
  load_line line s = elim (split_at b'=' line) [
    | none ↦ s
    | some (before, after) ↦
        let key = skip_spaces before in
        if is_comment key
        then s
        else (property_set bionic (trim_end key) (trim_end (skip_spaces after)) s).0
  ]

  -- The loop: `sol` holds the line read so far, and a last line without a newline is left out.
  unfoldable pub load_from : Bytes → Bytes → Props → Props
  unfolding load_line
  load_from sol [] s = s
  load_from sol (c ∷ cs) s =
      let ends = c == b'\n' in
      load_from (if ends then [] else sol ++ c ∷ []) cs (if ends then load_line sol s else s)

  unfoldable pub load_properties : Bytes → Props → Props
  unfolding load_from
  load_properties text s = load_from [] text s

  -- `read_file` gives the text, or null.
  unfoldable pub load_properties_from_file : Option Bytes → Props → Props
  load_properties_from_file none s = s
  load_properties_from_file (some text) s = load_properties text s

  -- The loop over the directory. The build does not set HAVE_DIRENT_D_TYPE.
  unfoldable pub load_entries : List Entry → Props → Props
  load_entries [] s = s
  load_entries (e ∷ es) s = load_entries es (
      if starts_with (codes "persist.") e.d_name
      then elim e.content [
        | none ↦ s
        | some text ↦
            (property_set bionic e.d_name (until_zero (take (prop_value_max - 1) text)) s).0
      ]
      else s)

  abbrev entries : Option (List Entry) → List Entry
  entries none = []
  entries (some es) = es

  -- `opendir` gives the entries of /data/property, or null.
  unfoldable pub load_persistent_properties : Option (List Entry) → Props → Props
  unfolding load_entries
  load_persistent_properties dir s = record (load_entries (entries dir) s) {
    persistent_properties_loaded = true;
  }

  -- A build of the variant `user`, which does not set ALLOW_LOCAL_PROP_OVERRIDE.
  unfoldable pub load_persist_props : Option (List Entry) → Props → Props
  unfolding load_persistent_properties
  load_persist_props dir s = load_persistent_properties dir s
