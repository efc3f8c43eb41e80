-- ===== src/Device/Lines.antt =====
-- The lines of ueventd.rc: `set_device_permission` of system/core/init/ueventd.c, and the loop of
-- system/core/init/ueventd_parser.c.
pub mod Decides
use asl.Base.{
  ℕ, zero, suc, ◌+◌, Bool, true, false, ◌&&◌, Option, none, some, List, [], ◌∷◌, ◌++◌, ◌==◌, ltb,
  if◌then◌else◌, length, drop, ◌>>=◌,
}
use asl.Base.Text.{Bytes, codes, str_eq, starts_with}
use asl.Token.{Token, eof, text, newline, ParseState, next_token}
use asl.Number.{AndroidIdInfo, decimal, skip_space, sign, signed_int}
use asl.Util.Mtd.{scan_number}
use asl.Device.{is_negative}
use asl.Device.Rules.{Perms, Rules, add_dev_perms}

unfoldable pub get_android_id : List AndroidIdInfo → Bytes → ℕ
get_android_id [] id = 0
get_android_id (info ∷ infos) id =
    let rest = get_android_id infos id in if str_eq id info.name then info.aid else rest

-- The value of digits up to the end of the string.
abbrev to_the_end : Bool → Option (ℕ × Bytes) → Option ℕ
to_the_end negative (some (v, [])) = some (signed_int negative v)
to_the_end negative _ = none

-- `strtol(s, &endptr, 8)`, and none where `*endptr` is not the 0.
unfoldable pub octal : Bytes → Option ℕ
octal [] = some 0
octal (c ∷ cs) = let p = sign (skip_space (c ∷ cs)) in to_the_end p.0 (scan_number 8 p.1)

-- The name without a star at its end, and whether it had one.
unfoldable pub without_star : Bytes → Bytes × Bool
without_star [] = ([], false)
without_star (c ∷ []) = if c == b'*' then ([], true) else (c ∷ [], false)
without_star (c ∷ d ∷ cs) = let rest = without_star (d ∷ cs) in (c ∷ rest.0, rest.1)

abbrev mtd_path : Option ℕ → Option (Bytes × Bool)
mtd_path none = none
mtd_path (some n) = if is_negative n then none else some (codes "/dev/mtd/mtd" ++ decimal n, false)

abbrev begins_with_hash : Bytes → Bool
begins_with_hash [] = false
begins_with_hash (c ∷ cs) = c == b'#'

-- The words of a line; there is room for five.
abbrev pub add_word : Bytes → List Bytes → List Bytes
add_word word args = if ltb (length args) 5 then args ++ word ∷ [] else args

-- The table of the ids, and `mtd_name_to_number` with none for -1.
module _ (android_ids : List AndroidIdInfo) (mtd_name_to_number : Bytes → Option ℕ) where
  -- The path that the name stands for and whether it is a prefix; none for a null pointer and for an
  -- empty name, of which the byte in front is read.
  unfoldable pub path_of : Bytes → Option (Bytes × Bool)
  unfolding without_star
  path_of [] = none
  path_of (c ∷ cs) =
      if starts_with (codes "mtd@") (c ∷ cs)
      then mtd_path (mtd_name_to_number (drop 4 (c ∷ cs)))
      else some (without_star (c ∷ cs))

  -- The rule behind the checks of the mode and of the ids, whose early returns leave the rules as they
  -- are; none where the name is a null pointer.
  unfoldable pub add_rule :
      Option (Bytes × Bool) → Option Bytes → Option ℕ → ℕ → ℕ → Rules → Option Rules
  unfolding add_dev_perms
  add_rule path attr none uid gid rules = some rules
  add_rule path attr (some perm) uid gid rules =
      if is_negative uid then some rules else if is_negative gid then some rules else do
        (name, prefix) ← path
        some (
            add_dev_perms
              (record {
                name = name;
                attr = attr;
                perm = perm;
                uid = uid;
                gid = gid;
                prefix = prefix;
              })
              rules)

  -- The four words of a rule.
  unfoldable pub rule : Option Bytes → Bytes → Bytes → Bytes → Bytes → Rules → Option Rules
  unfolding add_rule path_of octal get_android_id
  rule attr [] perm uid gid rules = none
  rule attr (c ∷ cs) perm uid gid rules =
      add_rule (path_of (c ∷ cs)) attr (octal perm) (get_android_id android_ids uid)
        (get_android_id android_ids gid) rules

  -- The numbers of words that are used.
  abbrev by_count : List Bytes → Rules → Option Rules
  by_count (name ∷ perm ∷ uid ∷ gid ∷ []) rules = rule none name perm uid gid rules
  by_count (name ∷ attr ∷ perm ∷ uid ∷ gid ∷ []) rules =
      if starts_with (codes "/sys/") name
      then rule (some attr) name perm uid gid rules
      else some rules
  by_count _ rules = some rules

  unfoldable pub set_device_permission : List Bytes → Rules → Option Rules
  set_device_permission [] rules = some rules
  set_device_permission (name ∷ args) rules =
      if begins_with_hash name then some rules else by_count (name ∷ args) rules

  -- The loop of `parse_config` on fuel. The first result is none where the fuel does not last, the
  -- second where `set_device_permission` reads a null pointer.
  unfoldable pub parse_device_lines : ℕ → ParseState → List Bytes → Rules → Option (Option Rules)
  unfolding set_device_permission
  parse_device_lines zero state args rules = none
  parse_device_lines (suc fuel) state args rules = elim (next_token state).0 [
    | eof ↦ some (some rules)
    | text ↦
        parse_device_lines fuel (next_token state).1 (add_word (next_token state).1.word args) rules
    | newline ↦ elim (set_device_permission args rules) [
      | none ↦ some none
      | some rules' ↦ parse_device_lines fuel (next_token state).1 [] rules'
    ]
  ]

  -- On the bytes of the file, or none where `read_file` fails.
  unfoldable pub ueventd_parse_config_file : Option Bytes → Rules → Option (Option Rules)
  unfolding parse_device_lines
  ueventd_parse_config_file none rules = some (some rules)
  ueventd_parse_config_file (some content) rules =
      parse_device_lines (length content + 1)
        (record { ptr = content; word = []; line = 1; nexttoken = eof }) [] rules
