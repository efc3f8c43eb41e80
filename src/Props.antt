-- ===== src/Props.antt =====
-- The property store of system/core/init/property_service.c: the area, `property_get` and
-- `property_set`. The module Props.Socket has the requests, and Props.Load the files.
pub mod Area
pub mod Set
pub mod Perms
pub mod Socket
pub mod Dictionary
pub mod Load
pub mod Tests
use asl.Base.{
  ℕ, zero, suc, ◌+◌, ◌-◌, ◌*◌, ◌%◌, ◌^◌, ◌<◌, ◌≤◌, ◌≡◌, ◌≢◌, Bool, true, false, ◌&&◌, Option, none,
  some, List, [], ◌∷◌, ◌++◌, ◌==◌, leb, ltb, if◌then◌else◌, length, get_elem?, set, All,
}
use asl.Base.Text.{Bytes, codes, str_eq, starts_with}

-- `prop_info`
pub record PropInfo : Type 0 where
  pub name : Bytes
  pub serial : ℕ
  pub value : Bytes

-- What bionic supplies: the sizes of sys/_system_properties.h, and `__system_property_find`, which
-- answers the place of an entry with the name, and null only if there is none.
pub record Bionic : Type 0 where
  pub prop_name_max : ℕ
  pub prop_value_max : ℕ
  pub system_property_find : Bytes → List PropInfo → Option ℕ
  pub name_max_bounds : (10 < prop_name_max) × (prop_name_max ≤ prop_value_max)
  pub info_size : prop_name_max + 4 + prop_value_max ≡ 128
  pub find_some :
      (n : Bytes) (infos : List PropInfo) (i : ℕ)
      → system_property_find n infos ≡ some i
      → (info : PropInfo) × (get_elem? infos i ≡ some info) × (info.name ≡ n)
  pub find_none :
      (n : Bytes) (infos : List PropInfo)
      → system_property_find n infos ≡ none
      → All (λ info. info.name ≢ n) infos

-- What the property service does to the rest of the system, in order: the calls of
-- `property_changed`, `write_persistent_property` and `handle_control_message`, and the `close` of
-- a client's socket.
pub data Event : Type 0 where
  changed persisted control : Bytes → Bytes → Event
  closed : Event

-- The area that the processes share, and the static variables. `pa->count` is the length of
-- `infos`.
pub record Props : Type 0 where
  pub infos : List PropInfo
  pub toc : List ℕ
  pub serial : ℕ
  pub persistent_properties_loaded : Bool
  pub property_area_inited : Bool
  pub events : List Event

abbrev pub pa_count_max : ℕ
pa_count_max = 372

abbrev pub pa_info_start : ℕ
pa_info_start = 1536

abbrev pub pa_size : ℕ
pa_size = 49152

-- `(len << 24) | low` on 32 bits, for a `low` below `1 << 24`.
abbrev pub with_length : ℕ → ℕ → ℕ
with_length len low = (len * 2 ^ 24) % 2 ^ 32 + low

-- `s | 1`
abbrev pub dirty : ℕ → ℕ
dirty s = s + (1 - s % 2)

unfoldable pub update_prop_info : PropInfo → Bytes → PropInfo
update_prop_info info v = record info {
  value = v;
  serial = with_length (length v) ((dirty info.serial + 1) % 2 ^ 24);
}

abbrev pub emit : Event → Props → Props
emit e s = record s { events = s.events ++ e ∷ [] }

-- `pa->serial++`, on 32 bits.
abbrev pub bump : Props → Props
bump s = record s { serial = (s.serial + 1) % 2 ^ 32 }

-- `init_property_area`; the flag tells whether `init_workspace` succeeded, the result whether the
-- function did.
pub init_property_area : Bool → Props → Props × Bool
init_property_area workspace s =
    if s.property_area_inited
    then (s, false)
    else if workspace
    then (record s { infos = []; toc = []; serial = 0; property_area_inited = true }, true)
    else (s, false)

-- The branch for a name that is found.
unfoldable pub overwrite : Bytes → Bytes → ℕ → Props → Option Props
unfolding update_prop_info
overwrite n v i s = if starts_with (codes "ro.") n then none else elim (get_elem? s.infos i) [
  | none ↦ none
  | some info ↦ some (bump (record s { infos = set s.infos i (update_prop_info info v) }))
]

-- The branch for a new name. A `prop_info` has 128 bytes.
unfoldable pub add_entry : Bytes → Bytes → Props → Option Props
add_entry n v s =
    if length s.infos == pa_count_max
    then none
    else some (
        bump (record s {
          infos = s.infos ++ record { name = n; serial = with_length (length v) 0; value = v } ∷ [];
          toc = s.toc ++ with_length (length n) (pa_info_start + 128 * length s.infos) ∷ [];
        }))

module _ (bionic : Bionic) where
  open bionic use {prop_name_max, prop_value_max, system_property_find}

  unfoldable pub property_get : Bytes → Props → Option Bytes
  property_get n s =
      if leb prop_name_max (length n) then none else elim (system_property_find n s.infos) [
        | none ↦ none
        | some i ↦ elim (get_elem? s.infos i) [ none ↦ none | some info ↦ some info.value ]
      ]

  -- `property_set` up to the write to the area; `none` is an early `return -1`.
  unfoldable pub write_area : Bytes → Bytes → Props → Option Props
  write_area n v s =
      if leb prop_name_max (length n)
      then none
      else if leb prop_value_max (length v)
      then none
      else if ltb (length n) 1
      then none
      else elim (system_property_find n s.infos) [
        | some i ↦ overwrite n v i s
        | none ↦ add_entry n v s
      ]

  -- `property_set` with a bound on its depth; the result is `true` for 0 and `false` for -1.
  unfoldable pub property_set_at : ℕ → Bytes → Bytes → Props → Props × Bool
  property_set_at zero n v s = (s, false)
  property_set_at (suc depth) n v s = elim (write_area n v s) [
    | none ↦ (s, false)
    | some t ↦
        let noted = property_set_at depth (codes "net.change") n t in
        if starts_with (codes "net.") n
        then (if str_eq (codes "net.change") n
            then (t, true)
            else (emit (changed n v) noted.0, true))
        else if t.persistent_properties_loaded && starts_with (codes "persist.") n
        then (emit (changed n v) (emit (persisted n v) t), true)
        else (emit (changed n v) t, true)
  ]

  -- The call for net.change makes no further call, so a depth of two is enough.
  unfoldable pub property_set : Bytes → Bytes → Props → Props × Bool
  unfolding property_set_at
  property_set = property_set_at 2
