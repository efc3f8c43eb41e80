-- ===== src/Queue/Triggers.antt =====
-- The tests of the property triggers, from init_parser.c and init.c.
use asl.Base.{
  ℕ, Bool, false, ◌&&◌, ◌||◌, Option, none, some, [], ◌∷◌, ◌==◌, ltb, if◌then◌else◌, length, drop,
}
use asl.Base.Text.{Bytes, codes, str_eq, starts_with, split_at}
use asl.Parser.{Action}
use asl.Queue.{Cutils, Init, queue_where}

-- `"property:"`
abbrev pub property_prefix : Bytes
property_prefix = codes "property:"

-- A trigger's value matches the property's, or it is the star.
abbrev pub value_matches : Bytes → Bytes → Bool
value_matches test value = str_eq test value || str_eq test (codes "*")

abbrev pub behind_name : Bytes → Bytes → Bool
behind_name value [] = false
behind_name value (c ∷ test) = c == b'=' && value_matches test value

-- The test of `queue_property_triggers`.
unfoldable pub triggered_by : Bytes → Bytes → Action → Bool
triggered_by name value act =
    starts_with property_prefix act.name
    && (let test = drop 9 act.name in
        starts_with name test && behind_name value (drop (length name) test))

abbrev pub holds : Option Bytes → Bytes → Bool
holds none test = false
holds (some value) test = value_matches test value

-- The test of `queue_all_property_triggers` behind the prefix. The property's name may have
-- PROP_NAME_MAX bytes.
unfoldable pub holds_now : ℕ → (Bytes → Option Bytes) → Option (Bytes × Bytes) → Bool
holds_now prop_name_max property_get none = false
holds_now prop_name_max property_get (some (prop_name, test)) =
    if ltb prop_name_max (length prop_name) then false else holds (property_get prop_name) test

unfoldable pub triggered_now : ℕ → (Bytes → Option Bytes) → Action → Bool
unfolding holds_now
triggered_now prop_name_max property_get act =
    starts_with property_prefix act.name
    && holds_now prop_name_max property_get (split_at b'=' (drop 9 act.name))

module _ (cutils : Cutils) where
  -- `property_changed`, with the variable `property_triggers_enabled`.
  unfoldable pub queue_property_triggers : Bytes → Bytes → Init cutils → Init cutils
  queue_property_triggers name value s =
      queue_where cutils (triggered_by name value) 0 s.action_list s

  unfoldable pub property_changed : Bool → Bytes → Bytes → Init cutils → Init cutils
  unfolding queue_property_triggers
  property_changed property_triggers_enabled name value s =
      if property_triggers_enabled then queue_property_triggers name value s else s

  unfoldable pub queue_all_property_triggers :
      ℕ → (Bytes → Option Bytes) → Init cutils → Init cutils
  queue_all_property_triggers prop_name_max property_get s =
      queue_where cutils (triggered_now prop_name_max property_get) 0 s.action_list s

  -- `action_for_each_trigger` with `action_add_queue_tail`, its only use.
  unfoldable pub action_for_each_trigger : Bytes → Init cutils → Init cutils
  action_for_each_trigger trigger s =
      queue_where cutils (λ (act : Action). str_eq act.name trigger) 0 s.action_list s
