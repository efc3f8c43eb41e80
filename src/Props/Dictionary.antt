-- ===== src/Props/Dictionary.antt =====
-- What the property service promises: a dictionary whose entries are set one after the other.
pub mod Sets
pub mod Refines
use asl.Base.{
  drop, ℕ, ◌+◌, Bool, true, false, not, ◌&&◌, Option, none, some, List, [], ◌∷◌, ◌++◌, ◌==◌, ltb,
  if◌then◌else◌, length,
}
use asl.Base.Text.{Bytes, codes, str_eq, starts_with}
use asl.Props.{Bionic, Props, property_get, pa_count_max}
use asl.Props.Perms.{AndroidIds, check_perms, check_control_perms}
use asl.Service.{Service, StartEnv, Effect, notify}
use asl.Control.{handle_control_message}
use asl.Props.Set.{net_change, is_net}
use asl.Props.Socket.{
  service_property, Incoming, no_connection, no_credentials, wrong_size, message, setprop, unknown,
  terminated,
}

-- The values of the names, and how many names have one.
pub record Dictionary : Type 0 where
  pub value : Bytes → Option Bytes
  pub count : ℕ

-- A name can be set if it is no ro. name with a value, and no new name in a full area.
abbrev pub may_set : Bytes → Option Bytes → ℕ → Bool
may_set n (some _) count = not (starts_with (codes "ro.") n)
may_set n none count = not (count == pa_count_max)

abbrev pub new_count : Option Bytes → ℕ → ℕ
new_count (some _) count = count
new_count none count = count + 1

abbrev pub enter : Bytes → Bytes → Dictionary → Dictionary
enter n v a = record {
  value = λ m. if str_eq n m then some v else a.value m;
  count = new_count (a.value n) a.count;
}

module _ (bionic : Bionic) where
  open bionic use {prop_name_max, prop_value_max}

  abbrev pub accepts : Bytes → Bytes → Dictionary → Bool
  accepts n v a =
      ltb 0 (length n)
      && ltb (length n) prop_name_max
      && ltb (length v) prop_value_max
      && may_set n (a.value n) a.count

  abbrev pub put : Bytes → Bytes → Dictionary → Dictionary
  put n v a = if accepts n v a then enter n v a else a

  -- The set of a net. name is noted in net.change.
  abbrev pub put_noted : Bytes → Bytes → Dictionary → Dictionary
  put_noted n v a =
      if accepts n v a
      then (if is_net n then put net_change n (enter n v a) else enter n v a)
      else a

  abbrev pub put_all : List (Bytes × Bytes) → Dictionary → Dictionary
  put_all [] a = a
  put_all ((n, v) ∷ sets) a = put_all sets (put_noted n v a)

  -- The set of the state of a service, if the name leaves room for the prefix.
  abbrev pub state_set : Bytes → Bytes → List (Bytes × Bytes)
  state_set name state =
      if ltb prop_name_max (length name + 10)
      then []
      else (service_property bionic name, state) ∷ []

  abbrev pub state_sets : List Effect → List (Bytes × Bytes)
  state_sets [] = []
  state_sets (notify name state ∷ effects) = state_set name state ++ state_sets effects
  state_sets (_ ∷ effects) = state_sets effects

  -- What a request sets, and the services behind it: nothing, unless it is a message that its client
  -- is permitted to send; a control message sets the states of the services that it starts or stops.
  abbrev pub permitted :
      AndroidIds → StartEnv → Incoming → List Service → List (Bytes × Bytes) × List Service
  permitted ids env (message cr setprop raw_name raw_value) services =
      let name = terminated prop_name_max raw_name in
      let value = terminated prop_value_max raw_value in
      if starts_with (codes "ctl.") name
      then (if check_control_perms ids value cr.uid cr.gid
          then (let done = handle_control_message env (drop 4 name) value services in
              (state_sets done.1, done.0))
          else ([], services))
      else ((if check_perms ids name cr.uid cr.gid then (name, value) ∷ [] else []), services)
  permitted ids env (message cr unknown name value) services = ([], services)
  permitted ids env no_connection services = ([], services)
  permitted ids env no_credentials services = ([], services)
  permitted ids env (wrong_size cr) services = ([], services)

  abbrev pub all_permitted :
      AndroidIds → List (StartEnv × Incoming) → List Service → List (Bytes × Bytes)
  all_permitted ids [] services = []
  all_permitted ids ((env, r) ∷ rs) services =
      let now = permitted ids env r services in now.0 ++ all_permitted ids rs now.1

  -- The area as a dictionary.
  abbrev pub view : Props → Dictionary
  view s = record { value = λ n. property_get bionic n s; count = length s.infos }
