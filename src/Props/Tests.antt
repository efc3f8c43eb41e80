-- ===== src/Props/Tests.antt =====
-- A property store with a concrete search, and the theorems at it.
use asl.Base.{
  ℕ, suc, ◌+◌, ◌*◌, ◌^◌, ◌≡◌, ◌≢◌, ◌⊎◌, inl, inr, ◌↔◌, refl, ap, true, false, Option, none, some,
  List, [], ◌∷◌, Any, arith, if◌then◌else◌, All, get_elem?, length, Bool-cases,
}
use asl.Base.Text.{Bytes, codes, str_eq, starts_with, str_eq→eq, str_eq_refl}
use asl.Props.{PropInfo, Bionic, Props, property_get}
use asl.Props.Area.{Distinct}
use asl.Props.Set.Layout.{IsLaidOut, toc_of}
use asl.Props.Perms.{
  AndroidIds, check_perms, check_perms_iff, Allows, IsBare, skip_ro, property_perms, search_perms,
}
use asl.Service.{StartEnv}
use asl.Parser.{new_service}
use asl.Parser.{service_find_by_name}
use asl.Service.{service_stop_or_reset}
use asl.Control.{handle_control_message, msg_stop}
use asl.Props.Perms.{check_control_perms}
use asl.Props.{add_entry, property_set, write_area, overwrite}
use asl.Props.Socket.{
  handle_property_set_fd, handle_setprop, control_services, notify_all, notify_service_state,
  Shared, Incoming, message, setprop, terminated, serve,
}
use asl.Props.Socket.Guard.{serve-IsLaidOut, serve_ro_kept}
use asl.Props.Dictionary.{view, put_all, all_permitted}
use asl.Props.Dictionary.Refines.{serve-view}
use asl.Props.Load.{load_properties, skip_spaces, trim_end}
use asl.Props.Load.Print.{IsPrintable, print, set_all, load_properties-print}

abbrev pub after : Option ℕ → Option ℕ
after none = none
after (some i) = some (suc i)

unfoldable pub first_with : Bytes → List PropInfo → Option ℕ
first_with n [] = none
first_with n (info ∷ infos) = if str_eq info.name n then some 0 else after (first_with n infos)

after-some : (o : Option ℕ) (i : ℕ) → after o ≡ some i → (j : ℕ) × (o ≡ some j) × (i ≡ suc j)
after-some none i e = cc
after-some (some j) i e = (j, refl, ground arith)

pub first_with-some :
    (n : Bytes) (infos : List PropInfo) (i : ℕ)
    → first_with n infos ≡ some i
    → (info : PropInfo) × (get_elem? infos i ≡ some info) × (info.name ≡ n)
unfolding first_with
first_with-some n [] i e = cc
first_with-some n (first ∷ infos) i e = elim (Bool-cases (str_eq first.name n)) [
  | inl same ↦ (first, ground arith, str_eq→eq first.name n same)
  | inr other ↦
      let (j, f, g) = after-some (first_with n infos) i (rw other at e) in
      let (info, at, named) = first_with-some n infos j f in (info, rw g at, named)
]

pub first_with-none :
    (n : Bytes) (infos : List PropInfo)
    → first_with n infos ≡ none
    → All (λ info. info.name ≢ n) infos
unfolding first_with
first_with-none n [] e = tt
first_with-none n (first ∷ infos) e = elim (Bool-cases (str_eq first.name n)) [
  | inl same ↦ cc (rw same at e)
  | inr other ↦ (
    (λ named. cc (ap (λ (x : Bytes). str_eq first.name x) named, str_eq_refl first.name)),
    first_with-none n infos (ground arith),
  )
]

abbrev pub bionic : Bionic
bionic = record {
  prop_name_max = 32;
  prop_value_max = 92;
  system_property_find = first_with;
  name_max_bounds = (omega arith, omega arith);
  info_size = refl;
  find_some = first_with-some;
  find_none = first_with-none;
}

abbrev ids : AndroidIds
ids = record {
  aid_root = 0;
  aid_system = 1000;
  aid_radio = 1001;
  aid_dhcp = 1014;
  aid_shell = 2000;
  aid_graphics = 1003;
  aid_log = 1007;
}

abbrev pub entry : Bytes → Bytes → PropInfo
entry n v = record { name = n; serial = length v * 2 ^ 24; value = v }

abbrev pub version : PropInfo
version = entry (codes "ro.v") (codes "7")

abbrev pub store : Props
store = record {
  infos = version ∷ entry (codes "a") (codes "1") ∷ [];
  toc = (4 * 2 ^ 24 + 1536) ∷ (1 * 2 ^ 24 + 1664) ∷ [];
  serial = 2;
  persistent_properties_loaded = false;
  property_area_inited = true;
  events = [];
}

pub store-Distinct : Distinct store.infos
store-Distinct = (((λ e. cc), tt), (tt, tt))

store-IsLaidOut : IsLaidOut bionic store
unfolding toc_of
store-IsLaidOut = record {
  count = omega arith;
  toc_lists = refl;
  fits = (
    record {
      name_fits = (omega arith, omega arith);
      value_fits = omega arith;
      serial_length = refl;
    },
    (
      record {
        name_fits = (omega arith, omega arith);
        value_fits = omega arith;
        serial_length = refl;
      },
      tt,
    ),
  );
}

check_perms_iff_example : (check_perms ids (codes "ro.net.x") 1000 0 ≡ true) ↔ (
    (◌≡◌ {A = ℕ} 1000 0)
    ⊎ ((bare : Bytes) × IsBare (codes "ro.net.x") bare
        × Any (Allows 1000 0 bare) (property_perms ids)))
check_perms_iff_example = check_perms_iff ids (codes "ro.net.x") 1000 0

abbrev env : StartEnv
env = record {
  have_console = true;
  stat = λ path. true;
  fork = some 42;
  now = 103;
  properties_inited = true;
}

-- Root sets a ro. property again, a client without rights sets "a", and root stops a service.
abbrev requests : List (StartEnv × Incoming)
requests =
    (env, message (record { uid = 0; gid = 0 }) setprop (codes "ro.v") (codes "8"))
    ∷ (env, message (record { uid = 10001; gid = 10001 }) setprop (codes "a") (codes "9"))
    ∷ (env, message (record { uid = 0; gid = 0 }) setprop (codes "ctl.stop") (codes "adbd"))
    ∷ []

abbrev shared : Shared
shared = (store, new_service (codes "adbd") (codes "/sbin/adbd" ∷ []) ∷ [])

-- The control message sets the state of its service.
stopped_state :
    property_get bionic (codes "init.svc.adbd") (serve bionic ids requests shared).0
    ≡ some (codes "stopped")
unfolding property_get serve handle_property_set_fd handle_setprop control_services
    handle_control_message msg_stop service_stop_or_reset service_find_by_name notify_all
    notify_service_state property_set write_area overwrite add_entry first_with str_eq starts_with
    check_perms search_perms skip_ro property_perms check_control_perms terminated
    asl.Parser.find_service
stopped_state = refl

serve-IsLaidOut_example :
    IsLaidOut bionic (serve bionic ids requests shared).0
    × Distinct (serve bionic ids requests shared).0.infos
serve-IsLaidOut_example = serve-IsLaidOut bionic ids requests shared store-IsLaidOut store-Distinct

serve_ro_kept_example :
    property_get bionic (codes "ro.v") (serve bionic ids requests shared).0 ≡ some (codes "7")
unfolding property_get first_with str_eq starts_with
serve_ro_kept_example =
    serve_ro_kept bionic ids (codes "ro.v") (codes "7") requests shared store-Distinct refl refl

abbrev settings : List (Bytes × Bytes)
settings = (codes "a", codes "x y") ∷ (codes "b.c", codes "3") ∷ []

settings-IsPrintable : All (λ p. IsPrintable p.0 p.1) settings
unfolding skip_spaces trim_end
settings-IsPrintable = (
  record {
    name_separator = (refl, tt);
    name_newline = (refl, tt);
    value_newline = (refl, (refl, (refl, tt)));
    name_starts = refl;
    no_comment = refl;
    name_ends = refl;
    value_starts = refl;
    value_ends = refl;
  },
  (
    record {
      name_separator = (refl, (refl, (refl, tt)));
      name_newline = (refl, (refl, (refl, tt)));
      value_newline = (refl, tt);
      name_starts = refl;
      no_comment = refl;
      name_ends = refl;
      value_starts = refl;
      value_ends = refl;
    },
    tt,
  ),
)

load_properties-print_example :
    load_properties bionic (print settings) store ≡ set_all bionic settings store
load_properties-print_example = load_properties-print bionic settings store settings-IsPrintable

serve-view_example :
    view bionic (serve bionic ids requests shared).0
    ≡ put_all bionic (all_permitted bionic ids requests shared.1) (view bionic store)
serve-view_example = serve-view bionic ids requests store shared.1 store-Distinct
