-- ===== src/Keychord.antt =====
-- Key chords that start services: system/core/init/keychords.c.
pub mod Ids
mod Tests
use asl.Base.{
  ℕ, ◌+◌, ◌%◌, ◌^◌, Bool, true, false, ◌||◌, Option, none, some, List, [], ◌∷◌, ◌++◌, map, ◌==◌,
  if◌then◌else◌, length,
}
use asl.Base.Text.{Bytes, codes, str_eq}
use asl.Service.{Service, StartEnv, service_start}
use asl.Parser.{service_find_by_keychord}
use asl.Control.{Results, on_service}

-- `struct input_keychord`, whose numbers have 16 bits. `count` is the length of `keycodes`.
pub record InputKeychord : Type 0 where
  pub id : ℕ
  pub keycodes : List ℕ

abbrev pub word16 : ℕ → ℕ
word16 n = n % 2 ^ 16

abbrev pub has_none : List ℕ → Bool
has_none [] = true
has_none (k ∷ ks) = false

-- `add_service_keycodes` with the static array `keychords`, whose `keychords_count` is its length.
-- `realloc` does not fail, and a service has the pointer `keycodes` exactly if it has a key code.
unfoldable pub add_service_keycodes : Service → List InputKeychord → Service × List InputKeychord
add_service_keycodes svc keychords =
    if has_none svc.keycodes
    then (svc, keychords)
    else (let number = word16 (length keychords + 1) in
        (
          record svc { keychord_id = number },
          keychords ++ record { id = number; keycodes = map word16 svc.keycodes } ∷ [],
        ))

-- The loop of `keychord_init` over the services.
unfoldable pub add_all : List Service → List InputKeychord → List Service × List InputKeychord
add_all [] keychords = ([], keychords)
add_all (svc ∷ services) keychords =
    let added = add_service_keycodes svc keychords in
    let rest = add_all services added.1 in (added.0 ∷ rest.0, rest.1)

-- `keychord_init`: the services, and what is written to /dev/keychord.
unfoldable pub keychord_init : List Service → List Service × List InputKeychord
keychord_init services = add_all services []

abbrev is_value : Bytes → Option Bytes → Bool
is_value wanted none = false
is_value wanted (some v) = str_eq v wanted

-- `handle_keychord`, for the values of ro.debuggable and init.svc.adbd, and the number that is
-- read, if it can be.
unfoldable pub handle_keychord :
    StartEnv → Option Bytes → Option Bytes → Option ℕ → List Service → Results
handle_keychord env debuggable adb_enabled none services = (services, [])
handle_keychord env debuggable adb_enabled (some number) services =
    if is_value (codes "1") debuggable || is_value (codes "running") adb_enabled
    then on_service (λ svc. service_start env svc none) (service_find_by_keychord number services)
        services
    else (services, [])
