-- ===== src/Parser.antt =====
-- The parser of rc files: system/core/init/init_parser.c. Its children have the options of a
-- service, the loop over the tokens, and what holds of the lists it builds.
pub mod Options
pub mod Config
pub mod WellFormed
pub mod Invariant
pub mod Lines
pub mod Finish
pub mod Uses
pub mod Export
pub mod Imports
mod Tests
use asl.Base.{
  ℕ, zero, suc, ◌+◌, ◌-◌, Bool, true, false, not, ◌&&◌, ◌||◌, Option, none, some, List, [], ◌∷◌,
  ◌++◌, ◌==◌, ltb, if◌then◌else◌, length,
}
use asl.Base.Text.{Bytes, codes, str_eq, is_alnum}
use asl.Keyword.{Keyword, kw_is_command, kw_nargs, lookup_keyword}
use asl.Service.{Func, builtin, Command, Flags, Service, io_none}

-- `struct action`; `current`, `hash` and `tlist` are not used.
pub record Action : Type 0 where
  pub name : Bytes
  pub commands : List Command

-- The array `args`: the strings its 64 pointers lead to, those of earlier lines included. What is
-- at a place that was never stored is arbitrary.
abbrev pub Args : Type 0
Args = ℕ → Bytes

-- `count` elements from `i` on, as a `memcpy` takes them.
abbrev pub slice : Args → ℕ → ℕ → List Bytes
slice args i zero = []
slice args i (suc count) = args i ∷ slice args (i + 1) count

abbrev pub name_byte : ℕ → Bool
name_byte c = is_alnum c || c == b'_' || c == b'-'

abbrev pub name_bytes : Bytes → Bool
name_bytes [] = true
name_bytes (c ∷ name) = name_byte c && name_bytes name

unfoldable pub valid_name : Bytes → Bool
valid_name name = if ltb 16 (length name) then false else name_bytes name

-- The place of the first service that passes a test: the loops of the three `service_find_by_`
-- functions. A place in the list stands for a pointer.
unfoldable pub find_service : (Service → Bool) → List Service → Option ℕ
find_service test [] = none
find_service test (svc ∷ services) =
    if test svc
    then some 0
    else elim (find_service test services) [ none ↦ none | some i ↦ some (suc i) ]

abbrev pub service_find_by_name : Bytes → List Service → Option ℕ
service_find_by_name name = find_service (λ (svc : Service). str_eq svc.name name)

abbrev pub service_find_by_pid : ℕ → List Service → Option ℕ
service_find_by_pid pid = find_service (λ (svc : Service). svc.pid == pid)

abbrev pub service_find_by_keychord : ℕ → List Service → Option ℕ
service_find_by_keychord keychord_id =
    find_service (λ (svc : Service). svc.keychord_id == keychord_id)

abbrev no_flags : Flags
no_flags = record {
  disabled = false;
  oneshot = false;
  running = false;
  restarting = false;
  console = false;
  critical = false;
  reset = false;
  rc_disabled = false;
  restart = false;
}

-- The service that `calloc` and the assignments behind it make.
abbrev pub new_service : Bytes → List Bytes → Service
new_service service_name service_args = record {
  name = service_name;
  classname = codes "default";
  flags = no_flags;
  pid = 0;
  time_started = 0;
  time_crashed = 0;
  nr_crashed = 0;
  uid = 0;
  gid = 0;
  supp_gids = [];
  sockets = [];
  envvars = [];
  onrestart = [];
  keycodes = [];
  keychord_id = 0;
  ioprio_class = io_none;
  ioprio_pri = 0;
  args = service_args;
}

-- The list with the new service at its end, or none where the function returns 0. `calloc` does
-- not fail.
unfoldable pub parse_service : ℕ → Args → List Service → Option (List Service)
unfolding valid_name
parse_service nargs args services =
    if ltb nargs 3
    then none
    else if not (valid_name (args 1))
    then none
    else elim (service_find_by_name (args 1) services) [
      | some i ↦ none
      | none ↦ some (services ++ new_service (args 1) (slice args 2 (nargs - 2)) ∷ [])
    ]

unfoldable pub parse_action : ℕ → Args → List Action → Option (List Action)
parse_action nargs args actions =
    if ltb nargs 2
    then none
    else if ltb 2 nargs
    then none
    else some (actions ++ record { name = args 1; commands = [] } ∷ [])

-- The command of `nargs` words from `i` on, if it is one and has enough of them.
unfoldable pub parse_command : ℕ → Args → ℕ → Option Command
parse_command nargs args i =
    let kw = lookup_keyword (args i) in
    if not (kw_is_command kw)
    then none
    else if ltb nargs (kw_nargs kw)
    then none
    else some (record { func = builtin kw; args = slice args i nargs })

abbrev pub add_command : Option Command → List Command → List Command
add_command none commands = commands
add_command (some cmd) commands = commands ++ cmd ∷ []

unfoldable pub parse_line_action : ℕ → Args → Action → Action
unfolding parse_command
parse_line_action nargs args act =
    if nargs == 0
    then act
    else record act { commands = add_command (parse_command nargs args 0) act.commands }
