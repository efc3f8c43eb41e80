-- ===== src/Builtin/Tests.antt =====
-- The theorems of the commands at concrete words, files and services.
use asl.Base.{
  ℕ, ◌+◌, ◌≡◌, ◌≢◌, refl, Bool, true, not, Option, none, some, List, [], ◌∷◌, ◌==◌, arith, all,
  all-All,
}
use asl.Base.Text.{Bytes, codes}
use asl.Service.{Service, StartEnv}
use asl.Parser.{new_service}
use asl.Builtin.Classes.{do_class_start, do_class_stop, do_class_start-class_stop}
use asl.Builtin.Exec.{faulted, do_log}
use asl.Builtin.Exec.Plain.{HasNoDollar, do_log-faulted}
use asl.Builtin.Modes.{Inodes, st_mode, get_mode}
use asl.Builtin.Mount.{LoopDevice}

abbrev in_core : Bytes → Service
in_core n = record (new_service n (codes "/system/bin/x" ∷ [])) { classname = codes "core" }

abbrev services : List Service
services = in_core (codes "vold") ∷ new_service (codes "adbd") (codes "/sbin/adbd" ∷ []) ∷ []

abbrev env : StartEnv
env = record {
  have_console = true;
  stat = λ path. true;
  fork = some 42;
  now = 103;
  properties_inited = true;
}

abbrev class_core : List Bytes
class_core = codes "class_start" ∷ codes "core" ∷ []

-- The clock moves on between the services.
abbrev envs : ℕ → StartEnv
envs i = record env { now = 200 + i }

do_class_start-class_stop_example :
    do_class_start envs class_core (do_class_stop class_core services).0
    ≡ ((do_class_stop class_core services).0, [])
do_class_start-class_stop_example = do_class_start-class_stop envs class_core services

no_dollar : (s : Bytes) → all (λ c. not (c == b'$')) s ≡ true → HasNoDollar s
no_dollar = all-All (λ c. not (c == b'$')) (λ c. c ≢ b'$') (λ c k e. ground (arith, k, e))

abbrev no_property : Bytes → Option Bytes
no_property n = none

do_log-faulted_example : do_log 32 92 no_property (codes "hello" ∷ []) ≡ faulted
do_log-faulted_example = do_log-faulted 32 no_property 90 (codes "hello" ∷ []) (omega arith)

-- Files that are their modes; every path is a link.
abbrev inodes : Inodes
inodes = record {
  Files = ℕ;
  lstat = λ path f. st_mode 41471;
  chmod = λ path mode f. (mode, none);
  chown = λ path uid gid f. (f, none);
  mkdir = λ path mode f. (mode, none);
}

-- A word that is no number in base 8: -1, which `do_chmod` takes for the mode.
get_mode_octal_error : get_mode (codes "rwx") ≡ 4294967295
unfolding get_mode
get_mode_octal_error = refl

abbrev device_of : Bool → LoopDevice
device_of blank = record { opens = true; blank = blank; takes = true }
