-- ===== src/Service.antt =====
-- Services: `struct service` of system/core/init/init.h, and what init.c and signal_handler.c do
-- to one service. HAVE_SELINUX is not defined.
pub mod Environ
pub mod Argv
pub mod Child
pub mod Invariant
pub mod Quiet
pub mod Count
pub mod Crash
mod Tests
use asl.Base.{
  ℕ, zero, ◌+◌, Bool, true, false, not, ◌&&◌, ◌||◌, Option, none, some, List, [], ◌∷◌, ◌++◌, map,
  ◌==◌, ltb, leb, if◌then◌else◌,
}
use asl.Base.Text.{Bytes, codes}
use asl.Keyword.{Keyword}

-- The C function of a command: a `do_` function, named by its keyword, or a function that
-- `queue_builtin_action` got, with the name that it was queued under.
pub data Func : Type 0 where
  builtin : Keyword → Func
  action_function : Bytes → Func

-- `struct command`; `nargs` is the length of `args`.
pub record Command : Type 0 where
  pub func : Func
  pub args : List Bytes

-- The bits of `flags`, SVC_DISABLED to SVC_RESTART.
pub record Flags : Type 0 where
  pub disabled : Bool
  pub oneshot : Bool
  pub running : Bool
  pub restarting : Bool
  pub console : Bool
  pub critical : Bool
  pub reset : Bool
  pub rc_disabled : Bool
  pub restart : Bool

pub record SocketInfo : Type 0 where
  pub name : Bytes
  pub kind : Bytes
  pub perm : ℕ
  pub uid : ℕ
  pub gid : ℕ

pub record SvcEnvInfo : Type 0 where
  pub name : Bytes
  pub value : Bytes

-- `IoSchedClass_NONE`, `_RT`, `_BE` and `_IDLE`
pub data IoSchedClass : Type 0 where
  io_none io_rt io_be io_idle : IoSchedClass

-- `pid` is 0 while there is no process. The lists are in the order of their `next` pointers;
-- `nargs`, `nkeycodes` and `nr_supp_gids` are lengths.
pub record Service : Type 0 where
  pub name : Bytes
  pub classname : Bytes
  pub flags : Flags
  pub pid : ℕ
  pub time_started : ℕ
  pub time_crashed : ℕ
  pub nr_crashed : ℕ
  pub uid : ℕ
  pub gid : ℕ
  pub supp_gids : List ℕ
  pub sockets : List SocketInfo
  pub envvars : List SvcEnvInfo
  pub onrestart : List Command
  pub keycodes : List ℕ
  pub keychord_id : ℕ
  pub ioprio_class : IoSchedClass
  pub ioprio_pri : ℕ
  pub args : List Bytes

-- What the functions below do outside of the service, in order. `spawn` is the child's part behind
-- `fork`, with the dynamic arguments.
pub data Effect : Type 0 where
  spawn : Bytes → Option Bytes → Effect
  kill_group : ℕ → Effect
  notify : Bytes → Bytes → Effect
  unlink_socket : Bytes → Effect
  run : Command → Effect
  reboot_recovery : Effect

-- What `service_start` asks of the system: the console, `stat`, `fork` (`none` for a failure), the
-- clock, and whether the property area is there.
pub record StartEnv : Type 0 where
  pub have_console : Bool
  pub stat : Bytes → Bool
  pub fork : Option ℕ
  pub now : ℕ
  pub properties_inited : Bool

abbrev pub Result : Type 0
Result = Service × List Effect

abbrev disable : Service → Service
disable svc = record svc { flags = record svc.flags { disabled = true } }

abbrev first_arg : List Bytes → Bytes
first_arg [] = []
first_arg (a ∷ args) = a

-- The parent's part behind `fork`.
forked : StartEnv → Service → Option Bytes → Option ℕ → Result
forked env svc dynamic_args none = (record svc { pid = 0 }, [])
forked env svc dynamic_args (some child) = (
  record svc { time_started = env.now; pid = child; flags = record svc.flags { running = true } },
  spawn svc.name dynamic_args
      ∷ (if env.properties_inited then notify svc.name (codes "running") ∷ [] else []),
)

abbrev is_given : Option Bytes → Bool
is_given none = false
is_given (some a) = true

-- `service_start` behind the change of the flags.
start_cleared : StartEnv → Service → Option Bytes → Result
unfolding forked
start_cleared env svc dynamic_args =
    if svc.flags.running
    then (svc, [])
    else if svc.flags.console && not env.have_console
    then (disable svc, [])
    else if not (env.stat (first_arg svc.args))
    then (disable svc, [])
    else if not svc.flags.oneshot && is_given dynamic_args
    then (disable svc, [])
    else forked env svc dynamic_args env.fork

unfoldable pub service_start : StartEnv → Service → Option Bytes → Result
unfolding start_cleared
service_start env svc dynamic_args =
    start_cleared env
      (record svc {
        flags = record svc.flags {
          disabled = false;
          restarting = false;
          reset = false;
          restart = false;
        };
        time_started = 0;
      })
      dynamic_args

-- The argument `how`: one of the three flags, or another number.
pub data How : Type 0 where
  how_disabled how_reset how_restart how_illegal : How

-- `svc->flags |= how`, and for SVC_RESET the choice by SVC_RC_DISABLED.
raise : How → Flags → Flags
raise how_reset f =
    if f.rc_disabled then record f { disabled = true } else record f { reset = true }
raise how_restart f = record f { restart = true }
raise how_disabled f = record f { disabled = true }
raise how_illegal f = record f { disabled = true }

unfoldable pub service_stop_or_reset : Service → How → Result
unfolding raise
service_stop_or_reset svc how = (
  record svc { flags = raise how (record svc.flags { restarting = false }) },
  if svc.pid == 0
      then notify svc.name (codes "stopped") ∷ []
      else kill_group svc.pid ∷ notify svc.name (codes "stopping") ∷ [],
)

abbrev pub service_reset : Service → Result
service_reset svc = service_stop_or_reset svc how_reset

abbrev pub service_stop : Service → Result
service_stop svc = service_stop_or_reset svc how_disabled

unfoldable pub service_restart : StartEnv → Service → Result
unfolding service_start service_stop_or_reset
service_restart env svc =
    if svc.flags.running
    then service_stop_or_reset svc how_restart
    else if not svc.flags.restarting
    then service_start env svc none
    else (svc, [])

abbrev pub critical_crash_threshold : ℕ
critical_crash_threshold = 4

abbrev pub critical_crash_window : ℕ
critical_crash_window = 240

-- The block for a critical service: the service with its crash counted, and whether the device
-- reboots.
count_crash : ℕ → Service → Service × Bool
count_crash now svc =
    if leb now (svc.time_crashed + critical_crash_window)
    then (let counted = record svc { nr_crashed = svc.nr_crashed + 1 } in
        (counted, ltb critical_crash_threshold counted.nr_crashed))
    else (record svc { time_crashed = now; nr_crashed = 1 }, false)

-- The end of `wait_for_one_process`.
set_restarting : Service → List Effect → Result
set_restarting svc before = (
  record svc { flags = record svc.flags { restart = false; restarting = true } },
  before ++ (map run svc.onrestart ++ notify svc.name (codes "restarting") ∷ []),
)

restart_or_reboot : Service → Bool → List Effect → Result
unfolding set_restarting
restart_or_reboot svc true before = (svc, before ++ reboot_recovery ∷ [])
restart_or_reboot svc false before = set_restarting svc before

-- From `now = gettime()` on.
consider_restart : ℕ → Service → List Effect → Result
unfolding count_crash restart_or_reboot
consider_restart now svc before =
    let counted = count_crash now svc in
    if svc.flags.critical && not svc.flags.restart
    then restart_or_reboot counted.0 counted.1 before
    else restart_or_reboot svc false before

-- The flags behind the exit of the process.
abbrev pub exited_flags : Flags → Flags
exited_flags f = record f { running = false; disabled = f.disabled || (f.oneshot && not f.restart) }

-- The kill of the process group, and the removal of the sockets.
abbrev pub kills : Service → List Effect
kills svc = if not svc.flags.oneshot || svc.flags.restart then kill_group svc.pid ∷ [] else []

abbrev pub unlinks : Service → List Effect
unlinks svc = map (λ (si : SocketInfo). unlink_socket si.name) svc.sockets

-- `wait_for_one_process` for the service whose process `waitpid` gave, at the time `now`.
unfoldable pub process_exited : ℕ → Service → Result
unfolding consider_restart
process_exited now svc =
    let before = kills svc ++ unlinks svc in
    let exited = record svc { pid = 0; flags = exited_flags svc.flags } in
    if exited.flags.disabled || exited.flags.reset
    then (exited, before ++ notify svc.name (codes "stopped") ∷ [])
    else consider_restart now exited before

-- `restart_service_if_needed` on a service and the static variable `process_needs_restart`.
unfoldable pub restart_service_if_needed : StartEnv → Service → ℕ → Result × ℕ
unfolding service_start
restart_service_if_needed env svc process_needs_restart =
    let next_start_time = svc.time_started + 5 in
    if leb next_start_time env.now
    then (
      service_start env (record svc { flags = record svc.flags { restarting = false } }) none,
      process_needs_restart,
    )
    else (
      (svc, []),
      if ltb next_start_time process_needs_restart || process_needs_restart == 0
          then next_start_time
          else process_needs_restart,
    )
