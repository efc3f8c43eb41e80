-- ===== src/Service/Tests.antt =====
-- A critical daemon and a oneshot service, and the theorems at them.
use asl.Base.{
  ℕ, inl, ◌≡◌, ◌<◌, ◌∷◌, refl, true, false, none, some, List, [], arith, All, ltb, if◌then◌else◌,
  ◌+◌,
}
use asl.Base.Text.{Bytes, codes}
use asl.Service.{
  Flags, Service, StartEnv, how_disabled, io_none, service_stop_or_reset, service_start,
  restart_service_if_needed, process_exited, critical_crash_threshold,
}
use asl.Service.Invariant.{
  Happening, start, exit, tick, happens, history, IsConsistent, history-IsConsistent,
}
use asl.Service.Quiet.{NoSpawn, stopped_stays_stopped}
use asl.Service.Count.{reboots, exits, IsCounting}
use asl.Service.Crash.{crash_loop}
use asl.Service.Child.{ChildEnv, child}
use asl.Service.Child.Credentials.{root, at_execve, all_succeed, child_ids}

abbrev no_flags : Flags
no_flags = record {
  disabled = false;
  oneshot = false;
  running = false;
  restarting = false;
  console = false;
  critical = false;
  reset = false;
  rc_disabled = false;
  restart = false;
}

abbrev daemon : Service
daemon = record {
  name = codes "vold";
  classname = codes "core";
  flags = record no_flags { critical = true };
  pid = 0;
  time_started = 0;
  time_crashed = 100;
  nr_crashed = 0;
  uid = 0;
  gid = 0;
  supp_gids = [];
  sockets =
      record { name = codes "vold"; kind = codes "stream"; perm = 432; uid = 0; gid = 1009 } ∷ [];
  envvars = [];
  onrestart = [];
  keycodes = [];
  keychord_id = 0;
  ioprio_class = io_none;
  ioprio_pri = 0;
  args = codes "/system/bin/vold" ∷ [];
}

abbrev at_time : ℕ → StartEnv
at_time t = record {
  have_console = true;
  stat = λ path. true;
  fork = some 42;
  now = t;
  properties_inited = true;
}

-- Five crashes within the window.
abbrev crashes : List Happening
crashes =
    start (at_time 100) none
    ∷ exit 101
    ∷ tick (at_time 105) 0
    ∷ exit 106
    ∷ tick (at_time 110) 0
    ∷ exit 111
    ∷ tick (at_time 115) 0
    ∷ exit 116
    ∷ tick (at_time 120) 0
    ∷ exit 121
    ∷ []

reboots-crashes : reboots (history crashes daemon).1 ≡ true
unfolding reboots history happens service_start process_exited restart_service_if_needed
reboots-crashes = refl

daemon-IsCounting : IsCounting 100 daemon
daemon-IsCounting = record {
  is_critical = refl;
  not_oneshot = refl;
  not_reset = refl;
  not_restart = refl;
  enabled = λ r. refl;
  window = refl;
}

crash_loop_example :
    reboots (history crashes daemon).1
    ≡ ltb critical_crash_threshold (daemon.nr_crashed + exits crashes daemon)
crash_loop_example =
    crash_loop 100 crashes daemon daemon-IsCounting
      (
        tt,
        (
          omega arith,
          (tt, (omega arith, (tt, (omega arith, (tt, (omega arith, (tt, (omega arith, tt)))))))),
        ),
      )
      (omega arith)

daemon-IsConsistent : IsConsistent daemon
daemon-IsConsistent = record {
  running_pid = λ r. cc r;
  stopped_pid = λ r. refl;
  waiting_stopped = λ w. refl;
  waiting_enabled = λ w. cc w;
}

fork_positive : (child : ℕ) → some 42 ≡ some child → 0 < child
fork_positive child e = ground (arith, e)

history-IsConsistent_example : IsConsistent (history crashes daemon).0
history-IsConsistent_example =
    history-IsConsistent crashes daemon
      (
        fork_positive,
        (
          tt,
          (
            fork_positive,
            (tt, (fork_positive, (tt, (fork_positive, (tt, (fork_positive, (tt, tt))))))),
          ),
        ),
      )
      daemon-IsConsistent

abbrev passive : List Happening
passive = exit 130 ∷ tick (at_time 140) 0 ∷ []

abbrev running_daemon : Service
running_daemon = record daemon { pid = 42; flags = record daemon.flags { running = true } }

stopped_stays_stopped_example :
    All NoSpawn (history passive (service_stop_or_reset running_daemon how_disabled).0).1
stopped_stays_stopped_example =
    stopped_stays_stopped running_daemon how_disabled passive (inl refl) (tt, (tt, tt))

abbrev once : Service
once = record running_daemon { flags = record running_daemon.flags { oneshot = true } }

abbrev environ : List Bytes
environ = codes "PATH=/bin" ∷ codes "TMP=/tmp" ∷ []

-- A service that is not to run as root.
abbrev logd : Service
logd = record daemon { uid = 1036; gid = 1036; supp_gids = 1007 ∷ [] }

abbrev sys : ChildEnv
sys = record {
  workspace = some (codes "8,49152");
  new_socket = λ si. some (codes "9");
  setgid_ok = true;
  setgroups_ok = true;
  setuid_ok = true;
  socket_prefix = codes "ANDROID_SOCKET_";
}

child_ids_example : at_execve root (child sys logd none environ) ≡ (
    if all_succeed sys logd
    then some (record { uid = logd.uid; gid = logd.gid; groups = logd.supp_gids })
    else none)
child_ids_example = child_ids sys logd none environ
