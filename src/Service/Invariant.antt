-- ===== src/Service/Invariant.antt =====
-- What holds of a service between any two events.
use asl.Base.{
  All, ◌++◌, ℕ, Option-cases, if_elim, not, Bool-cases, inl, inr, leb, ◌+◌, ◌<◌, ◌≡◌, Bool, ◌||◌,
  true, false, Option, none, some, List, [], ◌∷◌, arith, if◌then◌else◌,
}
use asl.Base.Text.{Bytes}
use asl.Service.{
  Service, StartEnv, How, how_disabled, how_restart, Result, service_start, service_stop_or_reset,
  service_restart, exited_flags, consider_restart, Effect, process_exited,
  restart_service_if_needed,
}

-- The process is there exactly while SVC_RUNNING is set, and a service that waits for its restart
-- is not running and bears no flag against the restart.
pub record IsConsistent (svc : Service) : Type 0 where
  pub running_pid : svc.flags.running ≡ true → 0 < svc.pid
  pub stopped_pid : svc.flags.running ≡ false → svc.pid ≡ 0
  pub waiting_stopped : svc.flags.restarting ≡ true → svc.flags.running ≡ false
  pub waiting_enabled :
      svc.flags.restarting ≡ true
      → (svc.flags.disabled ≡ false) × (svc.flags.reset ≡ false) × (svc.flags.restart ≡ false)

-- In the parent, `fork` gives the number of a process or fails.
abbrev pub ForkPositive : StartEnv → Type 0
ForkPositive env = (child : ℕ) → env.fork ≡ some child → 0 < child

-- What happens to a service: the calls of init.c and signal_handler.c, with what they ask of the
-- system. `exit` is the exit of its process, and `tick` a round of `restart_processes`, which calls
-- `restart_service_if_needed` for the services with SVC_RESTARTING.
pub data Happening : Type 0 where
  start : StartEnv → Option Bytes → Happening
  restart : StartEnv → Happening
  stop_or_reset : How → Happening
  exit : ℕ → Happening
  tick : StartEnv → ℕ → Happening

abbrev pub only_running : Bool → ℕ → Service → Result
only_running true now svc = process_exited now svc
only_running false now svc = (svc, [])

unfoldable pub happens : Happening → Service → Result
happens (start env args) svc = service_start env svc args
happens (restart env) svc = service_restart env svc
happens (stop_or_reset how) svc = service_stop_or_reset svc how
happens (exit now) svc = only_running svc.flags.running now svc
happens (tick env needs) svc =
    if svc.flags.restarting then (restart_service_if_needed env svc needs).0 else (svc, [])

abbrev pub Positive : Happening → Type 0
Positive (start env args) = ForkPositive env
Positive (restart env) = ForkPositive env
Positive (tick env needs) = ForkPositive env
Positive _ = Unit

abbrev Good : Result → Type 0
Good r = IsConsistent r.0

service_start-IsConsistent :
    (env : StartEnv) (svc : Service) (args : Option Bytes)
    → ForkPositive env
    → IsConsistent svc
    → IsConsistent (service_start env svc args).0
service_start-IsConsistent env svc args pos h = elim (Option-cases env.fork) [
  | inl failed ↦ unfold service_start in ground arith
  | inr (child, forked) ↦ let positive = pos child forked in unfold service_start in ground arith
]

stop_or_reset-IsConsistent :
    (svc : Service) (how : How) → IsConsistent svc → IsConsistent (service_stop_or_reset svc how).0
unfolding service_stop_or_reset
stop_or_reset-IsConsistent svc how_disabled h = ground arith
stop_or_reset-IsConsistent svc _ h = ground arith

-- The service behind the exit of its process, before a restart is considered.
abbrev pub exited : Service → Service
exited svc = record svc { pid = 0; flags = exited_flags svc.flags }

-- A service whose process is gone, and whose flags allow a restart.
record CanRestart (svc : Service) : Type 0 where
  gone : (svc.flags.running ≡ false) × (svc.pid ≡ 0)
  free : (svc.flags.disabled ≡ false) × (svc.flags.reset ≡ false)

consider_restart-IsConsistent :
    (now : ℕ) (svc : Service) (before : List Effect)
    → CanRestart svc
    → IsConsistent svc
    → IsConsistent (consider_restart now svc before).0
unfolding consider_restart
consider_restart-IsConsistent now svc before c h = ground (arith, c.gone, c.free)

exited-IsConsistent :
    (svc : Service) → svc.flags.running ≡ true → IsConsistent svc → IsConsistent (exited svc)
exited-IsConsistent svc r h = ground arith

process_exited-IsConsistent :
    (now : ℕ) (svc : Service)
    → svc.flags.running ≡ true
    → IsConsistent svc
    → IsConsistent (process_exited now svc).0
unfolding process_exited
process_exited-IsConsistent now svc r h =
    elim (Bool-cases ((exited svc).flags.disabled || (exited svc).flags.reset)) [
      | inl stays ↦ rw (stays, process_exited) (exited-IsConsistent svc r h)
      | inr goes ↦
          rw (goes, process_exited)
            (consider_restart-IsConsistent now (exited svc) _ (ground arith)
              (exited-IsConsistent svc r h))
    ]

restart_if_needed-IsConsistent :
    (env : StartEnv) (svc : Service) (needs : ℕ)
    → ForkPositive env
    → IsConsistent svc
    → IsConsistent (restart_service_if_needed env svc needs).0.0
unfolding restart_service_if_needed
restart_if_needed-IsConsistent env svc needs pos h =
    let cleared = record svc { flags = record svc.flags { restarting = false } } in
    let clear : IsConsistent cleared = ground arith in
    let started = service_start-IsConsistent env cleared none pos clear in
    elim (Bool-cases (leb (svc.time_started + 5) env.now)) [
      | inl due ↦ rw (due, restart_service_if_needed) started
      | inr early ↦ rw (early, restart_service_if_needed) h
    ]

service_restart-IsConsistent :
    (env : StartEnv) (svc : Service)
    → ForkPositive env
    → IsConsistent svc
    → IsConsistent (service_restart env svc).0
unfolding service_restart
service_restart-IsConsistent env svc pos h =
    if_elim Good svc.flags.running _ _ (λ r. stop_or_reset-IsConsistent svc how_restart h)
      (λ stopped.
        if_elim Good (not svc.flags.restarting) _ _
          (λ idle. service_start-IsConsistent env svc none pos h) (λ waits. h))

-- Whatever happens to a consistent service, with `fork` as it is, leaves it consistent.
pub happens-IsConsistent :
    (e : Happening) (svc : Service) → Positive e → IsConsistent svc → IsConsistent (happens e svc).0
unfolding happens
happens-IsConsistent (start env args) svc pos h = service_start-IsConsistent env svc args pos h
happens-IsConsistent (stop_or_reset how) svc pos h = stop_or_reset-IsConsistent svc how h
happens-IsConsistent (exit now) svc pos h = ground (arith, process_exited-IsConsistent now svc)
happens-IsConsistent (restart env) svc pos h = service_restart-IsConsistent env svc pos h
happens-IsConsistent (tick env needs) svc pos h =
    if_elim Good svc.flags.restarting _ _
      (λ waits. restart_if_needed-IsConsistent env svc needs pos h) (λ idle. h)

-- A row of happenings, with all the effects in order.
unfoldable pub history : List Happening → Service → Result
history [] svc = (svc, [])
history (e ∷ es) svc =
    let (next, effects) = happens e svc in
    let (last, more) = history es next in (last, effects ++ more)

-- A consistent service stays consistent over every history in which `fork` gives a positive number
-- or fails: its process is there exactly while SVC_RUNNING is set, and while it waits for a restart
-- it is neither running nor disabled nor reset nor to be restarted by hand.
pub history-IsConsistent :
    (es : List Happening) (svc : Service)
    → All Positive es
    → IsConsistent svc
    → IsConsistent (history es svc).0
unfolding history
history-IsConsistent [] svc pos h = h
history-IsConsistent (e ∷ es) svc pos h =
    history-IsConsistent es (happens e svc).0 pos.1 (happens-IsConsistent e svc pos.0 h)
