-- ===== src/Service/Count.antt =====
-- The counting of the crashes of a critical service.
use asl.Base.{
  ℕ, ◌+◌, ◌≤◌, ◌≡◌, refl, Bool, true, false, ◌||◌, Option, none, List, [], ◌∷◌, arith, if_elim,
  if◌then◌else◌, leb,
}
use asl.Base.Text.{Bytes}
use asl.Service.{
  Service, StartEnv, Effect, reboot_recovery, Result, service_start, restart_service_if_needed,
  critical_crash_window,
}
use asl.Service.Invariant.{Happening, start, exit, tick, happens}

abbrev pub is_reboot : Effect → Bool
is_reboot reboot_recovery = true
is_reboot _ = false

-- Whether the device reboots into recovery mode.
unfoldable pub reboots : List Effect → Bool
reboots [] = false
reboots (e ∷ es) = is_reboot e || reboots es

-- How many exits of a history are those of a running process.
unfoldable pub exits : List Happening → Service → ℕ
exits [] svc = 0
exits (exit now ∷ es) svc =
    (if svc.flags.running then 1 else 0) + exits es (happens (exit now) svc).0
exits (e ∷ es) svc = exits es (happens e svc).0

-- Starts, restarts by `restart_processes`, and exits up to the end of the window that begins at
-- `since`.
abbrev pub InWindow : ℕ → Happening → Type 0
InWindow since (start env args) = Unit
InWindow since (tick env needs) = Unit
InWindow since (exit now) = now ≤ since + critical_crash_window
InWindow since _ = ⊥

-- A critical service whose crashes are counted since `since`, and that nobody stopped.
pub record IsCounting (since : ℕ) (svc : Service) : Type 0 where
  pub is_critical : svc.flags.critical ≡ true
  pub not_oneshot : svc.flags.oneshot ≡ false
  pub not_reset : svc.flags.reset ≡ false
  pub not_restart : svc.flags.restart ≡ false
  pub enabled : svc.flags.running ≡ true → svc.flags.disabled ≡ false
  pub window : svc.time_crashed ≡ since

-- The service goes on counting, from `n`, and the device reboots if `b`.
pub record Counts (since n : ℕ) (b : Bool) (r : Result) : Type 0 where
  pub counting : IsCounting since r.0
  pub count : r.0.nr_crashed ≡ n
  pub reboot : reboots r.1 ≡ b

pub service_start-Counts :
    (since : ℕ) (env : StartEnv) (svc : Service) (args : Option Bytes)
    → IsCounting since svc
    → Counts since svc.nr_crashed false (service_start env svc args)
unfolding service_start reboots
service_start-Counts since env svc args h = record {
  counting = ground arith;
  count = ground arith;
  reboot = ground arith;
}

pub start-Counts :
    (since : ℕ) (env : StartEnv) (svc : Service) (args : Option Bytes)
    → IsCounting since svc
    → Counts since svc.nr_crashed false (happens (start env args) svc)
unfolding happens
start-Counts since env svc args h = service_start-Counts since env svc args h

pub tick-Counts :
    (since needs : ℕ) (env : StartEnv) (svc : Service)
    → IsCounting since svc
    → Counts since svc.nr_crashed false (happens (tick env needs) svc)
unfolding happens reboots
tick-Counts since needs env svc h =
    if_elim (Counts since svc.nr_crashed false) svc.flags.restarting _ _ (λ waits. due)
      (λ idle. record { counting = h; count = refl; reboot = refl })
  where
    cleared : Service
    cleared = record svc { flags = record svc.flags { restarting = false } }

    clear : IsCounting since cleared
    clear = ground arith

    due : Counts since svc.nr_crashed false (restart_service_if_needed env svc needs).0
    due =
        unfold restart_service_if_needed in
        if_elim (λ (r : Result × ℕ). Counts since svc.nr_crashed false r.0)
          (leb (svc.time_started + 5) env.now) _ _
          (λ e. service_start-Counts since env cleared none clear)
          (λ e. record { counting = h; count = refl; reboot = refl })
