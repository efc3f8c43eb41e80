-- ===== src/Control/Timer.antt =====
-- When the main loop has to come back for the services that wait for their restart.
use asl.Base.{
  suc, ℕ, ◌+◌, ◌≤◌, ◌<◌, ◌≡◌, ◌⊎◌, inl, inr, false, Option, none, List, [], ◌∷◌, arith, if_elim,
  leb, ltb, ◌==◌, ◌||◌,
}
use asl.Base.Text.{Bytes}
use asl.Service.{Service, StartEnv, Result, service_start, restart_service_if_needed}
use asl.Control.{Results, restart_waiting, restart_processes}

-- A service does not wait, or its time is still to come at the time `now` and not before the time to come back.
abbrev pub InTime : ℕ → ℕ → Service → Type 0
InTime now needs svc =
    (svc.flags.restarting ≡ false)
    ⊎ ((now < svc.time_started + 5) × (0 < needs) × (needs ≤ svc.time_started + 5))

-- A time that is kept or brought forward.
abbrev Earlier : ℕ → ℕ → Type 0
Earlier before needs = (before ≡ 0) ⊎ ((0 < needs) × (needs ≤ before))

service_start-restarting :
    (env : StartEnv) (svc : Service) (args : Option Bytes)
    → (service_start env svc args).0.flags.restarting ≡ false
unfolding service_start
service_start-restarting env svc args = ground arith

restart_if_needed :
    (env : StartEnv) (svc : Service) (before : ℕ)
    → InTime env.now
        (restart_service_if_needed env svc before).1
        (restart_service_if_needed env svc before).0.0
      × Earlier before (restart_service_if_needed env svc before).1
unfolding restart_service_if_needed
restart_if_needed env svc before =
    if_elim (λ (r : Result × ℕ). InTime env.now r.1 r.0.0 × Earlier before r.1)
      (leb (svc.time_started + 5) env.now) _ _
      (λ due. (
        inl (
            service_start-restarting env
              (record svc { flags = record svc.flags { restarting = false } }) none),
        ground arith,
      ))
      (λ later.
        if_elim (λ (n : ℕ). InTime env.now n svc × Earlier before n)
          (ltb (svc.time_started + 5) before || before == 0) _ _
          (λ e. (inr (ground arith, omega arith, omega arith), ground (arith, e)))
          (λ e. (inr (ground arith, ground (arith, e), ground (arith, e)), ground (arith, e))))

InTime-Earlier :
    (now before needs : ℕ) (svc : Service)
    → Earlier before needs
    → InTime now before svc
    → InTime now needs svc
InTime-Earlier now before needs svc k (inl idle) = inl idle
InTime-Earlier now before needs svc (inl z) (inr w) = absurd (omega (arith, z, w.1))
InTime-Earlier now before needs svc (inr e) (inr w) = inr (w.0, e.0, omega (arith, e.1, w.2))

Earlier-trans : (a b c : ℕ) → Earlier a b → Earlier b c → Earlier a c
Earlier-trans a b c h k = ground (arith, h, k)

-- Every service, at the time at which the loop came to it.
abbrev pub AllInTime : (ℕ → StartEnv) → ℕ → List Service → Type 0
AllInTime envs needs [] = Unit
AllInTime envs needs (svc ∷ services) =
    InTime (envs 0).now needs svc × AllInTime (λ i. envs (suc i)) needs services

restart_waiting-InTime :
    (envs : ℕ → StartEnv) (services : List Service) (before : ℕ)
    → AllInTime envs
        (restart_waiting envs services before).1
        (restart_waiting envs services before).0.0
      × Earlier before (restart_waiting envs services before).1
unfolding restart_waiting
restart_waiting-InTime envs [] before = (tt, ground arith)
restart_waiting-InTime envs (svc ∷ services) before =
    let later : ℕ → StartEnv = λ i. envs (suc i) in
    let once = restart_service_if_needed (envs 0) svc before in
    let tried = restart_if_needed (envs 0) svc before in
    let after = restart_waiting-InTime later services once.1 in
    let skipped = restart_waiting-InTime later services before in
    if_elim (λ (r : Results × ℕ). AllInTime envs r.1 r.0.0 × Earlier before r.1)
      svc.flags.restarting _ _
      (λ e. (
        (InTime-Earlier (envs 0).now once.1 _ once.0.0 after.1 tried.0, after.0),
        Earlier-trans before once.1 _ tried.1 after.1,
      ))
      (λ e. ((inl e, skipped.0), skipped.1))

-- After `restart_processes`, every service that still waits for its restart had its time in the future
-- when the loop came to it, and the time at which `main` comes back is set and not after it.
pub restart_processes-InTime :
    (envs : ℕ → StartEnv) (services : List Service)
    → AllInTime envs (restart_processes envs services).1 (restart_processes envs services).0.0
unfolding restart_processes
restart_processes-InTime envs services = (restart_waiting-InTime envs services 0).0
