-- ===== src/Boot/Loop.antt =====
-- The time-out of the loop of `main`, and the restarts that it must not miss.
use asl.Base.{
  ℕ, suc, ◌+◌, ◌-◌, ◌*◌, ◌≤◌, ◌≡◌, ◌⊎◌, inl, inr, refl, Bool, true, false, not, ◌||◌, Option, none,
  some, List, [], ◌∷◌, arith, ◌==◌, if◌then◌else◌, if_elim, All,
}
use asl.Service.{Service, StartEnv}
use asl.Control.{restart_processes}
use asl.Control.Timer.{InTime, AllInTime, restart_processes-InTime}

abbrev is_set : Option ℕ → Bool
is_set none = false
is_set (some act) = true

-- The milliseconds that `poll` waits, where none is -1; `action_queue_empty` and `cur_action` are last.
unfoldable pub poll_timeout : ℕ → ℕ → Bool → Option ℕ → Option ℕ
poll_timeout process_needs_restart now queue_empty cur_action =
    if not queue_empty || is_set cur_action
    then some 0
    else if process_needs_restart == 0
    then none
    else some ((process_needs_restart - now) * 1000)

-- `poll` waits no longer than to the second in which the service is due, or not at all.
abbrev pub WakesFor : ℕ → Option ℕ → Service → Type 0
WakesFor now timeout svc =
    (svc.flags.restarting ≡ false)
    ⊎ ((t : ℕ) × (timeout ≡ some t) × ((t ≡ 0) ⊎ (now * 1000 + t ≤ (svc.time_started + 5) * 1000)))

InTime-WakesFor :
    (needs before now : ℕ) (queue_empty : Bool) (cur_action : Option ℕ) (svc : Service)
    → InTime before needs svc
    → WakesFor now (poll_timeout needs now queue_empty cur_action) svc
unfolding poll_timeout
InTime-WakesFor needs before now queue_empty cur_action svc (inl idle) = inl idle
InTime-WakesFor needs before now queue_empty cur_action svc (inr w) =
    if_elim (λ (r : Option ℕ). WakesFor now r svc) (not queue_empty || is_set cur_action) _ _
      (λ e. inr (0, refl, inl refl))
      (λ e.
        if_elim (λ (r : Option ℕ). WakesFor now r svc) (needs == 0) _ _
          (λ z. absurd (ground (arith, z, w)))
          (λ z. inr ((needs - now) * 1000, refl, ground (arith, w))))

all-WakesFor :
    (envs : ℕ → StartEnv) (needs now : ℕ) (queue_empty : Bool) (cur_action : Option ℕ)
    (services : List Service)
    → AllInTime envs needs services
    → All (WakesFor now (poll_timeout needs now queue_empty cur_action)) services
all-WakesFor envs needs now queue_empty cur_action [] h = tt
all-WakesFor envs needs now queue_empty cur_action (svc ∷ services) h = (
  InTime-WakesFor needs (envs 0).now now queue_empty cur_action svc h.0,
  all-WakesFor (λ i. envs (suc i)) needs now queue_empty cur_action services h.1,
)

-- Behind `restart_processes`, whatever the clock then says, the loop does not wait beyond the second in
-- which a service that waits for its restart is due: `poll` has a time-out that ends by then, or it
-- returns at once.
pub poll_timeout-WakesFor :
    (envs : ℕ → StartEnv) (services : List Service) (now : ℕ) (queue_empty : Bool)
    (cur_action : Option ℕ)
    → All
        (WakesFor now (poll_timeout (restart_processes envs services).1 now queue_empty cur_action))
        (restart_processes envs services).0.0
poll_timeout-WakesFor envs services now queue_empty cur_action =
    all-WakesFor envs (restart_processes envs services).1 now queue_empty cur_action
      (restart_processes envs services).0.0 (restart_processes-InTime envs services)
