-- ===== src/Control/Tests.antt =====
-- Two services, and the theorems at them.
use asl.Base.{ℕ, ◌+◌, ◌≡◌, refl, true, false, some, [], ◌∷◌, get_elem?}
use asl.Base.Text.{codes, str_eq, split_at}
use asl.Service.{Service, StartEnv}
use asl.Parser.{new_service}
use asl.Control.{service_name, handle_control_message, restart_processes}
use asl.Control.Reach.{control_leaves_others}
use asl.Control.Timer.{AllInTime, restart_processes-InTime}

abbrev adbd : Service
adbd = new_service (codes "adbd") (codes "/sbin/adbd" ∷ [])

-- A service that waits since its start at 100.
abbrev zygote : Service
zygote =
    let svc = new_service (codes "zygote") (codes "/system/bin/app_process" ∷ []) in
    record svc { time_started = 100; flags = record svc.flags { restarting = true } }

abbrev env : StartEnv
env = record {
  have_console = true;
  stat = λ path. true;
  fork = some 42;
  now = 103;
  properties_inited = true;
}

control_leaves_others_example :
    get_elem? (handle_control_message env (codes "stop") (codes "adbd") (adbd ∷ zygote ∷ [])).0 1
    ≡ some zygote
control_leaves_others_example =
    control_leaves_others env (codes "stop") (codes "adbd") 1 zygote (adbd ∷ zygote ∷ []) refl
      other_start other
  where
    other_start : str_eq (codes "zygote") (service_name (codes "adbd")) ≡ false
    other_start = unfold split_at str_eq in refl

    other : str_eq (codes "zygote") (codes "adbd") ≡ false
    other = unfold str_eq in refl

-- The clock moves on between the services.
abbrev envs : ℕ → StartEnv
envs i = record env { now = 103 + i }

restart_processes-InTime_example :
    AllInTime envs
      (restart_processes envs (zygote ∷ adbd ∷ zygote ∷ [])).1
      (restart_processes envs (zygote ∷ adbd ∷ zygote ∷ [])).0.0
restart_processes-InTime_example = restart_processes-InTime envs (zygote ∷ adbd ∷ zygote ∷ [])
