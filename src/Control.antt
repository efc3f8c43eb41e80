-- ===== src/Control.antt =====
-- The service list at work: the loops over `service_list` of init_parser.c, and the control
-- messages and `restart_processes` of init.c.
pub mod Reach
pub mod Timer
mod Tests
use asl.Base.{
  ℕ, zero, suc, ◌+◌, Bool, true, false, ◌&&◌, ◌||◌, Option, none, some, List, [], ◌∷◌, ◌++◌, ◌==◌,
  leb, ltb, if◌then◌else◌,
}
use asl.Base.Text.{Bytes, codes, str_eq, split_at}
use asl.Service.{
  Service, Flags, StartEnv, Effect, Result, service_start, service_stop, service_reset,
  service_restart, restart_service_if_needed,
}
use asl.Parser.{service_find_by_name}

-- The services after a function, and what it did.
abbrev pub Results : Type 0
Results = List Service × List Effect

-- A function on the service at a place.
abbrev pub apply_at : (Service → Result) → ℕ → List Service → Results
apply_at f i [] = ([], [])
apply_at f zero (svc ∷ services) = ((f svc).0 ∷ services, (f svc).1)
apply_at f (suc i) (svc ∷ services) = let rest = apply_at f i services in (svc ∷ rest.0, rest.1)

-- The loops of the three `service_for_each` functions: a function on the services that pass a test,
-- in order. The function has the service's place, as it asks the system anew for each service.
unfoldable pub service_for_each_where :
    (Service → Bool) → (ℕ → Service → Result) → List Service → Results
service_for_each_where test func [] = ([], [])
service_for_each_where test func (svc ∷ services) =
    let later : ℕ → Service → Result = λ i. func (suc i) in
    let rest = service_for_each_where test later services in
    if test svc then ((func 0 svc).0 ∷ rest.0, (func 0 svc).1 ++ rest.1) else (svc ∷ rest.0, rest.1)

abbrev pub service_for_each : (ℕ → Service → Result) → List Service → Results
service_for_each = service_for_each_where (λ svc. true)

abbrev pub service_for_each_class : Bytes → (ℕ → Service → Result) → List Service → Results
service_for_each_class classname =
    service_for_each_where (λ (svc : Service). str_eq svc.classname classname)

abbrev pub service_for_each_flags : (Flags → Bool) → (ℕ → Service → Result) → List Service → Results
service_for_each_flags matchflags = service_for_each_where (λ (svc : Service). matchflags svc.flags)

-- A function on the service that was found.
abbrev pub on_service : (Service → Result) → Option ℕ → List Service → Results
on_service f none services = (services, [])
on_service f (some i) services = apply_at f i services

abbrev pub service_name : Bytes → Bytes
service_name arg = elim (split_at b':' arg) [ none ↦ arg | some (tmp, args) ↦ tmp ]

abbrev dynamic_args : Bytes → Option Bytes
dynamic_args arg = elim (split_at b':' arg) [ none ↦ none | some (tmp, args) ↦ some args ]

unfoldable pub msg_start : StartEnv → Bytes → List Service → Results
msg_start env arg services =
    on_service (λ svc. service_start env svc (dynamic_args arg))
      (service_find_by_name (service_name arg) services) services

unfoldable pub msg_stop : Bytes → List Service → Results
msg_stop arg services = on_service service_stop (service_find_by_name arg services) services

unfoldable pub msg_restart : StartEnv → Bytes → List Service → Results
msg_restart env arg services =
    on_service (service_restart env) (service_find_by_name arg services) services

unfoldable pub handle_control_message : StartEnv → Bytes → Bytes → List Service → Results
unfolding msg_start msg_stop msg_restart
handle_control_message env msg arg services =
    if str_eq msg (codes "start")
    then msg_start env arg services
    else if str_eq msg (codes "stop")
    then msg_stop arg services
    else if str_eq msg (codes "restart")
    then msg_restart env arg services
    else (services, [])

-- The loop of `restart_processes` with the static variable `process_needs_restart`; the system is
-- asked anew for each service.
unfoldable pub restart_waiting : (ℕ → StartEnv) → List Service → ℕ → Results × ℕ
restart_waiting envs [] needs = (([], []), needs)
restart_waiting envs (svc ∷ services) needs =
    let later : ℕ → StartEnv = λ i. envs (suc i) in
    let tried = restart_service_if_needed (envs 0) svc needs in
    let after = restart_waiting later services tried.1 in
    let skipped = restart_waiting later services needs in
    if svc.flags.restarting
    then ((tried.0.0 ∷ after.0.0, tried.0.1 ++ after.0.1), after.1)
    else ((svc ∷ skipped.0.0, skipped.0.1), skipped.1)

unfoldable pub restart_processes : (ℕ → StartEnv) → List Service → Results × ℕ
unfolding restart_waiting
restart_processes envs services = restart_waiting envs services 0
