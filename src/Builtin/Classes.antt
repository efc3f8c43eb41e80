-- ===== src/Builtin/Classes.antt =====
-- The commands on services, and that a stopped class stays as it is.
use asl.Base.{ℕ, suc, ◌≡◌, refl, true, none, List, [], ◌∷◌, if◌then◌else◌, if_elim, arith}
use asl.Base.Text.{Bytes, str_eq}
use asl.Builtin.{arg}
use asl.Service.{
  Service, StartEnv, Result, service_start, service_stop, service_reset, service_restart,
  service_stop_or_reset,
}
use asl.Parser.{service_find_by_name}
use asl.Control.{Results, on_service, service_for_each_where, service_for_each_class}

unfoldable pub service_start_if_not_disabled : StartEnv → Service → Result
service_start_if_not_disabled env svc =
    let started = service_start env svc none in if svc.flags.disabled then (svc, []) else started

unfoldable pub do_class_start : (ℕ → StartEnv) → List Bytes → List Service → Results
unfolding service_start_if_not_disabled
do_class_start envs args services =
    service_for_each_class (arg args 1) (λ i. service_start_if_not_disabled (envs i)) services

unfoldable pub do_class_stop : List Bytes → List Service → Results
do_class_stop args services = service_for_each_class (arg args 1) (λ i. service_stop) services

unfoldable pub do_class_reset : List Bytes → List Service → Results
do_class_reset args services = service_for_each_class (arg args 1) (λ i. service_reset) services

unfoldable pub do_start : StartEnv → List Bytes → List Service → Results
do_start env args services =
    on_service (λ svc. service_start env svc none) (service_find_by_name (arg args 1) services)
      services

unfoldable pub do_stop : List Bytes → List Service → Results
do_stop args services =
    on_service service_stop (service_find_by_name (arg args 1) services) services

unfoldable pub do_restart : StartEnv → List Bytes → List Service → Results
do_restart env args services =
    on_service (service_restart env) (service_find_by_name (arg args 1) services) services

-- What a start of the class leaves alone.
IsLeft : (ℕ → StartEnv) → Bytes → List Service → Type 0
IsLeft envs classname l =
    service_for_each_class classname (λ i. service_start_if_not_disabled (envs i)) l ≡ (l, [])

more-IsLeft :
    (envs : ℕ → StartEnv) (classname : Bytes) (svc : Service) (l : List Service)
    → (str_eq svc.classname classname ≡ true → svc.flags.disabled ≡ true)
    → IsLeft (λ i. envs (suc i)) classname l
    → IsLeft envs classname (svc ∷ l)
unfolding service_for_each_where service_start_if_not_disabled IsLeft
more-IsLeft envs classname svc l h p =
    if_elim (λ (r : Results). r ≡ (svc ∷ l, [])) (str_eq svc.classname classname) _ _
      (λ e. rw (h e, p) refl) (λ e. rw p refl)

-- A service that is behind `class_stop` is started by no `class_start` of that class: the services stay
-- as they were left, and nothing is done.
pub do_class_start-class_stop :
    (envs : ℕ → StartEnv) (args : List Bytes) (services : List Service)
    → do_class_start envs args (do_class_stop args services).0
      ≡ ((do_class_stop args services).0, [])
unfolding do_class_start do_class_stop service_for_each_where service_stop_or_reset IsLeft
do_class_start-class_stop envs args [] = refl
do_class_start-class_stop envs args (svc ∷ services) =
    let later : ℕ → StartEnv = λ i. envs (suc i) in
    if_elim (λ (r : Results). IsLeft envs (arg args 1) r.0) (str_eq svc.classname (arg args 1)) _ _
      (λ e.
        more-IsLeft envs (arg args 1) (service_stop svc).0 _ (λ f. refl)
          (do_class_start-class_stop later args services))
      (λ e.
        more-IsLeft envs (arg args 1) svc _ (λ f. absurd (ground (arith, e, f)))
          (do_class_start-class_stop later args services))
