-- ===== src/Control/Reach.antt =====
-- Which services a control message reaches.
use asl.Base.{
  ℕ, zero, suc, ◌≡◌, ◌≢◌, inl, inr, refl, sym, ap, ◌∙◌, subst, Bool, true, false, some, List, [],
  ◌∷◌, arith, if_elim, get_elem?, Bool-cases, Option-cases,
}
use asl.Base.Text.{Bytes, codes, str_eq}
use asl.Service.{Service, StartEnv, Result, service_stop, service_restart}
use asl.Parser.{find_service, service_find_by_name}
use asl.Control.{
  Results, apply_at, on_service, service_name, msg_start, msg_stop, msg_restart,
  handle_control_message,
}

-- What is found passes the test.
find_service-some :
    (test : Service → Bool) (services : List Service) (i : ℕ)
    → find_service test services ≡ some i
    → (svc : Service) × (get_elem? services i ≡ some svc) × (test svc ≡ true)
unfolding find_service
find_service-some test [] i h = cc h
find_service-some test (svc ∷ services) i h = elim (Bool-cases (test svc)) [
  | inl e ↦ first e i (rw e at h)
  | inr e ↦ elim (Option-cases (find_service test services)) [
    | inl f ↦ absurd (ground (arith, h, e, f))
    | inr (j, f) ↦ later i j (find_service-some test services j f) (rw (e, f) at h)
  ]
]
  where
    Found : ℕ → Type 0
    Found i = (s : Service) × (get_elem? (svc ∷ services) i ≡ some s) × (test s ≡ true)

    same : (a b : ℕ) → some a ≡ some b → a ≡ b
    same a b g = cc g

    first : test svc ≡ true → (i : ℕ) → some 0 ≡ some i → Found i
    first e i g = subst Found (same 0 i g) (svc, refl, e)

    later :
        (i j : ℕ)
        → ((s : Service) × (get_elem? services j ≡ some s) × (test s ≡ true))
        → some (suc j) ≡ some i
        → Found i
    later i j k g = subst Found (same (suc j) i g) k

apply_at-other :
    (f : Service → Result) (i j : ℕ) (services : List Service)
    → j ≢ i
    → get_elem? (apply_at f i services).0 j ≡ get_elem? services j
apply_at-other f i j [] ne = refl
apply_at-other f zero zero (svc ∷ services) ne = absurd (ne refl)
apply_at-other f zero (suc j) (svc ∷ services) ne = refl
apply_at-other f (suc i) zero (svc ∷ services) ne = refl
apply_at-other f (suc i) (suc j) (svc ∷ services) ne =
    apply_at-other f i j services (λ e. ne (ap suc e))

-- A function on the service with a name leaves a service with another name as it is.
on_service-other :
    (f : Service → Result) (n : Bytes) (j : ℕ) (svc : Service) (services : List Service)
    → get_elem? services j ≡ some svc
    → str_eq svc.name n ≡ false
    → get_elem? (on_service f (service_find_by_name n services) services).0 j ≡ some svc
on_service-other f n j svc services at ne = elim (Option-cases (service_find_by_name n services)) [
  | inl e ↦ rw e at
  | inr (i, e) ↦
      rw e (apply_at-other f i j services (apart i (find_service-some _ services i e)) ∙ at)
]
  where
    apart :
        (i : ℕ)
        → ((s : Service) × (get_elem? services i ≡ some s) × (str_eq s.name n ≡ true))
        → j ≢ i
    apart i (s, at_i, named) same =
        let both : some svc ≡ some s = sym at ∙ (ap (get_elem? services) same ∙ at_i) in
        let svc_s : svc ≡ s = cc both in
        ground (arith, ne, subst (λ (r : Service). str_eq r.name n ≡ true) (sym svc_s) named)

-- A control message leaves every service alone that it does not name, wherever that stands.
pub control_leaves_others :
    (env : StartEnv) (msg arg : Bytes) (j : ℕ) (svc : Service) (services : List Service)
    → get_elem? services j ≡ some svc
    → str_eq svc.name (service_name arg) ≡ false
    → str_eq svc.name arg ≡ false
    → get_elem? (handle_control_message env msg arg services).0 j ≡ some svc
unfolding handle_control_message msg_start msg_stop msg_restart
control_leaves_others env msg arg j svc services at ne_start ne =
    if_elim Kept (str_eq msg (codes "start")) _ _
      (λ e. on_service-other _ (service_name arg) j svc services at ne_start)
      (λ e.
        if_elim Kept (str_eq msg (codes "stop")) _ _
          (λ e. on_service-other service_stop arg j svc services at ne)
          (λ e.
            if_elim Kept (str_eq msg (codes "restart")) _ _
              (λ e. on_service-other (service_restart env) arg j svc services at ne) (λ e. at)))
  where
    Kept : Results → Type 0
    Kept r = get_elem? r.0 j ≡ some svc
