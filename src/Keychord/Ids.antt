-- ===== src/Keychord/Ids.antt =====
-- The number of a key chord leads back to its service.
use asl.Base.{
  ℕ, zero, suc, ◌+◌, ◌≤◌, ◌<◌, ◌≡◌, ◌≢◌, ◌⊎◌, inl, inr, refl, ap, false, some, List, [], ◌∷◌, arith,
  ◌==◌, ==_iff, if_elim, length, length-append, get_elem?, All, All-get,
}
use asl.Service.{Service}
use asl.Parser.{find_service, service_find_by_keychord}
use asl.Keychord.{InputKeychord, has_none, add_service_keycodes, add_all, keychord_init}

-- No number yet.
abbrev pub IsFresh : Service → Type 0
IsFresh svc = svc.keychord_id ≡ 0

-- None, or one behind `n`.
abbrev Above : ℕ → Service → Type 0
Above n svc = (svc.keychord_id ≡ 0) ⊎ (n < svc.keychord_id)

-- What is added for one service: nothing, or the next number.
abbrev Added : ℕ → Service × List InputKeychord → Type 0
Added n r =
    ((r.0.keychord_id ≡ 0) × (length r.1 ≡ n)) ⊎ ((r.0.keychord_id ≡ n + 1) × (length r.1 ≡ n + 1))

add_service_keycodes-Added :
    (svc : Service) (keychords : List InputKeychord)
    → IsFresh svc
    → length keychords + 1 < 65536
    → Added (length keychords) (add_service_keycodes svc keychords)
unfolding add_service_keycodes
add_service_keycodes-Added svc keychords fresh few =
    if_elim (Added (length keychords)) (has_none svc.keycodes) _ _ (λ e. inl (fresh, refl))
      (λ e. inr (omega (arith, few), length-append keychords _))

Above-weaken :
    (m n : ℕ) (services : List Service) → m ≤ n → All (Above n) services → All (Above m) services
Above-weaken m n [] h a = tt
Above-weaken m n (svc ∷ services) h a = (ground (arith, h, a.0), Above-weaken m n services h a.1)

add_all-Above :
    (services : List Service) (keychords : List InputKeychord)
    → All IsFresh services
    → length keychords + length services < 65536
    → All (Above (length keychords)) (add_all services keychords).0
unfolding add_all
add_all-Above [] keychords fresh few = tt
add_all-Above (svc ∷ services) keychords fresh few =
    let added = add_service_keycodes svc keychords in
    let step = add_service_keycodes-Added svc keychords fresh.0 (omega (arith, few)) in
    let behind = add_all-Above services added.1 fresh.1 (ground (arith, step, few)) in
    (
      ground (arith, step),
      Above-weaken (length keychords) (length added.1) (add_all services added.1).0
          (ground (arith, step)) behind,
    )

add_all-find :
    (services : List Service) (keychords : List InputKeychord) (i : ℕ) (svc : Service)
    → All IsFresh services
    → length keychords + length services < 65536
    → get_elem? (add_all services keychords).0 i ≡ some svc
    → svc.keychord_id ≢ 0
    → service_find_by_keychord svc.keychord_id (add_all services keychords).0 ≡ some i
unfolding add_all find_service
add_all-find [] keychords i svc fresh few at some_id = cc at
add_all-find (s ∷ services) keychords zero svc fresh few at some_id =
    let here : (add_service_keycodes s keychords).0 ≡ svc = cc at in
    rw ((==_iff _ _).1 (ap (λ (r : Service). r.keychord_id) here)) refl
add_all-find (s ∷ services) keychords (suc i) svc fresh few at some_id =
    let added = add_service_keycodes s keychords in
    let step = add_service_keycodes-Added s keychords fresh.0 (omega (arith, few)) in
    let room : length added.1 + length services < 65536 = ground (arith, step, few) in
    let later = add_all-Above services added.1 fresh.1 room in
    let above = All-get (Above (length added.1)) (add_all services added.1).0 i svc later at in
    let other : (added.0.keychord_id == svc.keychord_id) ≡ false =
      ground (arith, step, above, some_id) in
    rw other (rw (add_all-find services added.1 i svc fresh.1 room at some_id) refl)

-- If no service has a number before, and there are fewer than 65536 services, then the number that
-- `keychord_init` gives to a service is one by which that service is found.
pub keychord_init-find :
    (services : List Service) (i : ℕ) (svc : Service)
    → All IsFresh services
    → length services < 65536
    → get_elem? (keychord_init services).0 i ≡ some svc
    → svc.keychord_id ≢ 0
    → service_find_by_keychord svc.keychord_id (keychord_init services).0 ≡ some i
unfolding keychord_init
keychord_init-find services i svc fresh few =
    add_all-find services [] i svc fresh (omega (arith, few))
