-- ===== src/Props/Socket/Guard.antt =====
-- What clients can do to the properties, and what they cannot.
use asl.Base.{
  ◌+◌, ◌⊎◌, ltb, length, ◌≡◌, Bool, true, false, some, List, [], ◌∷◌, if◌then◌else◌, drop,
}
use asl.Base.Text.{Bytes, codes, starts_with}
use asl.Props.{Bionic, Props, Event, closed, control, emit, property_set, property_get}
use asl.Props.Area.{Distinct}
use asl.Props.Perms.{AndroidIds, check_perms, check_control_perms}
use asl.Props.Set.Layout.{IsLaidOut, property_set-IsLaidOut}
use asl.Props.Set.Results.{property_set-Distinct, ro_kept}
use asl.Service.{StartEnv, Effect, spawn, kill_group, notify, unlink_socket, run, reboot_recovery}
use asl.Control.{handle_control_message}
use asl.Props.Socket.{
  Shared, service_property, notify_service_state, notify_all, control_services, setprop, unknown,
  Incoming, no_connection, no_credentials, wrong_size, message, terminated, handle_setprop,
  handle_property_set_fd, serve,
}

if_keeps : {A : Type 0} (P : A → Type 0) (b : Bool) (x y : A) → P x → P y → P (if b then x else y)
if_keeps P true x y h k = h
if_keeps P false x y h k = k

module _ (bionic : Bionic) (ids : AndroidIds) where
  open bionic use {prop_name_max, prop_value_max}

  -- What the sets of the properties of services keep, all effects on services keep.
  notify_inv :
      (P : Props → Type 0)
      → ((name state : Bytes) (s : Props)
          → P s
          → P (property_set bionic (service_property bionic name) state s).0)
      → (effects : List Effect) (s : Props) → P s
      → P (notify_all bionic effects s)
  unfolding notify_all notify_service_state
  notify_inv P keep [] s p = p
  notify_inv P keep (notify name state ∷ effects) s p =
      notify_inv P keep effects _
        (if_keeps P (ltb prop_name_max (length name + 10)) _ _ p (keep name state s p))
  notify_inv P keep (spawn name args ∷ effects) s p = notify_inv P keep effects s p
  notify_inv P keep (kill_group pid ∷ effects) s p = notify_inv P keep effects s p
  notify_inv P keep (unlink_socket name ∷ effects) s p = notify_inv P keep effects s p
  notify_inv P keep (run command ∷ effects) s p = notify_inv P keep effects s p
  notify_inv P keep (reboot_recovery ∷ effects) s p = notify_inv P keep effects s p

  -- A property of the store that `property_set` and every event keep is kept by every request.
  module _ (P : Props → Type 0)
      (keep : (n v : Bytes) (s : Props) → P s → P (property_set bionic n v s).0)
      (note : (e : Event) (s : Props) → P s → P (emit e s)) where
    pub handle_inv :
        (env : StartEnv) (r : Incoming) (st : Shared)
        → P st.0
        → P (handle_property_set_fd bionic ids env r st).0
    unfolding handle_property_set_fd handle_setprop control_services
    handle_inv env no_connection st p = p
    handle_inv env no_credentials (s, services) p = note closed s p
    handle_inv env (wrong_size cr) (s, services) p = note closed s p
    handle_inv env (message cr unknown name value) (s, services) p = note closed s p
    handle_inv env (message cr setprop raw_name raw_value) (s, services) p =
        let name = terminated prop_name_max raw_name in
        let value = terminated prop_value_max raw_value in
        if_keeps (λ (t : Shared). P t.0) (starts_with (codes "ctl.") name) _ _
          (if_keeps (λ (t : Shared). P t.0) (check_control_perms ids value cr.uid cr.gid) _ _
            (notify_inv P (λ name state t q. keep (service_property bionic name) state t q)
              (handle_control_message env (drop 4 name) value services).1 _
              (note (control (drop 4 name) value) _ (note closed s p)))
            (note closed s p))
          (note closed _
            (if_keeps P (check_perms ids name cr.uid cr.gid) _ _ (keep name value s p) p))

    serve_inv :
        (rs : List (StartEnv × Incoming)) (st : Shared) → P st.0 → P (serve bionic ids rs st).0
    unfolding serve
    serve_inv [] st p = p
    serve_inv ((env, r) ∷ rs) st p =
        serve_inv rs (handle_property_set_fd bionic ids env r st) (handle_inv env r st p)

  -- Whatever clients send, the area stays laid out and no name occurs twice in it.
  pub serve-IsLaidOut :
      (rs : List (StartEnv × Incoming)) (st : Shared)
      → IsLaidOut bionic st.0
      → Distinct st.0.infos
      → IsLaidOut bionic (serve bionic ids rs st).0 × Distinct (serve bionic ids rs st).0.infos
  serve-IsLaidOut rs st h d =
      serve_inv (λ t. IsLaidOut bionic t × Distinct t.infos)
        (λ n v t p.
          (property_set-IsLaidOut bionic n v t p.0, property_set-Distinct bionic n v t p.1))
        (λ e t p. (record { count = p.0.count; toc_lists = p.0.toc_lists; fits = p.0.fits }, p.1))
        rs st (h, d)

  -- Whatever clients send, root included, a ro. property that has a value keeps it.
  pub serve_ro_kept :
      (n v : Bytes) (rs : List (StartEnv × Incoming)) (st : Shared)
      → Distinct st.0.infos
      → starts_with (codes "ro.") n ≡ true
      → property_get bionic n st.0 ≡ some v
      → property_get bionic n (serve bionic ids rs st).0 ≡ some v
  serve_ro_kept n v rs st d ro has =
      (serve_inv Holds
        (λ m w t p. (property_set-Distinct bionic m w t p.0, ro_kept bionic n v m w t p.0 ro p.1))
        (λ e t p. (p.0, unfold property_get in p.1)) rs st (d, has)).1
    where
      Holds : Props → Type 0
      Holds t = Distinct t.infos × (property_get bionic n t ≡ some v)

  -- The request is no permitted set of the property `m`, and if `m` is the property of a service, no
  -- permitted control message.
  abbrev pub NotPermitted : Bytes → StartEnv × Incoming → Type 0
  NotPermitted m (env, message cr setprop name value) =
      (terminated prop_name_max name ≡ m → check_perms ids m cr.uid cr.gid ≡ false)
      × ((starts_with (codes "init.svc.") m ≡ false)
          ⊎ (starts_with (codes "ctl.") (terminated prop_name_max name) ≡ false)
          ⊎ (check_control_perms ids (terminated prop_value_max value) cr.uid cr.gid ≡ false))
  NotPermitted m _ = Unit

  pub handle-Distinct :
      (env : StartEnv) (r : Incoming) (st : Shared)
      → Distinct st.0.infos
      → Distinct (handle_property_set_fd bionic ids env r st).0.infos
  handle-Distinct =
      handle_inv (λ t. Distinct t.infos) (λ n v t d. property_set-Distinct bionic n v t d)
        (λ e t d. d)
