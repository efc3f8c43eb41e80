-- ===== src/Props/Dictionary/Refines.antt =====
-- That the property service behaves as the dictionary.
use asl.Base.{
  ◌+◌, Bool, true, false, if_elim, drop, ltb, ◌≡◌, inl, inr, refl, sym, ap, ◌∙◌, List, [], ◌∷◌,
  ◌++◌, ltb, if◌then◌else◌, length, Bool-cases,
}
use asl.Base.Text.{Bytes, codes, starts_with}
use asl.Props.{Bionic, Props, property_set}
use asl.Props.Area.{Distinct}
use asl.Props.Perms.{AndroidIds, check_perms, check_control_perms}
use asl.Props.Set.Results.{property_set-Distinct}
use asl.Service.{
  Service, StartEnv, Effect, spawn, kill_group, notify, unlink_socket, run, reboot_recovery,
}
use asl.Control.{handle_control_message}
use asl.Props.Socket.{
  Shared, service_property, notify_service_state, notify_all, control_services, Ucred, Incoming,
  no_connection, no_credentials, wrong_size, message, setprop, unknown, terminated, handle_setprop,
  handle_property_set_fd, serve,
}
use asl.Props.Socket.Guard.{handle-Distinct}
use asl.Props.Dictionary.{
  state_set, state_sets, Dictionary, put_noted, put_all, permitted, all_permitted, view,
}
use asl.Props.Dictionary.Sets.{view-emit, property_set-view}

module _ (bionic : Bionic) where
  open bionic use {prop_name_max, prop_value_max}

  put_all-append :
      (xs ys : List (Bytes × Bytes)) (a : Dictionary)
      → put_all bionic (xs ++ ys) a ≡ put_all bionic ys (put_all bionic xs a)
  put_all-append [] ys a = refl
  put_all-append ((n, v) ∷ xs) ys a = put_all-append xs ys (put_noted bionic n v a)

  notify_service_state-view :
      (name state : Bytes) (s : Props)
      → Distinct s.infos
      → view bionic (notify_service_state bionic name state s)
        ≡ put_all bionic (state_set bionic name state) (view bionic s)
  unfolding notify_service_state
  notify_service_state-view name state s d = go (ltb prop_name_max (length name + 10))
    where
      n : Bytes
      n = service_property bionic name

      go :
          (long : Bool)
          → view bionic (if long then s else (property_set bionic n state s).0)
            ≡ put_all bionic (if long then [] else (n, state) ∷ []) (view bionic s)
      go true = refl
      go false = property_set-view bionic n state s d

  notify_service_state-Distinct :
      (name state : Bytes) (s : Props)
      → Distinct s.infos
      → Distinct (notify_service_state bionic name state s).infos
  unfolding notify_service_state
  notify_service_state-Distinct name state s d =
      if_elim (λ (t : Props). Distinct t.infos) (ltb prop_name_max (length name + 10)) _ _ (λ e. d)
        (λ e. property_set-Distinct bionic (service_property bionic name) state s d)

  notify_all-view :
      (effects : List Effect) (s : Props)
      → Distinct s.infos
      → view bionic (notify_all bionic effects s)
        ≡ put_all bionic (state_sets bionic effects) (view bionic s)
  unfolding notify_all
  notify_all-view [] s d = refl
  notify_all-view (notify name state ∷ effects) s d =
      notify_all-view effects (notify_service_state bionic name state s)
        (notify_service_state-Distinct name state s d)
      ∙ ap (put_all bionic (state_sets bionic effects)) (notify_service_state-view name state s d)
      ∙ sym
          (put_all-append (state_set bionic name state) (state_sets bionic effects) (view bionic s))
  notify_all-view (spawn name args ∷ effects) s d = notify_all-view effects s d
  notify_all-view (kill_group pid ∷ effects) s d = notify_all-view effects s d
  notify_all-view (unlink_socket name ∷ effects) s d = notify_all-view effects s d
  notify_all-view (run command ∷ effects) s d = notify_all-view effects s d
  notify_all-view (reboot_recovery ∷ effects) s d = notify_all-view effects s d

  -- A request makes its sets, and leaves the services that it leaves.
  abbrev Does : List (Bytes × Bytes) × List Service → Props → Shared → Type 0
  Does sets s st' = (view bionic st'.0 ≡ put_all bionic sets.0 (view bionic s)) × (st'.1 ≡ sets.1)

  handle_setprop-Does :
      (ids : AndroidIds) (env : StartEnv) (cr : Ucred) (name value : Bytes) (s : Props)
      (services : List Service)
      → Distinct s.infos
      → Does
          (if starts_with (codes "ctl.") name
            then (if check_control_perms ids value cr.uid cr.gid
                then (let done = handle_control_message env (drop 4 name) value services in
                    (state_sets bionic done.1, done.0))
                else ([], services))
            else (
              (if check_perms ids name cr.uid cr.gid then (name, value) ∷ [] else []),
              services,
            ))
          s
          (handle_setprop bionic ids env cr name value (s, services))
  unfolding handle_setprop control_services
  handle_setprop-Does ids env cr name value s services d =
      elim (Bool-cases (starts_with (codes "ctl.") name)) [
        | inl ctl ↦ rw ctl (elim (Bool-cases (check_control_perms ids value cr.uid cr.gid)) [
          | inl c ↦ rw c (
            notify_all-view (handle_control_message env (drop 4 name) value services).1 _ d
                ∙ ap
                    (put_all bionic (
                      state_sets bionic
                        (handle_control_message env (drop 4 name) value services).1))
                    (view-emit bionic _ _ ∙ view-emit bionic _ s),
            refl,
          )
          | inr c ↦ rw c (view-emit bionic _ s, refl)
        ])
        | inr plain ↦ rw plain (
          view-emit bionic _ _ ∙ elim (Bool-cases (check_perms ids name cr.uid cr.gid)) [
            | inl c ↦ rw c (property_set-view bionic name value s d)
            | inr c ↦ rw c refl
          ],
          refl,
        )
      ]

  handle-Does :
      (ids : AndroidIds) (env : StartEnv) (r : Incoming) (s : Props) (services : List Service)
      → Distinct s.infos
      → Does
          (permitted bionic ids env r services)
          s
          (handle_property_set_fd bionic ids env r (s, services))
  unfolding handle_property_set_fd
  handle-Does ids env no_connection s services d = (refl, refl)
  handle-Does ids env no_credentials s services d = (view-emit bionic _ s, refl)
  handle-Does ids env (wrong_size cr) s services d = (view-emit bionic _ s, refl)
  handle-Does ids env (message cr unknown name value) s services d = (view-emit bionic _ s, refl)
  handle-Does ids env (message cr setprop name value) s services d =
      handle_setprop-Does ids env cr (terminated prop_name_max name)
        (terminated prop_value_max value) s services d

  -- Over any requests, the properties are those of a dictionary in which the sets that clients were
  -- permitted, and those of the states of the services that permitted control messages start or stop,
  -- are made in their order. A set is made if the sizes fit, the name is no ro. name with a value, and
  -- no new name in a full area; a net. name is noted in net.change if that set can be made.
  pub serve-view :
      (ids : AndroidIds) (rs : List (StartEnv × Incoming)) (s : Props) (services : List Service)
      → Distinct s.infos
      → view bionic (serve bionic ids rs (s, services)).0
        ≡ put_all bionic (all_permitted bionic ids rs services) (view bionic s)
  unfolding serve
  serve-view ids [] s services d = refl
  serve-view ids ((env, r) ∷ rs) s services d =
      let does = handle-Does ids env r s services d in
      let st = handle_property_set_fd bionic ids env r (s, services) in
      serve-view ids rs st.0 st.1 (handle-Distinct bionic ids env r (s, services) d)
      ∙ rw (does.0, does.1)
          (sym (
            put_all-append (permitted bionic ids env r services).0
              (all_permitted bionic ids rs (permitted bionic ids env r services).1)
              (view bionic s)))
