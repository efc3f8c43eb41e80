-- ===== src/Props/Socket.antt =====
-- Requests to the property service: `handle_property_set_fd` of property_service.c, with
-- `notify_service_state` of init.c.
pub mod Guard
use asl.Base.{
  ℕ, ltb, length, ◌++◌, ◌+◌, ◌-◌, Bool, true, false, List, [], ◌∷◌, ◌==◌, if◌then◌else◌, take, drop,
}
use asl.Base.Text.{Bytes, codes, starts_with}
use asl.Props.{Bionic, Props, closed, control, emit, property_set}
use asl.Props.Perms.{AndroidIds, check_perms, check_control_perms}
use asl.Service.{Service, StartEnv, Effect, notify}
use asl.Control.{handle_control_message}

-- `struct ucred`
pub record Ucred : Type 0 where
  pub uid : ℕ
  pub gid : ℕ

-- `msg.cmd`: PROP_MSG_SETPROP or any other number.
pub data Cmd : Type 0 where
  setprop unknown : Cmd

-- What the system calls of one activation give: no connection, a connection without credentials, a
-- message of another size, or a message with its two character arrays.
pub data Incoming : Type 0 where
  no_connection : Incoming
  no_credentials : Incoming
  wrong_size : Ucred → Incoming
  message : Ucred → Cmd → Bytes → Bytes → Incoming

-- The string in an array: the bytes in front of the first 0.
pub until_zero : Bytes → Bytes
until_zero [] = []
until_zero (c ∷ cs) = if c == 0 then [] else c ∷ until_zero cs

-- The string in an array of `size` bytes whose last byte is set to 0.
unfoldable pub terminated : ℕ → Bytes → Bytes
unfolding until_zero
terminated size raw = until_zero (take (size - 1) raw)

-- The properties, and `service_list`, which the control messages work on.
abbrev pub Shared : Type 0
Shared = Props × List Service

module _ (bionic : Bionic) where
  open bionic use {prop_name_max}

  abbrev pub service_property : Bytes → Bytes
  service_property name = codes "init.svc." ++ name

  -- `notify_service_state` of init.c.
  unfoldable pub notify_service_state : Bytes → Bytes → Props → Props
  notify_service_state name state s =
      if ltb prop_name_max (length name + 10)
      then s
      else (property_set bionic (service_property name) state s).0

  -- What the effects of a function on services do to the properties.
  unfoldable pub notify_all : List Effect → Props → Props
  unfolding notify_service_state
  notify_all [] s = s
  notify_all (notify name state ∷ effects) s =
      notify_all effects (notify_service_state name state s)
  notify_all (_ ∷ effects) s = notify_all effects s

module _ (bionic : Bionic) (ids : AndroidIds) where
  open bionic use {prop_name_max, prop_value_max}

  -- The call of `handle_control_message`.
  unfoldable pub control_services : StartEnv → Bytes → Bytes → Shared → Shared
  unfolding notify_all
  control_services env msg arg (s, services) =
      let done = handle_control_message env msg arg services in
      (notify_all bionic done.1 (emit (control msg arg) s), done.0)

  -- PROP_MSG_SETPROP; for ctl. the socket is closed first, else last.
  unfoldable pub handle_setprop : StartEnv → Ucred → Bytes → Bytes → Shared → Shared
  unfolding control_services
  handle_setprop env cr name value (s, services) =
      if starts_with (codes "ctl.") name
      then (if check_control_perms ids value cr.uid cr.gid
          then control_services env (drop 4 name) value (emit closed s, services)
          else (emit closed s, services))
      else (
        emit closed (
            if check_perms ids name cr.uid cr.gid then (property_set bionic name value s).0 else s),
        services,
      )

  -- The first argument is what a service that is started asks of the system.
  unfoldable pub handle_property_set_fd : StartEnv → Incoming → Shared → Shared
  unfolding handle_setprop
  handle_property_set_fd env no_connection st = st
  handle_property_set_fd env no_credentials (s, services) = (emit closed s, services)
  handle_property_set_fd env (wrong_size cr) (s, services) = (emit closed s, services)
  handle_property_set_fd env (message cr setprop name value) st =
      handle_setprop env cr (terminated prop_name_max name) (terminated prop_value_max value) st
  handle_property_set_fd env (message cr unknown name value) (s, services) =
      (emit closed s, services)

  -- The requests that the main loop handles, one after the other.
  unfoldable pub serve : List (StartEnv × Incoming) → Shared → Shared
  serve [] st = st
  serve ((env, r) ∷ rs) st = serve rs (handle_property_set_fd env r st)
