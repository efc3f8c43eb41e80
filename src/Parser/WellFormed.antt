-- ===== src/Parser/WellFormed.antt =====
-- What holds of every service and every action that a file makes.
use asl.Base.{
  length-map, ℕ, zero, suc, ◌+◌, ◌-◌, ◌≤◌, ◌<◌, ◌≡◌, refl, ap, Bool, true, false, not, ◌||◌, Option,
  List, map, ◌==◌, ltb, leb, arith, if◌then◌else◌, if_elim, length, All, All-append,
}
use asl.Number.{AndroidIdInfo, strtoul, decode_uid}
use asl.Keyword.{
  Keyword, k_class, k_console, k_disabled, k_ioprio, k_group, k_keycodes, k_oneshot, k_onrestart,
  k_critical, k_setenv, k_socket, k_user, kw_is_command, kw_nargs, lookup_keyword,
}
use asl.Service.{builtin, Command, SocketInfo, Service, IoSchedClass, io_none}
use asl.Parser.{Args, slice, valid_name, parse_command, add_command}
use asl.Parser.Options.{
  io_class, is_socket_type, ioprio_option, group_option, keycodes_option, onrestart_option,
  setenv_option, socket_option, set_option, parse_line_service, nr_svc_supp_gids,
}

-- A command of the language with all of the words that it needs.
abbrev pub IsCommand : Command → Type 0
IsCommand cmd =
    (kw : Keyword) × (cmd.func ≡ builtin kw)
    × (kw_is_command kw ≡ true)
    × (kw_nargs kw ≤ length cmd.args)

abbrev is_io_none : IoSchedClass → Bool
is_io_none io_none = true
is_io_none _ = false

-- A service as the parser may leave it: its name is valid, it has a program and room for the final
-- null, its groups fit into the array, a scheduling class comes with a priority of 0 to 7, its
-- sockets have types, its commands are complete, and it was not started.
pub record IsParsed (svc : Service) : Type 0 where
  pub name_valid : valid_name svc.name ≡ true
  pub program : 0 < length svc.args
  pub room : length svc.args < 64
  pub groups : length svc.supp_gids ≤ nr_svc_supp_gids
  pub priority : (is_io_none svc.ioprio_class || leb svc.ioprio_pri 7) ≡ true
  pub socket_types : All (λ (si : SocketInfo). is_socket_type si.kind ≡ true) svc.sockets
  pub commands : All IsCommand svc.onrestart
  pub no_process : svc.pid ≡ 0
  pub not_running : svc.flags.running ≡ false
  pub not_waiting : svc.flags.restarting ≡ false

pub length-slice : (args : Args) (i count : ℕ) → length (slice args i count) ≡ count
length-slice args i zero = refl
length-slice args i (suc count) = ap suc (length-slice args (i + 1) count)

pub parse_command-IsCommand :
    (nargs : ℕ) (args : Args) (i : ℕ) (commands : List Command)
    → All IsCommand commands
    → All IsCommand (add_command (parse_command nargs args i) commands)
unfolding parse_command
parse_command-IsCommand nargs args i commands h =
    if_elim Goal (not (kw_is_command kw)) _ _ (λ e. h)
      (λ is.
        if_elim Goal (ltb nargs (kw_nargs kw)) _ _ (λ e. h)
          (λ enough. All-append IsCommand commands _ h (
            (
              kw,
              refl,
              ground (arith, is),
              omega (arith, enough_words enough, length-slice args i nargs),
            ),
            tt,
          )))
  where
    kw : Keyword
    kw = lookup_keyword (args i)

    Goal : Option Command → Type 0
    Goal o = All IsCommand (add_command o commands)

    enough_words : ltb nargs (kw_nargs kw) ≡ false → kw_nargs kw ≤ nargs
    enough_words e = ground arith

module _ (ids : List AndroidIdInfo) (nargs : ℕ) (args : Args) (svc : Service) where
  ioprio_option-IsParsed :
      IsParsed svc → svc.ioprio_class ≡ io_none → IsParsed (ioprio_option nargs args svc)
  unfolding ioprio_option
  ioprio_option-IsParsed h none_yet =
      if_elim IsParsed (not (nargs == 3)) _ _ (λ e. h)
        (λ e. ground (arith, h, priority_checked (ltb 7 pri) refl))
    where
      pri : ℕ
      pri = (strtoul 8 (args 2)).0

      priority_checked :
          (b : Bool)
          → ltb 7 pri ≡ b
          → (is_io_none (if b then svc.ioprio_class else io_class (args 1)) || leb pri 7) ≡ true
      priority_checked true e = ground (arith, none_yet)
      priority_checked false e = ground arith

  group_option-IsParsed : IsParsed svc → IsParsed (group_option ids nargs args svc)
  unfolding group_option
  group_option-IsParsed h =
      if_elim IsParsed (ltb nargs 2 || ltb (nr_svc_supp_gids + 2) nargs) _ _ (λ e. h)
        (λ few. ground (arith, h, few_groups few))
    where
      few_groups :
          (ltb nargs 2 || ltb (nr_svc_supp_gids + 2) nargs) ≡ false
          → length (map (decode_uid ids) (slice args 2 (nargs - 2))) ≤ nr_svc_supp_gids
      few_groups few = ground (
        arith,
        few,
        length-map (decode_uid ids) (slice args 2 (nargs - 2)),
        length-slice args 2 (nargs - 2),
      )

  keycodes_option-IsParsed : IsParsed svc → IsParsed (keycodes_option nargs args svc)
  unfolding keycodes_option
  keycodes_option-IsParsed h = if_elim IsParsed (ltb nargs 2) _ _ (λ e. h) (λ e. ground (arith, h))

  onrestart_option-IsParsed : IsParsed svc → IsParsed (onrestart_option nargs args svc)
  unfolding onrestart_option
  onrestart_option-IsParsed h =
      ground (arith, h, parse_command-IsCommand (nargs - 1) args 1 svc.onrestart h.commands)

  setenv_option-IsParsed : IsParsed svc → IsParsed (setenv_option nargs args svc)
  unfolding setenv_option
  setenv_option-IsParsed h = if_elim IsParsed (ltb nargs 2) _ _ (λ e. h) (λ e. ground (arith, h))

  socket_option-IsParsed : IsParsed svc → IsParsed (socket_option ids nargs args svc)
  unfolding socket_option
  socket_option-IsParsed h =
      if_elim IsParsed (ltb nargs 4) _ _ (λ e. h)
        (λ e.
          if_elim IsParsed (not (is_socket_type (args 2))) _ _ (λ e. h)
            (λ is. ground (arith, h, is)))

module _ (ids : List AndroidIdInfo) (nargs : ℕ) (args : Args) where
  set_option-IsParsed :
      (kw : Keyword) (svc : Service)
      → IsParsed svc
      → svc.ioprio_class ≡ io_none
      → IsParsed (set_option ids kw nargs args svc)
  unfolding set_option
  set_option-IsParsed k_class svc h e =
      if_elim IsParsed (nargs == 2) _ _ (λ e. ground (arith, h)) (λ e. h)
  set_option-IsParsed k_console svc h e = ground (arith, h)
  set_option-IsParsed k_disabled svc h e = ground (arith, h)
  set_option-IsParsed k_ioprio svc h e = ioprio_option-IsParsed ids nargs args svc h e
  set_option-IsParsed k_group svc h e = group_option-IsParsed ids nargs args svc h
  set_option-IsParsed k_keycodes svc h e = keycodes_option-IsParsed ids nargs args svc h
  set_option-IsParsed k_oneshot svc h e = ground (arith, h)
  set_option-IsParsed k_onrestart svc h e = onrestart_option-IsParsed ids nargs args svc h
  set_option-IsParsed k_critical svc h e = ground (arith, h)
  set_option-IsParsed k_setenv svc h e = setenv_option-IsParsed ids nargs args svc h
  set_option-IsParsed k_socket svc h e = socket_option-IsParsed ids nargs args svc h
  set_option-IsParsed k_user svc h e =
      if_elim IsParsed (nargs == 2) _ _ (λ e. ground (arith, h)) (λ e. h)
  set_option-IsParsed _ svc h e = h

  pub parse_line_service-IsParsed :
      (svc : Service) → IsParsed svc → IsParsed (parse_line_service ids nargs args svc)
  unfolding parse_line_service
  parse_line_service-IsParsed svc h =
      if_elim IsParsed (nargs == 0) _ _ (λ e. h)
        (λ e.
          set_option-IsParsed (lookup_keyword (args 0)) (record svc { ioprio_class = io_none })
            (ground (arith, h)) refl)
