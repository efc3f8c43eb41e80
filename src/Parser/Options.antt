-- ===== src/Parser/Options.antt =====
-- The options of a service: `parse_line_service` of init_parser.c. `malloc` and `calloc` do not
-- fail, and HAVE_SELINUX is not defined.
use asl.Base.{ℕ, ◌+◌, ◌-◌, Bool, true, not, ◌||◌, List, ◌∷◌, map, ◌==◌, ltb, if◌then◌else◌}
use asl.Base.Text.{Bytes, codes, str_eq}
use asl.Number.{AndroidIdInfo, strtoul, atoi, decode_uid}
use asl.Keyword.{
  Keyword, k_class, k_console, k_disabled, k_ioprio, k_group, k_keycodes, k_oneshot, k_onrestart,
  k_critical, k_setenv, k_socket, k_user, lookup_keyword,
}
use asl.Service.{SocketInfo, IoSchedClass, io_none, io_rt, io_be, io_idle, Service}
use asl.Parser.{Args, slice, parse_command, add_command}

abbrev pub nr_svc_supp_gids : ℕ
nr_svc_supp_gids = 12

abbrev pub io_class : Bytes → IoSchedClass
io_class s =
    if str_eq s (codes "rt")
    then io_rt
    else if str_eq s (codes "be")
    then io_be
    else if str_eq s (codes "idle")
    then io_idle
    else io_none

-- The priority is stored in front of its check. As an `int` it is below 0 or above 7 exactly when
-- its pattern is above 7.
unfoldable pub ioprio_option : ℕ → Args → Service → Service
ioprio_option nargs args svc =
    if not (nargs == 3)
    then svc
    else (let pri = (strtoul 8 (args 2)).0 in
        record svc {
          ioprio_pri = pri;
          ioprio_class = if ltb 7 pri then svc.ioprio_class else io_class (args 1);
        })

unfoldable pub group_option : List AndroidIdInfo → ℕ → Args → Service → Service
group_option android_ids nargs args svc =
    if ltb nargs 2 || ltb (nr_svc_supp_gids + 2) nargs then svc else record svc {
      gid = decode_uid android_ids (args 1);
      supp_gids = map (decode_uid android_ids) (slice args 2 (nargs - 2));
    }

unfoldable pub keycodes_option : ℕ → Args → Service → Service
keycodes_option nargs args svc =
    if ltb nargs 2 then svc else record svc { keycodes = map atoi (slice args 1 (nargs - 1)) }

unfoldable pub onrestart_option : ℕ → Args → Service → Service
onrestart_option nargs args svc = record svc {
  onrestart = add_command (parse_command (nargs - 1) args 1) svc.onrestart;
}

-- The value is the third element of the array, although two words are enough.
unfoldable pub setenv_option : ℕ → Args → Service → Service
setenv_option nargs args svc =
    if ltb nargs 2
    then svc
    else record svc { envvars = record { name = args 1; value = args 2 } ∷ svc.envvars }

abbrev pub is_socket_type : Bytes → Bool
is_socket_type s =
    str_eq s (codes "dgram") || str_eq s (codes "stream") || str_eq s (codes "seqpacket")

abbrev new_socket : List AndroidIdInfo → ℕ → Args → SocketInfo
new_socket android_ids nargs args = record {
  name = args 1;
  kind = args 2;
  perm = (strtoul 8 (args 3)).0;
  uid = if ltb 4 nargs then decode_uid android_ids (args 4) else 0;
  gid = if ltb 5 nargs then decode_uid android_ids (args 5) else 0;
}

unfoldable pub socket_option : List AndroidIdInfo → ℕ → Args → Service → Service
socket_option android_ids nargs args svc =
    if ltb nargs 4
    then svc
    else if not (is_socket_type (args 2))
    then svc
    else record svc { sockets = new_socket android_ids nargs args ∷ svc.sockets }

-- The switch.
unfoldable pub set_option : List AndroidIdInfo → Keyword → ℕ → Args → Service → Service
unfolding ioprio_option group_option keycodes_option onrestart_option setenv_option socket_option
set_option ids k_class nargs args svc =
    if nargs == 2 then record svc { classname = args 1 } else svc
set_option ids k_console nargs args svc = record svc { flags = record svc.flags { console = true } }
set_option ids k_disabled nargs args svc = record svc {
  flags = record svc.flags { disabled = true; rc_disabled = true };
}
set_option ids k_ioprio nargs args svc = ioprio_option nargs args svc
set_option ids k_group nargs args svc = group_option ids nargs args svc
set_option ids k_keycodes nargs args svc = keycodes_option nargs args svc
set_option ids k_oneshot nargs args svc = record svc { flags = record svc.flags { oneshot = true } }
set_option ids k_onrestart nargs args svc = onrestart_option nargs args svc
set_option ids k_critical nargs args svc = record svc {
  flags = record svc.flags { critical = true };
}
set_option ids k_setenv nargs args svc = setenv_option nargs args svc
set_option ids k_socket nargs args svc = socket_option ids nargs args svc
set_option ids k_user nargs args svc =
    if nargs == 2 then record svc { uid = decode_uid ids (args 1) } else svc
set_option ids _ nargs args svc = svc

unfoldable pub parse_line_service : List AndroidIdInfo → ℕ → Args → Service → Service
unfolding set_option
parse_line_service android_ids nargs args svc =
    if nargs == 0
    then svc
    else set_option android_ids (lookup_keyword (args 0)) nargs args
        (record svc { ioprio_class = io_none })
