-- ===== src/Service/Child.antt =====
-- The child's part of `service_start` in init.c, from the `fork` to `execve`. HAVE_SELINUX is not
-- defined.
pub mod Credentials
use asl.Base.{
  ℕ, ◌+◌, ◌-◌, Bool, true, false, Option, none, some, List, [], ◌∷◌, ◌++◌, ◌==◌, if◌then◌else◌,
  length, take,
}
use asl.Base.Text.{Bytes, codes, str_eq}
use asl.Service.{Service, SocketInfo, SvcEnvInfo, IoSchedClass, io_none}
use asl.Service.Environ.{add_environment}
use asl.Service.Argv.{exec_args}

-- `SOCK_STREAM` and its kin.
pub data SocketType : Type 0 where
  sock_stream sock_dgram sock_seqpacket : SocketType

-- The calls of the child, with the answer where it goes on from that. `execve` comes back only if it
-- fails.
pub data Call : Type 0 where
  umask_077 : Call
  create_socket : Bytes → SocketType → ℕ → ℕ → ℕ → Call
  set_ioprio : IoSchedClass → ℕ → Call
  take_console zap_stdio setpgid : Call
  setgid setuid : ℕ → Bool → Call
  setgroups : List ℕ → Bool → Call
  execve : Bytes → List Bytes → List Bytes → Call
  exit_127 : Call

-- What the system answers: the text for ANDROID_PROPERTY_WORKSPACE if the area is there, the
-- descriptor of a new socket in digits, and whether the changes of the ids succeed. The prefix
-- ANDROID_SOCKET_ENV_PREFIX is that of libcutils.
pub record ChildEnv : Type 0 where
  pub workspace : Option Bytes
  pub new_socket : SocketInfo → Option Bytes
  pub setgid_ok : Bool
  pub setgroups_ok : Bool
  pub setuid_ok : Bool
  pub socket_prefix : Bytes

abbrev socket_type : Bytes → SocketType
socket_type kind =
    if str_eq kind (codes "stream")
    then sock_stream
    else if str_eq kind (codes "dgram")
    then sock_dgram
    else sock_seqpacket

-- `publish_socket`: the key in its array of 64 bytes, of which the name may fill what the prefix
-- with its final 0 leaves, the last byte for the name's own.
publish_socket : Bytes → Bytes → Bytes → List Bytes → List Bytes
publish_socket prefix name fd env =
    (add_environment (prefix ++ take (64 - (length prefix + 1) - 1) name) fd env).0

with_workspace : Option Bytes → List Bytes → List Bytes
with_workspace none env = env
with_workspace (some text) env = (add_environment (codes "ANDROID_PROPERTY_WORKSPACE") text env).0

-- The loop over `envvars`.
unfoldable pub with_envvars : List SvcEnvInfo → List Bytes → List Bytes
with_envvars [] env = env
with_envvars (ei ∷ envvars) env = with_envvars envvars (add_environment ei.name ei.value env).0

abbrev published : Bytes → Bytes → Option Bytes → List Bytes → List Bytes
unfolding publish_socket
published prefix name none env = env
published prefix name (some fd) env = publish_socket prefix name fd env

-- The loop over `sockets`: the calls, and the environment behind it.
unfoldable pub with_sockets : ChildEnv → List SocketInfo → List Bytes → List Call × List Bytes
unfolding published
with_sockets sys [] env = ([], env)
with_sockets sys (si ∷ sockets) env =
    let rest =
      with_sockets sys sockets (published sys.socket_prefix si.name (sys.new_socket si) env) in
    (create_socket si.name (socket_type si.kind) si.perm si.uid si.gid ∷ rest.0, rest.1)

abbrev first_arg : List Bytes → Bytes
first_arg [] = []
first_arg (a ∷ args) = a

-- From the change of the user id on.
unfoldable pub set_user : ChildEnv → Service → Option Bytes → List Bytes → List Call
set_user sys svc dynamic_args env =
    let run = execve (first_arg svc.args) (exec_args svc dynamic_args) env ∷ exit_127 ∷ [] in
    if svc.uid == 0
    then run
    else setuid svc.uid sys.setuid_ok ∷ (if sys.setuid_ok then run else exit_127 ∷ [])

-- From the change of the supplementary groups on.
unfoldable pub set_groups : ChildEnv → Service → Option Bytes → List Bytes → List Call
unfolding set_user
set_groups sys svc dynamic_args env =
    let rest = set_user sys svc dynamic_args env in
    if length svc.supp_gids == 0
    then rest
    else setgroups svc.supp_gids sys.setgroups_ok
      ∷ (if sys.setgroups_ok then rest else exit_127 ∷ [])

-- From the change of the group id on.
unfoldable pub set_ids : ChildEnv → Service → Option Bytes → List Bytes → List Call
unfolding set_groups
set_ids sys svc dynamic_args env =
    let rest = set_groups sys svc dynamic_args env in
    if svc.gid == 0
    then rest
    else setgid svc.gid sys.setgid_ok ∷ (if sys.setgid_ok then rest else exit_127 ∷ [])

abbrev pub ioprio : IoSchedClass → ℕ → List Call
ioprio io_none pri = []
ioprio class pri = set_ioprio class pri ∷ []

-- The calls in front of the change of the ids.
unfoldable pub prepare : ChildEnv → Service → List Bytes → List Call × List Bytes
unfolding with_workspace with_envvars with_sockets
prepare sys svc env =
    let made =
      with_sockets sys svc.sockets (with_envvars svc.envvars (with_workspace sys.workspace env)) in
    (
      umask_077
          ∷ (made.0
              ++ (ioprio svc.ioprio_class svc.ioprio_pri
                  ++ (if svc.flags.console then take_console else zap_stdio) ∷ setpgid ∷ [])),
      made.1,
    )

-- All of them, for the environment that init has.
unfoldable pub child : ChildEnv → Service → Option Bytes → List Bytes → List Call
unfolding prepare set_ids
child sys svc dynamic_args env =
    let prepared = prepare sys svc env in prepared.0 ++ set_ids sys svc dynamic_args prepared.1
