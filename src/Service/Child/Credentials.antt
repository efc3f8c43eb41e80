-- ===== src/Service/Child/Credentials.antt =====
-- With whose ids the program of a service runs.
use asl.Base.{
  ℕ, ◌≡◌, refl, ◌∙◌, Bool, ◌&&◌, ◌||◌, Option, none, some, List, [], ◌∷◌, ◌++◌, arith, ◌==◌,
  if◌then◌else◌, if_elim, length, All, All-append,
}
use asl.Base.Text.{Bytes}
use asl.Service.{Service, SocketInfo, IoSchedClass, io_none}
use asl.Service.Child.{
  Call, setgid, setuid, setgroups, execve, exit_127, take_console, zap_stdio, ChildEnv,
  with_sockets, set_user, set_groups, set_ids, ioprio, prepare, child,
}

-- The ids of a process.
pub record Ids : Type 0 where
  pub uid : ℕ
  pub gid : ℕ
  pub groups : List ℕ

-- Those of init.
abbrev pub root : Ids
root = record { uid = 0; gid = 0; groups = [] }

abbrev change : Bool → Ids → Ids → Ids
change b new old = if b then new else old

-- The ids at `execve`, if the calls come to it.
unfoldable pub at_execve : Ids → List Call → Option Ids
at_execve ids [] = none
at_execve ids (execve path args env ∷ calls) = some ids
at_execve ids (exit_127 ∷ calls) = none
at_execve ids (setgid g ok ∷ calls) = at_execve (change ok (record ids { gid = g }) ids) calls
at_execve ids (setuid u ok ∷ calls) = at_execve (change ok (record ids { uid = u }) ids) calls
at_execve ids (setgroups gs ok ∷ calls) =
    at_execve (change ok (record ids { groups = gs }) ids) calls
at_execve ids (call ∷ calls) = at_execve ids calls

-- Every change that the service needs succeeds.
abbrev pub all_succeed : ChildEnv → Service → Bool
all_succeed sys svc =
    (svc.gid == 0 || sys.setgid_ok)
    && ((length svc.supp_gids == 0 || sys.setgroups_ok) && (svc.uid == 0 || sys.setuid_ok))

module _ (sys : ChildEnv) (svc : Service) (dynamic_args : Option Bytes) (env : List Bytes) where
  set_user-at_execve :
      (g : ℕ) (gs : List ℕ)
      → at_execve (record { uid = 0; gid = g; groups = gs }) (set_user sys svc dynamic_args env) ≡ (
          if svc.uid == 0 || sys.setuid_ok
          then some (record { uid = svc.uid; gid = g; groups = gs })
          else none)
  unfolding at_execve set_user
  set_user-at_execve g gs = ground arith

  set_groups-at_execve :
      (g : ℕ)
      → at_execve (record { uid = 0; gid = g; groups = [] }) (set_groups sys svc dynamic_args env)
        ≡ (if (length svc.supp_gids == 0 || sys.setgroups_ok) && (svc.uid == 0 || sys.setuid_ok)
            then some (record { uid = svc.uid; gid = g; groups = svc.supp_gids })
            else none)
  unfolding at_execve set_groups
  set_groups-at_execve g = go svc.supp_gids refl
    where
      go :
          (gs : List ℕ)
          → svc.supp_gids ≡ gs
          → at_execve
              (record { uid = 0; gid = g; groups = [] })
              (set_groups sys svc dynamic_args env)
            ≡ (if (length svc.supp_gids == 0 || sys.setgroups_ok) && (svc.uid == 0 || sys.setuid_ok)
                then some (record { uid = svc.uid; gid = g; groups = svc.supp_gids })
                else none)
      go [] e = ground (arith, e, set_user-at_execve g [])
      go (x ∷ xs) e = ground (arith, e, set_user-at_execve g (x ∷ xs))

  set_ids-at_execve : at_execve root (set_ids sys svc dynamic_args env) ≡ (
      if all_succeed sys svc
      then some (record { uid = svc.uid; gid = svc.gid; groups = svc.supp_gids })
      else none)
  unfolding at_execve set_ids
  set_ids-at_execve = ground (arith, set_groups-at_execve svc.gid, set_groups-at_execve 0)

-- The calls in front are none that `at_execve` looks at.
abbrev IsPlain : Call → Type 0
IsPlain (execve path args env) = ⊥
IsPlain exit_127 = ⊥
IsPlain (setgid g ok) = ⊥
IsPlain (setuid u ok) = ⊥
IsPlain (setgroups gs ok) = ⊥
IsPlain call = Unit

at_execve-append :
    (ids : Ids) (plain calls : List Call)
    → All IsPlain plain
    → at_execve ids (plain ++ calls) ≡ at_execve ids calls
unfolding at_execve
at_execve-append ids [] calls h = refl
at_execve-append ids (execve path args env ∷ plain) calls h = absurd h.0
at_execve-append ids (exit_127 ∷ plain) calls h = absurd h.0
at_execve-append ids (setgid g ok ∷ plain) calls h = absurd h.0
at_execve-append ids (setuid u ok ∷ plain) calls h = absurd h.0
at_execve-append ids (setgroups gs ok ∷ plain) calls h = absurd h.0
at_execve-append ids (_ ∷ plain) calls h = at_execve-append ids plain calls h.1

with_sockets-IsPlain :
    (sys : ChildEnv) (sockets : List SocketInfo) (env : List Bytes)
    → All IsPlain (with_sockets sys sockets env).0
unfolding with_sockets
with_sockets-IsPlain sys [] env = tt
with_sockets-IsPlain sys (si ∷ sockets) env = (tt, with_sockets-IsPlain sys sockets _)

ioprio-IsPlain : (class : IoSchedClass) (pri : ℕ) → All IsPlain (ioprio class pri)
ioprio-IsPlain io_none pri = tt
ioprio-IsPlain _ pri = (tt, tt)

prepare-IsPlain :
    (sys : ChildEnv) (svc : Service) (env : List Bytes) → All IsPlain (prepare sys svc env).0
unfolding prepare
prepare-IsPlain sys svc env = (
  tt,
  All-append IsPlain _ _ (with_sockets-IsPlain sys svc.sockets _) (
      All-append IsPlain _ _ (ioprio-IsPlain svc.ioprio_class svc.ioprio_pri)
        (if_elim IsPlain svc.flags.console take_console zap_stdio (λ e. tt) (λ e. tt), (tt, tt))),
)

-- The child of a service, which begins with the ids of init, comes to `execve` exactly if every
-- change of the ids that the service asks for succeeds, and then it has the service's user, group
-- and supplementary groups.
pub child_ids :
    (sys : ChildEnv) (svc : Service) (dynamic_args : Option Bytes) (env : List Bytes)
    → at_execve root (child sys svc dynamic_args env) ≡ (
        if all_succeed sys svc
        then some (record { uid = svc.uid; gid = svc.gid; groups = svc.supp_gids })
        else none)
unfolding child
child_ids sys svc dynamic_args env =
    at_execve-append root (prepare sys svc env).0
      (set_ids sys svc dynamic_args (prepare sys svc env).1) (prepare-IsPlain sys svc env)
    ∙ set_ids-at_execve sys svc dynamic_args (prepare sys svc env).1
