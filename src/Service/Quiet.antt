-- ===== src/Service/Quiet.antt =====
-- A service that was stopped or reset, or a oneshot service that ended, is not started again by
-- itself.
use asl.Base.{
  ℕ, ◌≡◌, ◌⊎◌, Bool, true, false, not, ◌||◌, List, [], ◌∷◌, ◌++◌, map, arith, All, All-append,
  if_elim, ◌==◌,
}
use asl.Base.Text.{codes}
use asl.Service.{
  Service, SocketInfo, Effect, spawn, kill_group, notify, unlink_socket, How, how_disabled,
  how_reset, Result, service_stop_or_reset, kills, unlinks, process_exited,
}
use asl.Service.Invariant.{
  Happening, start, restart, stop_or_reset, exit, tick, happens, history, exited, only_running,
}

-- Neither a start nor a restart by hand.
abbrev pub Passive : Happening → Type 0
Passive (start env args) = ⊥
Passive (restart env) = ⊥
Passive _ = Unit

abbrev pub NoSpawn : Effect → Type 0
NoSpawn (spawn n args) = ⊥
NoSpawn _ = Unit

pub record IsQuiet (svc : Service) : Type 0 where
  pub held : (svc.flags.disabled || svc.flags.reset) ≡ true
  pub not_waiting : svc.flags.restarting ≡ false

-- The service is quiet and was not started.
abbrev Silent : Result → Type 0
Silent r = IsQuiet r.0 × All NoSpawn r.1

pub stop_or_reset-IsQuiet :
    (svc : Service) (how : How)
    → (how ≡ how_disabled) ⊎ (how ≡ how_reset)
    → IsQuiet (service_stop_or_reset svc how).0
unfolding service_stop_or_reset
stop_or_reset-IsQuiet svc how_disabled h = ground arith
stop_or_reset-IsQuiet svc _ h = ground arith

stop_or_reset-Silent :
    (svc : Service) (how : How) → IsQuiet svc → Silent (service_stop_or_reset svc how)
unfolding service_stop_or_reset
stop_or_reset-Silent svc how_disabled q =
    (ground arith, if_elim (All NoSpawn) (svc.pid == 0) _ _ (λ e. (tt, tt)) (λ e. (tt, (tt, tt))))
stop_or_reset-Silent svc _ q =
    (ground arith, if_elim (All NoSpawn) (svc.pid == 0) _ _ (λ e. (tt, tt)) (λ e. (tt, (tt, tt))))

NoSpawn-sockets :
    (sockets : List SocketInfo)
    → All NoSpawn (map (λ (si : SocketInfo). unlink_socket si.name) sockets)
NoSpawn-sockets [] = tt
NoSpawn-sockets (si ∷ sockets) = (tt, NoSpawn-sockets sockets)

NoSpawn-before : (svc : Service) → All NoSpawn (kills svc ++ unlinks svc)
NoSpawn-before svc =
    All-append NoSpawn (kills svc) (unlinks svc)
      (if_elim (All NoSpawn) (not svc.flags.oneshot || svc.flags.restart) (kill_group svc.pid ∷ [])
        [] (λ e. (tt, tt)) (λ e. tt))
      (NoSpawn-sockets svc.sockets)

process_exited-Silent :
    (now : ℕ) (svc : Service) → IsQuiet (exited svc) → Silent (process_exited now svc)
unfolding process_exited
process_exited-Silent now svc q =
    if_elim Silent ((exited svc).flags.disabled || (exited svc).flags.reset) _ _
      (λ stays. (
        q,
        All-append NoSpawn (kills svc ++ unlinks svc) (notify svc.name (codes "stopped") ∷ [])
            (NoSpawn-before svc) (tt, tt),
      ))
      (λ goes. cc (q.held, goes))

happens-Silent : (e : Happening) (svc : Service) → Passive e → IsQuiet svc → Silent (happens e svc)
unfolding happens
happens-Silent (start env args) svc p q = absurd p
happens-Silent (restart env) svc p q = absurd p
happens-Silent (stop_or_reset how) svc p q = stop_or_reset-Silent svc how q
happens-Silent (tick env needs) svc p q =
    if_elim Silent svc.flags.restarting _ _ (λ e. cc (q.not_waiting, e)) (λ e. (q, tt))
happens-Silent (exit now) svc p q = silent_exit svc.flags.running
  where
    silent_exit : (b : Bool) → Silent (only_running b now svc)
    silent_exit true = process_exited-Silent now svc (ground arith)
    silent_exit false = (q, tt)

history-Silent :
    (es : List Happening) (svc : Service) → All Passive es → IsQuiet svc → Silent (history es svc)
unfolding history
history-Silent [] svc p q = (q, tt)
history-Silent (e ∷ es) svc p q =
    let now = happens-Silent e svc p.0 q in
    let later = history-Silent es (happens e svc).0 p.1 now.0 in
    (later.0, All-append NoSpawn (happens e svc).1 (history es (happens e svc).0).1 now.1 later.1)

-- After a stop or a reset, no history without a start or a restart by hand starts the service:
-- neither the exit of its process nor the rounds of `restart_processes` do.
pub stopped_stays_stopped :
    (svc : Service) (how : How) (es : List Happening)
    → (how ≡ how_disabled) ⊎ (how ≡ how_reset)
    → All Passive es
    → All NoSpawn (history es (service_stop_or_reset svc how).0).1
stopped_stays_stopped svc how es h p =
    (history-Silent es (service_stop_or_reset svc how).0 p (stop_or_reset-IsQuiet svc how h)).1

-- After the exit of a oneshot service that is not to be restarted by hand, no history without a
-- start or a restart by hand starts it again.
pub oneshot_runs_once :
    (now : ℕ) (svc : Service) (es : List Happening)
    → svc.flags.oneshot ≡ true
    → svc.flags.restart ≡ false
    → svc.flags.restarting ≡ false
    → All Passive es
    → All NoSpawn (history es (process_exited now svc).0).1
oneshot_runs_once now svc es one not_again w p =
    let quiet : IsQuiet (exited svc) = ground arith in
    (history-Silent es (process_exited now svc).0 p (process_exited-Silent now svc quiet).0).1
