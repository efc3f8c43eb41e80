-- ===== src/Service/Crash.antt =====
-- The crash loop of a critical service.
use mathlib.Core.Bool.{false≢true}
use asl.Base.{
  subst, leb→le, le→leb, ℕ, ◌+◌, ◌≤◌, ◌≡◌, inl, inr, refl, sym, ◌∙◌, Bool, true, false, not, ◌&&◌,
  ◌||◌, List, [], ◌∷◌, ◌++◌, map, arith, All, if_elim, if◌then◌else◌, leb, ltb, Bool-cases,
}
use asl.Base.Text.{codes}
use asl.Service.{
  Service, Command, SocketInfo, Effect, notify, unlink_socket, run, reboot_recovery, process_exited,
  consider_restart, restart_or_reboot, count_crash, kills, unlinks, critical_crash_threshold,
  critical_crash_window,
}
use asl.Service.Invariant.{
  Happening, start, restart, stop_or_reset, exit, tick, happens, history, exited, only_running,
}
use asl.Service.Count.{reboots, exits, InWindow, IsCounting, Counts, start-Counts, tick-Counts}

reboots-append : (xs ys : List Effect) → reboots (xs ++ ys) ≡ (reboots xs || reboots ys)
unfolding reboots
reboots-append [] ys = refl
reboots-append (x ∷ xs) ys = ground (arith, reboots-append xs ys)

reboots-unlinks :
    (sockets : List SocketInfo)
    → reboots (map (λ (si : SocketInfo). unlink_socket si.name) sockets) ≡ false
unfolding reboots
reboots-unlinks [] = refl
reboots-unlinks (si ∷ sockets) = reboots-unlinks sockets

reboots-run : (commands : List Command) → reboots (map run commands) ≡ false
unfolding reboots
reboots-run [] = refl
reboots-run (c ∷ commands) = reboots-run commands

-- The effects in front of the decision do not reboot.
reboots-before : (svc : Service) → reboots (kills svc ++ unlinks svc) ≡ false
reboots-before svc =
    reboots-append (kills svc) (unlinks svc)
    ∙ unfold reboots in ground (arith, reboots-unlinks svc.sockets)

restart_or_reboot-Counts :
    (since : ℕ) (svc : Service) (b : Bool) (before : List Effect)
    → IsCounting since svc
    → svc.flags.running ≡ false
    → reboots before ≡ false
    → Counts since svc.nr_crashed b (restart_or_reboot svc b before)
unfolding restart_or_reboot
restart_or_reboot-Counts since svc true before h r e = record {
  counting = h;
  count = refl;
  reboot = reboots-append before (reboot_recovery ∷ []) ∙ rw e (unfold reboots in refl);
}
restart_or_reboot-Counts since svc false before h r e = record {
  counting = ground arith;
  count = refl;
  reboot =
      reboots-append before (map run svc.onrestart ++ notify svc.name (codes "restarting") ∷ [])
      ∙ rw e (
          reboots-append (map run svc.onrestart) (notify svc.name (codes "restarting") ∷ [])
          ∙ rw (reboots-run svc.onrestart) (unfold reboots in refl));
}

count_crash_in_window :
    (now : ℕ) (svc : Service)
    → now ≤ svc.time_crashed + critical_crash_window
    → count_crash now svc ≡ (
      record svc { nr_crashed = svc.nr_crashed + 1 },
      ltb critical_crash_threshold (svc.nr_crashed + 1),
    )
unfolding count_crash
count_crash_in_window now svc w = rw (le→leb now (svc.time_crashed + critical_crash_window) w)

consider_restart-Counts :
    (since now : ℕ) (svc : Service) (before : List Effect)
    → IsCounting since svc
    → svc.flags.running ≡ false
    → now ≤ since + critical_crash_window
    → reboots before ≡ false
    → Counts since
        (svc.nr_crashed + 1)
        (ltb critical_crash_threshold (svc.nr_crashed + 1))
        (consider_restart now svc before)
consider_restart-Counts since now svc before h r w e = go
  where
    counted : Service
    counted = record svc { nr_crashed = svc.nr_crashed + 1 }

    n : ℕ
    n = svc.nr_crashed + 1

    counting : IsCounting since counted
    counting = ground arith

    exact : count_crash now svc ≡ (counted, ltb critical_crash_threshold n)
    exact = count_crash_in_window now svc (omega (arith, h.window))

    decided :
        Counts since n
          (ltb critical_crash_threshold n)
          (restart_or_reboot (count_crash now svc).0 (count_crash now svc).1 before)
    decided = rw exact (
        restart_or_reboot-Counts since counted (ltb critical_crash_threshold n) before counting r e)

    go : Counts since n (ltb critical_crash_threshold n) (consider_restart now svc before)
    go =
        unfold consider_restart in
        if_elim (Counts since n (ltb critical_crash_threshold n))
          (svc.flags.critical && not svc.flags.restart) _ _ (λ c. decided)
          (λ c. absurd (ground (arith, h.is_critical, h.not_restart)))

process_exited-Counts :
    (since now : ℕ) (svc : Service)
    → IsCounting since svc
    → svc.flags.running ≡ true
    → now ≤ since + critical_crash_window
    → Counts since
        (svc.nr_crashed + 1)
        (ltb critical_crash_threshold (svc.nr_crashed + 1))
        (process_exited now svc)
process_exited-Counts since now svc h r w = go
  where
    n : ℕ
    n = svc.nr_crashed + 1

    enabled : svc.flags.disabled ≡ false
    enabled = h.enabled r

    counting : IsCounting since (exited svc)
    counting = ground (arith, enabled)

    held : Bool
    held = (exited svc).flags.disabled || (exited svc).flags.reset

    free : held ≡ false
    free = ground (arith, enabled)

    go : Counts since n (ltb critical_crash_threshold n) (process_exited now svc)
    go =
        unfold process_exited in
        if_elim (Counts since n (ltb critical_crash_threshold n)) held _ _
          (λ stays. absurd (false≢true (sym free ∙ stays)))
          (λ goes.
            consider_restart-Counts since now (exited svc) (kills svc ++ unlinks svc) counting refl
              w (reboots-before svc))

exit-Counts :
    (since now : ℕ) (svc : Service)
    → IsCounting since svc
    → now ≤ since + critical_crash_window
    → Counts since
        (svc.nr_crashed + (if svc.flags.running then 1 else 0))
        (svc.flags.running && ltb critical_crash_threshold (svc.nr_crashed + 1))
        (happens (exit now) svc)
unfolding happens
exit-Counts since now svc h w = elim (Bool-cases svc.flags.running) [
  | inl r ↦ subst Goal (sym r) (process_exited-Counts since now svc h r w)
  | inr r ↦
      subst Goal (sym r)
        (unfold reboots in record { counting = h; count = omega arith; reboot = refl })
]
  where
    Goal : Bool → Type 0
    Goal b =
        Counts since (svc.nr_crashed + (if b then 1 else 0))
          (b && ltb critical_crash_threshold (svc.nr_crashed + 1)) (only_running b now svc)

-- A critical service that is not oneshot and that nobody stopped, with at most four crashes counted
-- in the window: over starts, rounds of `restart_processes` and exits up to the window's end, the
-- device reboots into recovery mode exactly when the crashes counted before and the exits of the
-- running service are more than four together.
pub crash_loop :
    (since : ℕ) (es : List Happening) (svc : Service)
    → IsCounting since svc
    → All (InWindow since) es
    → svc.nr_crashed ≤ critical_crash_threshold
    → reboots (history es svc).1 ≡ ltb critical_crash_threshold (svc.nr_crashed + exits es svc)
unfolding history exits
crash_loop since [] svc h w small = unfold reboots in ground arith
crash_loop since (exit now ∷ es) svc h w small =
    let c = exit-Counts since now svc h w.0 in
    let next = (happens (exit now) svc).0 in
    reboots-append (happens (exit now) svc).1 (history es next).1
    ∙ elim (Bool-cases (leb next.nr_crashed critical_crash_threshold)) [
      | inl few ↦ ground (
        arith,
        c.count,
        c.reboot,
        crash_loop since es next c.counting w.1
            (leb→le next.nr_crashed critical_crash_threshold few),
      )
      | inr many ↦ ground (arith, c.count, c.reboot)
    ]
crash_loop since (start env args ∷ es) svc h w small =
    let c = start-Counts since env svc args h in
    let next = (happens (start env args) svc).0 in
    reboots-append (happens (start env args) svc).1 (history es next).1
    ∙ ground
        (arith, c.count, c.reboot, crash_loop since es next c.counting w.1 (omega (arith, c.count)))
crash_loop since (tick env needs ∷ es) svc h w small =
    let c = tick-Counts since needs env svc h in
    let next = (happens (tick env needs) svc).0 in
    reboots-append (happens (tick env needs) svc).1 (history es next).1
    ∙ ground
        (arith, c.count, c.reboot, crash_loop since es next c.counting w.1 (omega (arith, c.count)))
crash_loop since (restart env ∷ es) svc h w small = absurd w.0
crash_loop since (stop_or_reset how ∷ es) svc h w small = absurd w.0
