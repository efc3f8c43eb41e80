-- ===== src/Util/Waiting.antt =====
-- How `wait_for_file` ends.
use asl.Base.{
  ℕ, zero, suc, ◌+◌, ◌<◌, ◌≤◌, ◌≡◌, refl, Bool, true, false, Option, some, arith, ltb,
  if◌then◌else◌, if_elim, ◌⊎◌, inl, inr, ltb→lt,
}
use asl.Util.{Watch, wait_turns, wait_for_file}

-- The turns from `i` up to `j` in time at which the file is not there.
abbrev pub Misses : Watch → ℕ → ℕ → ℕ → Type 0
Misses watch timeout_time i zero = Unit
Misses watch timeout_time i (suc n) =
    (watch.gettime i < timeout_time) × (watch.stat i ≡ false) × Misses watch timeout_time (suc i) n

-- The answer, and the turns at which the file was not there in time before it was, or before the
-- time-out was over.
abbrev pub Ended : Watch → ℕ → ℕ → Option Bool → Type 0
Ended watch timeout_time i answer =
    (n : ℕ) × Misses watch timeout_time i n
    × (((answer ≡ some true) × (watch.gettime (i + n) < timeout_time) × (watch.stat (i + n) ≡ true))
        ⊎ ((answer ≡ some false) × (timeout_time ≤ watch.gettime (i + n))))

at_once :
    (watch : Watch) (timeout_time i : ℕ) (rest : Option Bool)
    → (watch.gettime i < timeout_time → watch.stat i ≡ false → Ended watch timeout_time i rest)
    → Ended watch timeout_time i (
        if ltb (watch.gettime i) timeout_time
        then (if watch.stat i then some true else rest)
        else some false)
at_once watch timeout_time i rest later =
    if_elim (Ended watch timeout_time i) (ltb (watch.gettime i) timeout_time) _ _
      (λ e.
        if_elim (Ended watch timeout_time i) (watch.stat i) _ _
          (λ f. (0, tt, inl (refl, ground (arith, e), ground (arith, f))))
          (λ f. later (ltb→lt _ _ e) f))
      (λ e. (0, tt, inr (refl, ground (arith, e))))

later :
    (watch : Watch) (timeout_time i : ℕ) (answer : Option Bool)
    → watch.gettime i < timeout_time
    → watch.stat i ≡ false
    → Ended watch timeout_time (suc i) answer
    → Ended watch timeout_time i answer
later watch timeout_time i answer early missing (n, misses, inl (a, b, c)) =
    (suc n, (early, missing, misses), inl (a, ground (arith, b), ground (arith, c)))
later watch timeout_time i answer early missing (n, misses, inr (a, b)) =
    (suc n, (early, missing, misses), inr (a, ground (arith, b)))

wait_turns-Ended :
    (watch : Watch) (timeout_time i n : ℕ)
    → timeout_time ≤ watch.gettime (i + n)
    → Ended watch timeout_time i (wait_turns (suc n) watch timeout_time i)
unfolding wait_turns
wait_turns-Ended watch timeout_time i zero late =
    at_once watch timeout_time i _ (λ early missing. absurd (ground arith))
wait_turns-Ended watch timeout_time i (suc n) late =
    at_once watch timeout_time i _ (λ early missing.
      later watch timeout_time i _ early missing
        (wait_turns-Ended watch timeout_time (suc i) n (ground (arith, late))))

-- If the time-out is over at the turn `n` of `wait_for_file`, fuel of `n + 1` is enough, and the answer
-- is that the file is there at the first turn at which it is, where that is in time, and otherwise
-- that it is not: no turn in time has seen it.
pub wait_for_file-Ended :
    (watch : Watch) (now timeout n : ℕ)
    → now + timeout ≤ watch.gettime n
    → Ended watch (now + timeout) 0 (wait_for_file (suc n) watch now timeout)
unfolding wait_for_file
wait_for_file-Ended watch now timeout n late =
    wait_turns-Ended watch (now + timeout) 0 n (ground (arith, late))
