-- ===== src/Builtin/Copy/Whole.antt =====
-- What `do_copy` copies.
use asl.Base.{
  ℕ, zero, suc, ◌+◌, ◌-◌, ◌<◌, ◌≡◌, ◌≢◌, refl, sym, ap, ◌∙◌, some, List, [], ◌∷◌, ◌++◌, map, arith,
  length, length-append, append-nil, append_assoc, take, drop, All,
}
use asl.Base.Text.{Bytes}
use asl.Builtin.{ok}
use asl.Builtin.Copy.{read_turns, write_out, do_copy}

-- The parts of a file that are read one after the other, none of them empty.
abbrev pub concat : List Bytes → Bytes
concat [] = []
concat (part ∷ parts) = part ++ concat parts

abbrev pub total : List ℕ → ℕ
total [] = 0
total (n ∷ ns) = n + total ns

read_turns-concat :
    (parts : List Bytes) (buffer : Bytes)
    → All (λ part. part ≢ []) parts
    → read_turns (length (concat parts)) (map some parts) buffer
      ≡ some (some (buffer ++ concat parts))
unfolding read_turns
read_turns-concat [] buffer h = rw append-nil refl
read_turns-concat ([] ∷ parts) buffer h = absurd (h.0 refl)
read_turns-concat ((c ∷ cs) ∷ parts) buffer h =
    ap (λ n. read_turns n (map some parts) (buffer ++ c ∷ cs))
      (omega (arith, length-append cs (concat parts)))
    ∙ read_turns-concat parts (buffer ++ c ∷ cs) h.1
    ∙ ap (λ b. some (some b)) (append_assoc buffer (c ∷ cs) (concat parts))

take-drop : (n : ℕ) (s : Bytes) → take n s ++ drop n s ≡ s
take-drop zero s = refl
take-drop (suc n) [] = refl
take-drop (suc n) (c ∷ s) = ap (λ l. c ∷ l) (take-drop n s)

length-drop : (n : ℕ) (s : Bytes) → length (drop n s) ≡ length s - n
length-drop zero s = omega arith
length-drop (suc n) [] = omega arith
length-drop (suc n) (c ∷ s) = omega (arith, length-drop n s)

write_out-total :
    (ns : List ℕ) (p written : Bytes)
    → All (λ n. 0 < n) ns
    → total ns ≡ length p
    → write_out (length p) p (map some ns) written ≡ some (written ++ p, ok)
unfolding write_out
write_out-total [] [] written h e = rw append-nil refl
write_out-total [] (c ∷ p) written h e = absurd (ground arith)
write_out-total (zero ∷ ns) p written h e = absurd (omega (arith, h.0))
write_out-total (suc n ∷ ns) [] written h e = absurd (ground arith)
write_out-total (suc n ∷ ns) (c ∷ p) written h e =
    ap (λ k. write_out k (drop n p) (map some ns) (written ++ c ∷ take n p)) (sym (length-drop n p))
    ∙ write_out-total ns (drop n p) (written ++ c ∷ take n p) h.1
        (omega (arith, e, length-drop n p))
    ∙ ap (λ b. some (b, ok))
        (append_assoc written (c ∷ take n p) (drop n p)
          ∙ ap (λ l. written ++ c ∷ l) (take-drop n p))

drop_all : (s t : Bytes) → length t ≡ length s → drop (length s) t ≡ []
drop_all [] [] e = refl
drop_all [] (c ∷ t) e = absurd (ground arith)
drop_all (d ∷ s) [] e = refl
drop_all (d ∷ s) (c ∷ t) e = drop_all s t (omega (arith, e))

-- `do_copy` copies the whole file and returns 0, where `read` gives the file in parts that are not
-- empty, and `write` takes its bytes in portions that are not empty, however both are cut.
pub do_copy-whole :
    (parts : List Bytes) (portions : List ℕ) (garbage : Bytes)
    → All (λ part. part ≢ []) parts
    → All (λ n. 0 < n) portions
    → total portions ≡ length (concat parts)
    → length garbage ≡ length (concat parts)
    → do_copy (length (concat parts)) garbage (map some parts) (map some portions)
      ≡ some (concat parts, ok)
unfolding do_copy
do_copy-whole parts portions garbage h k e g =
    rw (read_turns-concat parts [] h, do_copy)
      (ap (λ r. write_out (length (concat parts)) (concat parts ++ r) (map some portions) [])
          (drop_all (concat parts) garbage g)
        ∙ ap (λ p. write_out (length (concat parts)) p (map some portions) [])
            (append-nil (concat parts))
        ∙ write_out-total portions (concat parts) [] k e)
