-- ===== src/Kernel/Status.antt =====
-- What is read back from the status file.
use asl.Base.{
  Bool-cases, inl, inr, ◌≢◌, ℕ, ◌≤◌, ◌≡◌, refl, ap, ◌∙◌, subst, false, [], ◌∷◌, ◌++◌, append_assoc,
  arith, ◌==◌, if◌then◌else◌, length, take, drop, All,
}
use asl.Base.Text.{Bytes}
use asl.Kernel.{
  Uaccess, clamp, Image, count, efault, max_proc_size, write_proc, read_proc, c_string,
}

-- Bytes without a 0.
abbrev pub IsText : Bytes → Type 0
IsText = All (λ b. (b == 0) ≡ false)

c_string-append : (s t : Bytes) → IsText s → c_string (s ++ t) ≡ s ++ c_string t
unfolding c_string
c_string-append [] t h = refl
c_string-append (b ∷ s) t h = ground (arith, h.0, c_string-append s t h.1)

take-all : (s : Bytes) → take (length s) s ≡ s
take-all [] = refl
take-all (b ∷ s) = ap (◌∷◌ b) (take-all s)

clamp_small : (n : ℕ) → n ≤ max_proc_size → clamp n ≡ n
clamp_small n h = ground arith

succeeded : (missing n : ℕ) → (if missing == 0 then count n else efault) ≢ efault → missing ≡ 0
succeeded missing n ok = elim (Bool-cases (missing == 0)) [
  | inl e ↦ ground (arith, e)
  | inr e ↦ absurd (ok (rw e refl))
]

-- A status of at most 4 bytes, none of them 0, whose write does not fail: the answer is its length,
-- and it is read back in front of what the array has behind it and what the memory has behind the
-- array, up to the first 0 there.
pub read_proc-write_proc :
    (uaccess : Uaccess) (buf : Bytes) (image : Image)
    → IsText buf
    → length buf ≤ max_proc_size
    → (write_proc uaccess buf (length buf) image).1 ≢ efault
    → ((write_proc uaccess buf (length buf) image).1 ≡ count (length buf))
      × (read_proc (write_proc uaccess buf (length buf) image).0
          ≡ buf ++ c_string (drop (length buf) image.proc_data ++ image.behind))
unfolding read_proc write_proc
read_proc-write_proc uaccess buf image text short ok =
    let n = length buf in
    let r = uaccess.copy_from_user image.proc_data buf in
    let small = clamp_small n short in
    let none_missing : (r n).1 ≡ 0 =
      subst (λ k. (r k).1 ≡ 0) small (succeeded (r (clamp n)).1 (clamp n) ok) in
    let held : (r n).0 ≡ buf ++ drop n image.proc_data =
      uaccess.copied image.proc_data buf n (omega arith) none_missing
      ∙ ap (λ l. l ++ drop n image.proc_data) (take-all buf) in
    rw small (
      ground (arith, none_missing),
      ap (λ l. c_string (l ++ image.behind)) held
          ∙ ap c_string (append_assoc buf (drop n image.proc_data) image.behind)
          ∙ c_string-append buf (drop n image.proc_data ++ image.behind) text,
    )
