-- ===== src/Kernel/Tests.antt =====
-- A status that fills the array, and the theorem at it.
use asl.Base.{◌≡◌, ◌≢◌, refl, [], ◌∷◌, ◌++◌, arith, length, take, drop}
use asl.Base.Text.{codes}
use asl.Kernel.{Uaccess, Image, count, efault, write_proc, read_proc, c_string}
use asl.Kernel.Status.{read_proc-write_proc}

abbrev uaccess : Uaccess
uaccess = record {
  copy_from_user = λ to from n. (take n from ++ drop n to, 0);
  copied = λ to from n h e. refl;
}

-- The next array in memory begins with the letters `7f`.
abbrev image : Image
image = record { proc_data = 0 ∷ 0 ∷ 0 ∷ 0 ∷ []; behind = codes "7f" ++ 0 ∷ [] }

-- The text that is read is longer than the array.
read_proc-full : read_proc (write_proc uaccess (codes "done") 4 image).0 ≡ codes "done7f"
unfolding read_proc write_proc
read_proc-full = refl

read_proc-write_proc_example :
    ((write_proc uaccess (codes "ok") (length (codes "ok")) image).1 ≡ count (length (codes "ok")))
    × (read_proc (write_proc uaccess (codes "ok") (length (codes "ok")) image).0
        ≡ codes "ok" ++ c_string (drop (length (codes "ok")) image.proc_data ++ image.behind))
read_proc-write_proc_example =
    read_proc-write_proc uaccess (codes "ok") image (refl, (refl, tt)) (omega arith) success
  where
    success : (write_proc uaccess (codes "ok") (length (codes "ok")) image).1 ≢ efault
    success = unfold write_proc in λ e. cc e
