-- ===== src/Util/Tests.antt =====
-- A file system that is the list of its paths, and the theorems of util.c at concrete inputs.
use asl.Base.{
  ℕ, ◌≡◌, ◌≢◌, ◌⊎◌, inl, inr, refl, Bool, true, false, ◌||◌, Option, none, some, List, [], ◌∷◌,
  ◌++◌, arith, if◌then◌else◌, if_elim, map, ltb, ◌+◌, ◌==◌, not, all, all-All, All, ltb→lt,
  Bool-cases,
}
use asl.Base.Text.{Bytes, codes, str_eq, str_eq_refl, is_space, starts_with}
use asl.Number.{digit}
use asl.Util.{FileSystem, eexist, mkdir_recursive, Watch, wait_for_file}
use asl.Util.Parents.{mkdir_recursive_makes}
use asl.Util.Waiting.{Ended, wait_for_file-Ended}
use asl.Parser.Imports.{init_parse_config_file}
use asl.Util.Insecure.{IsInsecure, insecure_files_ignored}
use asl.Util.Proc.{Stored, read_file, Hardware, get_hardware_name}
use asl.Util.Mtd.{find_mtd_partitions}
use asl.Util.Partitions.{IsDigits, Line, IsLine, print_lines}
use asl.Util.Table.{header, part_of, find_mtd_partitions-print}

abbrev is_there : Bytes → List Bytes → Bool
is_there p [] = false
is_there p (q ∷ qs) = str_eq p q || is_there p qs

abbrev add : Bytes → ℕ → List Bytes → List Bytes × Option ℕ
add p mode f = if is_there p f then (f, some eexist) else (p ∷ f, none)

add_makes : (p : Bytes) (mode : ℕ) (f : List Bytes) → is_there p (add p mode f).0 ≡ true
add_makes p mode f =
    if_elim (λ (r : List Bytes × Option ℕ). is_there p r.0 ≡ true) (is_there p f) _ _ (λ e. e)
      (λ e. ground (arith, str_eq_refl p))

add_keeps :
    (p q : Bytes) (mode : ℕ) (f : List Bytes)
    → is_there q f ≡ true
    → is_there q (add p mode f).0 ≡ true
add_keeps p q mode f h =
    if_elim (λ (r : List Bytes × Option ℕ). is_there q r.0 ≡ true) (is_there p f) _ _ (λ e. h)
      (λ e. ground (arith, h))

abbrev fs : FileSystem
fs = record {
  Files = List Bytes;
  entry = is_there;
  stat = is_there;
  mkdir = add;
  symlink = λ oldpath newpath. add newpath 0;
  readlink = λ p f. none;
  unlink = λ p f. f;
  stat-entry = λ p f h. h;
  mkdir_made = λ p mode f h. add_makes p mode f;
  mkdir_exists = λ p mode f h. add_makes p mode f;
  mkdir_keeps = add_keeps;
}

mkdir_recursive_makes_example :
    All
      (λ p.
        is_there p (mkdir_recursive fs (codes "/dev/block/platform") 493 (codes "/dev" ∷ [])).0
        ≡ true)
      (codes "/dev/block/platform" ∷ codes "/dev" ∷ codes "/dev/block" ∷ [])
unfolding mkdir_recursive str_eq
mkdir_recursive_makes_example =
    mkdir_recursive_makes fs (codes "/dev/block/platform") 493 (codes "/dev" ∷ []) refl

-- The file appears at the fourth turn.
abbrev watch : Watch
watch = record { gettime = λ i. 100 + i; stat = λ i. ltb 2 i }

wait_for_file-Ended_example : Ended watch 105 0 (wait_for_file 6 watch 100 5)
wait_for_file-Ended_example = wait_for_file-Ended watch 100 5 5 (omega arith)

wait_for_file-true : wait_for_file 6 watch 100 5 ≡ some true
unfolding wait_for_file
wait_for_file-true = refl

-- Neither a blank nor a quote, and neither a blank nor a newline.
abbrev plain : ℕ → Bool
plain c = not (is_space c || c == b'"')

plain-word : (c : ℕ) → plain c ≡ true → (c ≢ b' ') × (c ≢ b'\n')
plain-word c h = (λ e. ground (arith, h, e), λ e. ground (arith, h, e))

plain-name : (c : ℕ) → plain c ≡ true → (is_space c ≡ false) × (c ≢ b'"')
plain-name c h = (ground (arith, h), λ e. ground (arith, h, e))

abbrev cmdline : List Bytes
cmdline = codes "console=ttyS0" ∷ codes "androidboot.hardware=qcom" ∷ []

abbrev unnamed : Hardware
unnamed = record { hardware = []; revision = 0 }

abbrev cpuinfo : Bytes
cpuinfo = codes "Processor\t: ARMv7\nHardware\t: QCT MSM8960\nRevision\t: 0014\n"

get_hardware_name_msm :
    get_hardware_name (some cpuinfo) unnamed
    ≡ record { hardware = codes "qctmsm8960"; revision = 20 }
unfolding get_hardware_name starts_with
get_hardware_name_msm = refl

abbrev lines : List Line
lines =
    record {
      number = codes "0";
      size = codes "00080000";
      erasesize = codes "00020000";
      name = codes "misc";
    }
    ∷ record {
      number = codes "11";
      size = codes "00300000";
      erasesize = codes "00020000";
      name = codes "recovery";
    }
    ∷ []

digits : (base : ℕ) (ds : Bytes) → all (λ c. ltb (digit c) base) ds ≡ true → IsDigits base ds
digits base ds = all-All (λ c. ltb (digit c) base) _ (λ c h. ltb→lt (digit c) base h) ds

lines-IsLine : All IsLine lines
lines-IsLine = (
  record {
    number_digits = digits 10 (codes "0") refl;
    number_fits = omega arith;
    size_digits = digits 16 (codes "00080000") refl;
    erasesize_digits = digits 16 (codes "00020000") refl;
    nonempty = (λ e. cc e, λ e. cc e, λ e. cc e);
    name_plain = all-All plain _ plain-name (codes "misc") refl;
    name_fits = omega arith;
  },
  (
    record {
      number_digits = digits 10 (codes "11") refl;
      number_fits = omega arith;
      size_digits = digits 16 (codes "00300000") refl;
      erasesize_digits = digits 16 (codes "00020000") refl;
      nonempty = (λ e. cc e, λ e. cc e, λ e. cc e);
      name_plain = all-All plain _ plain-name (codes "recovery") refl;
      name_fits = omega arith;
    },
    tt,
  ),
)

find_mtd_partitions-print_example :
    find_mtd_partitions (some (header ++ print_lines lines)) ≡ map part_of lines
find_mtd_partitions-print_example =
    find_mtd_partitions-print lines lines-IsLine (omega arith) (omega arith)

abbrev rc_files : Bytes → Bytes → Option Stored
rc_files other fn =
    if str_eq fn (codes "/init.rc")
    then some (record { st_mode = 488; content = codes "import /data/x.rc\n" })
    else if str_eq fn (codes "/data/x.rc")
    then some (record { st_mode = 438; content = other })
    else none

rc_files_agree :
    (a b fn : Bytes)
    → (rc_files a fn ≡ rc_files b fn) ⊎ (IsInsecure (rc_files a fn) × IsInsecure (rc_files b fn))
rc_files_agree a b fn = elim (Bool-cases (str_eq fn (codes "/init.rc"))) [
  | inl e ↦ inl (rw e refl)
  | inr e ↦ elim (Bool-cases (str_eq fn (codes "/data/x.rc"))) [
    | inl e' ↦ inr (rw (e, e') (refl, refl))
    | inr e' ↦ inl (rw (e, e') refl)
  ]
]

insecure_files_ignored_example :
    init_parse_config_file some []
      (read_file (rc_files (codes "on boot\n")))
      (λ fn i. [])
      3
      (codes "/init.rc")
      (record { services = []; actions = [] })
    ≡ init_parse_config_file some []
        (read_file (rc_files []))
        (λ fn i. [])
        3
        (codes "/init.rc")
        (record { services = []; actions = [] })
insecure_files_ignored_example =
    insecure_files_ignored some [] (λ fn i. []) (rc_files (codes "on boot\n")) (rc_files []) 3
      (codes "/init.rc") (record { services = []; actions = [] })
      (rc_files_agree (codes "on boot\n") [])
