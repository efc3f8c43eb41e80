-- ===== src/Boot/Names.antt =====
-- The properties that the boot loader sets by the kernel command line.
use asl.Base.{
  ℕ, ◌<◌, ◌≡◌, ◌≢◌, refl, ap, ◌∙◌, true, false, not, ◌&&◌, some, [], ◌∷◌, ◌++◌, arith, ◌==◌, ltb,
  All, All-append, all-All, length,
}
use asl.Base.Text.{Bytes, codes, str_eq, starts_with, split_at, str_eq_refl}
use asl.Props.{Bionic, property_get}
use asl.Props.Area.{Distinct}
use asl.Props.Set.{net_change, is_net}
use asl.Props.Set.Results.{property_get-property_set, property_set_succeeds, admits}
use asl.Boot.{Vars, import_kernel_nv, import_device_nv, charging_name, set_if_short}

split_at-first : (n v : Bytes) → All (λ c. c ≢ b'=') n → split_at b'=' (n ++ b'=' ∷ v) ≡ some (n, v)
unfolding split_at
split_at-first [] v h = refl
split_at-first (c ∷ n) v h = rw (other h.0, split_at-first n v h.1) refl
  where
    other : c ≢ b'=' → (c == b'=') ≡ false
    other ne = ground (arith, ne)

-- The names that `import_kernel_nv` keeps for itself.
abbrev pub IsOther : Bytes → Type 0
IsOther n =
    (str_eq (codes "androidboot." ++ n) (codes "androidboot.emmc") ≡ false)
    × (str_eq (codes "androidboot." ++ n) charging_name ≡ false)

module _ (bionic : Bionic) where
  open bionic use {prop_name_max}

  import_device-boot :
      (n v : Bytes) (s : Vars)
      → IsOther n
      → 0 < length n
      → import_device_nv bionic (codes "androidboot." ++ n) v s
        ≡ set_if_short bionic (codes "ro.boot." ++ n) v s
  unfolding import_device_nv str_eq starts_with
  import_device-boot n v s other some_name = rw (other.0, other.1, long) refl
    where
      long : ltb 12 (length (codes "androidboot." ++ n)) ≡ true
      long = ground (arith, some_name)

  set_if_short-get :
      (n v : Bytes) (s : Vars)
      → Distinct s.props.infos
      → admits bionic n v s.props ≡ true
      → (is_net n && str_eq net_change n) ≡ false
      → property_get bionic n (set_if_short bionic n v s).props ≡ some v
  set_if_short-get n v s d ok side = rw short (
      property_get-property_set bionic n n v s.props d
        (property_set_succeeds bionic n v s.props ∙ ok) side
      ∙ rw (str_eq_refl n) refl)
    where
      short : ltb (length n) prop_name_max ≡ true
      short = ground (arith, ok)

  -- The word androidboot.NAME=VALUE of the kernel command line makes VALUE the value of ro.boot.NAME,
  -- if NAME is not empty, has no equals sign and is not one of the two that init keeps for itself, and
  -- the property service admits the pair.
  pub import_kernel_nv-boot :
      (c : ℕ) (n v : Bytes) (s : Vars)
      → All (λ d. d ≢ b'=') (c ∷ n)
      → IsOther (c ∷ n)
      → Distinct s.props.infos
      → admits bionic (codes "ro.boot." ++ (c ∷ n)) v s.props ≡ true
      → property_get bionic
          (codes "ro.boot." ++ (c ∷ n))
          (import_kernel_nv bionic false (codes "androidboot." ++ ((c ∷ n) ++ b'=' ∷ v)) s).props
        ≡ some v
  unfolding import_kernel_nv
  import_kernel_nv-boot c n v s plain other d ok =
      rw (split_at-first (codes "androidboot." ++ (c ∷ n)) v named, import_kernel_nv)
        (ap (λ (r : Vars). property_get bionic (codes "ro.boot." ++ (c ∷ n)) r.props)
            (import_device-boot (c ∷ n) v s other (omega arith))
          ∙ set_if_short-get (codes "ro.boot." ++ (c ∷ n)) v s d ok (unfold starts_with in refl))
    where
      named : All (λ e. e ≢ b'=') (codes "androidboot." ++ (c ∷ n))
      named =
          All-append (λ e. e ≢ b'=') (codes "androidboot.") (c ∷ n)
            (all-All (λ e. not (e == b'=')) (λ e. e ≢ b'=') (λ e k q. ground (arith, k, q))
              (codes "androidboot.") refl)
            plain
