-- ===== src/Props/Set/Results.antt =====
-- `property_set` as its callers see it, through `property_get`.
use mathlib.Core.Bool.{false≢true}
use asl.Base.{
  ◌+◌, ◌<◌, ◌≡◌, ◌⊎◌, inl, inr, refl, sym, ap, ◌∙◌, Bool, true, false, not, ◌&&◌, Option, none,
  some, arith, ltb, ◌==◌, if◌then◌else◌, length, Option-cases, Bool-cases,
}
use asl.Base.Text.{Bytes, codes, str_eq, starts_with, str_eq→eq, str_eq_refl}
use asl.Props.{
  Bionic, Props, overwrite, add_entry, write_area, property_set_at, property_set, property_get,
  pa_count_max,
}
use asl.Props.Area.{lookup, Distinct, property_get-lookup}
use asl.Props.Set.{
  net_change, is_net, write_area-Written, write_area_sizes, property_set_at-none,
  property_set_at-some, property_set_inv,
}

abbrev pub is_some {ℓ} : {A : Type ℓ} → Option A → Bool
is_some none = false
is_some (some a) = true

is_some-eq {ℓ} : {A : Type ℓ} (o : Option A) → is_some o ≡ true → (a : A) × (o ≡ some a)
is_some-eq none h = cc
is_some-eq (some a) h = (a, refl)

ro_is_not_net : (n : Bytes) → starts_with (codes "ro.") n ≡ true → str_eq net_change n ≡ false
unfolding starts_with
ro_is_not_net n ro = elim (Bool-cases (str_eq net_change n)) [
  | inl e ↦ cc (ap (starts_with (codes "ro.")) (str_eq→eq net_change n e))
  | inr e ↦ e
]

module _ (bionic : Bionic) where
  open bionic use {prop_name_max, prop_value_max, system_property_find, find_some, name_max_bounds}

  -- The call for net.change writes at most that one entry.
  noted_values :
      (n m : Bytes) (t : Props)
      → Distinct t.infos
      → str_eq net_change m ≡ false
      → lookup m (property_set_at bionic 1 net_change n t).0.infos ≡ lookup m t.infos
  noted_values n m t d ne = elim (Option-cases (write_area bionic net_change n t)) [
    | inl f ↦ rw (property_set_at-none bionic 0 net_change n t f)
    | inr (u, f) ↦
        let w = write_area-Written bionic net_change n t d f in
        unfold str_eq starts_with in
        ap (lookup m) (property_set_at-some bionic 0 net_change n t f).1 ∙ w.values m ∙ rw ne refl
  ]

  pub property_set-Distinct :
      (n v : Bytes) (s : Props) → Distinct s.infos → Distinct (property_set bionic n v s).0.infos
  property_set-Distinct =
      property_set_inv bionic (λ s. Distinct s.infos)
        (λ n v s t d f. (write_area-Written bionic n v s d f).distinct) (λ e s d. d)

  -- A success has written the entry.
  property_set-write_area :
      (n v : Bytes) (s : Props)
      → (property_set bionic n v s).1 ≡ true
      → (t : Props) × (write_area bionic n v s ≡ some t)
  unfolding property_set
  property_set-write_area n v s ok = elim (Option-cases (write_area bionic n v s)) [
    | inl f ↦
        let e = ap (λ (r : Props × Bool). r.1) (property_set_at-none bionic 1 n v s f) in
        absurd (false≢true (sym e ∙ ok))
    | inr found ↦ found
  ]

  set_values :
      (n m v : Bytes) (s : Props)
      → Distinct s.infos
      → (property_set bionic n v s).1 ≡ true
      → (is_net n && str_eq net_change m) ≡ false
      → lookup m (property_set bionic n v s).0.infos
        ≡ (if str_eq n m then some v else lookup m s.infos)
  unfolding property_set
  set_values n m v s d ok side =
      let (t, f) = property_set-write_area n v s ok in
      let w = write_area-Written bionic n v s d f in
      elim (Bool-cases (is_net n)) [
        | inl net ↦
            let other : str_eq net_change m ≡ false = rw net at side in
            let infos = rw net at (property_set_at-some bionic 1 n v s f).1 in
            ap (lookup m) infos ∙ noted_values n m t w.distinct other ∙ w.values m
        | inr plain ↦
            let infos = rw plain at (property_set_at-some bionic 1 n v s f).1 in
            ap (lookup m) infos ∙ w.values m
      ]

  -- After a successful `property_set`, the name has the value, and every other name has the value it
  -- had, except that the set of a net. property may change net.change.
  pub property_get-property_set :
      (n m v : Bytes) (s : Props)
      → Distinct s.infos
      → (property_set bionic n v s).1 ≡ true
      → (is_net n && str_eq net_change m) ≡ false
      → property_get bionic m (property_set bionic n v s).0
        ≡ (if str_eq n m then some v else property_get bionic m s)
  property_get-property_set n m v s d ok side =
      let (t, f) = property_set-write_area n v s ok in
      let sizes = write_area_sizes bionic n v s f in
      ground (
        arith,
        property_get-lookup bionic m s d,
        property_get-lookup bionic m (property_set bionic n v s).0 (property_set-Distinct n v s d),
        set_values n m v s d ok side,
        str_eq→eq n m,
        sizes.0,
        sizes.1,
      )

  -- The conditions for a set: the sizes fit, and the name is no ro. property that has a value, and
  -- no new name when the area is full.
  abbrev pub admits : Bytes → Bytes → Props → Bool
  admits n v s =
      ltb 0 (length n)
      && ltb (length n) prop_name_max
      && ltb (length v) prop_value_max
      && (elim (property_get bionic n s) [
        | some _ ↦ not (starts_with (codes "ro.") n)
        | none ↦ not (length s.infos == pa_count_max)
      ])

  pub write_area-admits :
      (n v : Bytes) (s : Props) → is_some (write_area bionic n v s) ≡ admits n v s
  unfolding write_area overwrite add_entry property_get
  write_area-admits n v s = elim (Option-cases (system_property_find n s.infos)) [
    | inl missing ↦ ground arith
    | inr (i, found) ↦ let (info, at, named) = find_some n s.infos i found in ground arith
  ]

  -- `property_set` succeeds exactly when the sizes fit and the name is neither a ro. property that
  -- has a value nor, with the area full, a name that has none.
  pub property_set_succeeds :
      (n v : Bytes) (s : Props) → (property_set bionic n v s).1 ≡ admits n v s
  unfolding property_set
  property_set_succeeds n v s = elim (Option-cases (write_area bionic n v s)) [
    | inl f ↦
        let r = rw f at (write_area-admits n v s) in
        ap (λ (r : Props × Bool). r.1) (property_set_at-none bionic 1 n v s f) ∙ r
    | inr (t, f) ↦
        let r = rw f at (write_area-admits n v s) in (property_set_at-some bionic 1 n v s f).0 ∙ r
  ]

  -- A `property_set` that fails leaves the store as it was.
  pub property_set_fails :
      (n v : Bytes) (s : Props)
      → (property_set bionic n v s).1 ≡ false
      → (property_set bionic n v s).0 ≡ s
  unfolding property_set
  property_set_fails n v s e = elim (Option-cases (write_area bionic n v s)) [
    | inl f ↦ ap (λ (r : Props × Bool). r.0) (property_set_at-none bionic 1 n v s f)
    | inr (t, f) ↦ absurd (false≢true (sym e ∙ (property_set_at-some bionic 1 n v s f).0))
  ]

  noted_infos :
      (n : Bytes) (t : Props) {u : Props}
      → write_area bionic net_change n t ≡ some u
      → (property_set_at bionic 1 net_change n t).0.infos ≡ u.infos
  unfolding str_eq starts_with
  noted_infos n t g = (property_set_at-some bionic 0 net_change n t g).1

  -- With room in the area the call for net.change is admitted.
  net_change_admitted :
      (n v : Bytes) (s t : Props)
      → Distinct s.infos
      → write_area bionic n v s ≡ some t
      → (is_some (property_get bionic net_change s) ≡ true) ⊎ (length s.infos + 1 < pa_count_max)
      → admits net_change n t ≡ true
  unfolding starts_with
  net_change_admitted n v s t d f room =
      let w = write_area-Written bionic n v s d f in
      let sizes = write_area_sizes bionic n v s f in
      ground (
        arith,
        property_get-lookup bionic net_change s d,
        property_get-lookup bionic net_change t w.distinct,
        w.values net_change,
        w.grows,
        sizes.1,
        name_max_bounds.0,
        name_max_bounds.1,
      )

  -- A successful set of a net. property other than net.change leaves its name in net.change, if
  -- net.change has a value or there is room for two entries.
  pub net_change_tracks :
      (n v : Bytes) (s : Props)
      → Distinct s.infos
      → is_net n ≡ true
      → (property_set bionic n v s).1 ≡ true
      → (is_some (property_get bionic net_change s) ≡ true) ⊎ (length s.infos + 1 < pa_count_max)
      → property_get bionic net_change (property_set bionic n v s).0 ≡ some n
  unfolding property_set
  net_change_tracks n v s d net ok room =
      let (t, f) = property_set-write_area n v s ok in
      let w = write_area-Written bionic n v s d f in
      let able = write_area-admits net_change n t ∙ net_change_admitted n v s t d f room in
      let (u, g) = is_some-eq (write_area bionic net_change n t) able in
      let w' = write_area-Written bionic net_change n t w.distinct g in
      let outer = rw net at (property_set_at-some bionic 1 n v s f).1 in
      let inner = noted_infos n t g in
      let value : lookup net_change u.infos ≡ some n =
        rw (str_eq_refl net_change) at (w'.values net_change) in
      property_get-lookup bionic net_change (property_set bionic n v s).0
        (property_set-Distinct n v s d)
      ∙ ground (arith, ap (lookup net_change) (outer ∙ inner) ∙ value, name_max_bounds.0)

  -- A ro. property that has a value keeps it, whatever is set.
  pub ro_kept :
      (n v m w : Bytes) (s : Props)
      → Distinct s.infos
      → starts_with (codes "ro.") n ≡ true
      → property_get bionic n s ≡ some v
      → property_get bionic n (property_set bionic m w s).0 ≡ some v
  ro_kept n v m w s d ro has = elim (Bool-cases (property_set bionic m w s).1) [
    | inl ok ↦
        property_get-property_set m n w s d ok (ground (arith, ro_is_not_net n ro))
        ∙ ground (arith, property_set_succeeds m w s, str_eq→eq m n)
    | inr failed ↦ rw (property_set_fails m w s failed) has
  ]
