-- ===== src/Props/Set.antt =====
-- What `property_set` does to the area.
pub mod Layout
pub mod Results
use asl.Base.{
  ℕ, zero, suc, ◌+◌, ◌<◌, ◌≤◌, ◌≡◌, ◌≢◌, ◌⊎◌, inl, inr, refl, sym, ap, ◌∙◌, Bool, true, false,
  Option, none, some, List, [], ◌∷◌, ◌++◌, ◌==◌, arith, leb, ltb, if◌then◌else◌, All, length,
  get_elem?, set, Bool-cases, Option-cases, length-set, length-append, not, ◌&&◌, ◌||◌,
}
use asl.Base.Text.{Bytes, codes, str_eq, starts_with, str_eq→eq, str_eq_refl}
use asl.Props.{
  PropInfo, Bionic, Props, Event, changed, persisted, emit, update_prop_info, overwrite, add_entry,
  write_area, property_set_at, property_set, property_get, pa_count_max, with_length,
}
use asl.Props.Area.{
  lookup, Distinct, lookup-set, lookup-append, Distinct-set, Distinct-append, find-lookup-none,
  property_get-lookup,
}

-- What a successful write to the area makes of the store.
pub record Written (n v : Bytes) (s t : Props) : Type 0 where
  pub distinct : Distinct t.infos
  pub values : (m : Bytes) → lookup m t.infos ≡ (if str_eq n m then some v else lookup m s.infos)
  pub same_loaded : t.persistent_properties_loaded ≡ s.persistent_properties_loaded
  pub same_events : t.events ≡ s.events
  pub grows : length t.infos ≤ length s.infos + 1

-- The fields of a store that the write changed in `infos` alone, as far as `Written` reads it.
Written-intro :
    (n v : Bytes) (s t : Props) (infos : List PropInfo)
    → t.infos ≡ infos
    → t.persistent_properties_loaded ≡ s.persistent_properties_loaded
    → t.events ≡ s.events
    → length infos ≤ length s.infos + 1
    → Distinct infos
    → ((m : Bytes) → lookup m infos ≡ (if str_eq n m then some v else lookup m s.infos))
    → Written n v s t
Written-intro n v s t infos e l ev g d values = record {
  distinct = rw e d;
  values = λ m. rw e (values m);
  same_loaded = l;
  same_events = ev;
  grows = rw e g;
}

overwrite-Written :
    (n v : Bytes) (i : ℕ) (info : PropInfo) (s : Props) {t : Props}
    → Distinct s.infos
    → get_elem? s.infos i ≡ some info
    → info.name ≡ n
    → overwrite n v i s ≡ some t
    → Written n v s t
unfolding overwrite
overwrite-Written n v i info s {t} d at named e =
    Written-intro n v s t (set s.infos i (update_prop_info info v)) (ground arith) (ground arith)
      (ground arith) (omega (arith, length-set s.infos i (update_prop_info info v)))
      (Distinct-set s.infos i info (update_prop_info info v) d at refl)
      (λ m. rw (← named) (lookup-set s.infos i info (update_prop_info info v) m d at refl))

add_entry-Written :
    (n v : Bytes) (s : Props) {t : Props}
    → Distinct s.infos
    → lookup n s.infos ≡ none
    → All (λ o. o.name ≢ n) s.infos
    → add_entry n v s ≡ some t
    → Written n v s t
unfolding add_entry
add_entry-Written n v s {t} d missing new e =
    let entry : PropInfo = record { name = n; serial = with_length (length v) 0; value = v } in
    Written-intro n v s t (s.infos ++ entry ∷ []) (ground arith) (ground arith) (ground arith)
      (omega (arith, length-append s.infos (entry ∷ []))) (Distinct-append s.infos entry d new)
      (λ m. lookup-append s.infos entry m missing)

abbrev pub net_change : Bytes
net_change = codes "net.change"

abbrev pub is_net : Bytes → Bool
is_net n = starts_with (codes "net.") n && not (str_eq net_change n)

if_keeps :
    (P : Props → Type 0) (b : Bool) (x y : Props × Bool) → P x.0 → P y.0 → P (if b then x else y).0
if_keeps P true x y p q = p
if_keeps P false x y p q = q

module _ (bionic : Bionic) where
  open bionic use {prop_name_max, prop_value_max, system_property_find, find_some, find_none}

  pub write_area-Written :
      (n v : Bytes) (s : Props) {t : Props}
      → Distinct s.infos
      → write_area bionic n v s ≡ some t
      → Written n v s t
  unfolding write_area
  write_area-Written n v s {t} d e = elim (Option-cases (system_property_find n s.infos)) [
    | inl missing ↦
        let rest : add_entry n v s ≡ some t = ground arith in
        add_entry-Written n v s d (find-lookup-none bionic n s missing)
          (find_none n s.infos missing) rest
    | inr (i, found) ↦
        let (info, at, named) = find_some n s.infos i found in
        let rest : overwrite n v i s ≡ some t = ground arith in
        overwrite-Written n v i info s d at named rest
  ]

  pub write_area_sizes :
      (n v : Bytes) (s : Props) {t : Props}
      → write_area bionic n v s ≡ some t
      → (0 < length n) × (length n < prop_name_max) × (length v < prop_value_max)
  unfolding write_area
  write_area_sizes n v s e = (ground arith, ground arith, ground arith)

  pub property_set_at-none :
      (depth : ℕ) (n v : Bytes) (s : Props)
      → write_area bionic n v s ≡ none
      → property_set_at bionic (suc depth) n v s ≡ (s, false)
  unfolding property_set_at
  property_set_at-none depth n v s f = rw (f, property_set_at)

  pub property_set_at-some :
      (depth : ℕ) (n v : Bytes) (s : Props) {t : Props}
      → write_area bionic n v s ≡ some t
      → ((property_set_at bionic (suc depth) n v s).1 ≡ true)
        × ((property_set_at bionic (suc depth) n v s).0.infos
            ≡ (if is_net n then (property_set_at bionic depth net_change n t).0.infos else t.infos))
        × ((property_set_at bionic (suc depth) n v s).0.persistent_properties_loaded ≡ (
            if is_net n
            then (property_set_at bionic depth net_change n t).0.persistent_properties_loaded
            else t.persistent_properties_loaded))
  unfolding property_set_at
  property_set_at-some depth n v s {t} f =
      rw (f, property_set_at) (ground arith, ground arith, ground arith)

  -- A property of the store that every write to the area and every event keeps is kept.
  property_set_at_inv :
      (P : Props → Type 0)
      → ((n v : Bytes) (s t : Props) → P s → write_area bionic n v s ≡ some t → P t)
      → ((e : Event) (s : Props) → P s → P (emit e s))
      → (depth : ℕ) (n v : Bytes) (s : Props) → P s
      → P (property_set_at bionic depth n v s).0
  unfolding property_set_at
  property_set_at_inv P keep note zero n v s p = p
  property_set_at_inv P keep note (suc depth) n v s p =
      elim (Option-cases (write_area bionic n v s)) [
        | inl f ↦ rw (f, property_set_at) p
        | inr (t, f) ↦
            let q = keep n v s t p f in
            let r = property_set_at_inv P keep note depth net_change n t q in
            rw (f, property_set_at)
              (if_keeps P (starts_with (codes "net.") n) _ _
                (if_keeps P (str_eq net_change n) _ _ q (note (changed n v) _ r))
                (if_keeps P (t.persistent_properties_loaded && starts_with (codes "persist.") n) _ _
                  (note (changed n v) _ (note (persisted n v) t q)) (note (changed n v) t q)))
      ]

  pub property_set_inv :
      (P : Props → Type 0)
      → ((n v : Bytes) (s t : Props) → P s → write_area bionic n v s ≡ some t → P t)
      → ((e : Event) (s : Props) → P s → P (emit e s))
      → (n v : Bytes) (s : Props) → P s
      → P (property_set bionic n v s).0
  unfolding property_set
  property_set_inv P keep note = property_set_at_inv P keep note 2
