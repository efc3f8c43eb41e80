-- ===== src/Props/Dictionary/Sets.antt =====
-- That a set of the property service is one of the dictionary.
use asl.Base.{
  ltb, ◌≡◌, inl, inr, refl, sym, ap, ◌∙◌, not, ◌&&◌, Option, none, some, [], ◌∷◌, ◌++◌, arith, ◌==◌,
  ltb, if◌then◌else◌, length, length-append, length-set, set, Bool-cases, Option-cases,
}
use asl.Base.Text.{Bytes, codes, str_eq, starts_with, str_eq→eq}
use asl.Props.{
  Bionic, Props, Event, emit, property_get, property_set, property_set_at, write_area, overwrite,
  add_entry, update_prop_info, pa_count_max, with_length,
}
use asl.Props.Area.{Distinct, property_get-lookup}
use asl.Props.Set.{
  net_change, is_net, write_area-Written, write_area_sizes, property_set_at-none,
  property_set_at-some,
}
use asl.Props.Set.Results.{is_some, write_area-admits}
use asl.Props.Dictionary.{may_set, new_count, enter, accepts, put, put_noted, view}

module _ (bionic : Bionic) where
  open bionic use {prop_name_max, prop_value_max, system_property_find, find_some}

  -- The view depends on the entries alone.
  view-infos : (s t : Props) → s.infos ≡ t.infos → view bionic s ≡ view bionic t
  unfolding property_get
  view-infos s t e = ap (λ l. view bionic (record s { infos = l })) e

  write_area-count :
      (n v : Bytes) (s t : Props)
      → write_area bionic n v s ≡ some t
      → length t.infos ≡ new_count (property_get bionic n s) (length s.infos)
  unfolding write_area overwrite add_entry property_get
  write_area-count n v s t e =
      let sizes = write_area_sizes bionic n v s e in
      elim (Option-cases (system_property_find n s.infos)) [
        | inl missing ↦
            let infos : t.infos
                ≡ s.infos
                  ++ record { name = n; serial = with_length (length v) 0; value = v } ∷ [] =
              ground arith in
            let gone : property_get bionic n s ≡ none = ground arith in
            rw (infos, gone) (length-append s.infos _)
        | inr (i, found) ↦
            let (info, at, named) = find_some n s.infos i found in
            let infos : t.infos ≡ set s.infos i (update_prop_info info v) = ground arith in
            let there : property_get bionic n s ≡ some info.value = ground arith in
            rw (infos, there) (length-set s.infos i (update_prop_info info v))
      ]

  write_area-view :
      (n v : Bytes) (s t : Props)
      → Distinct s.infos
      → write_area bionic n v s ≡ some t
      → view bionic t ≡ enter n v (view bionic s)
  write_area-view n v s t d e i = record {
    value = λ m. values m i;
    count = write_area-count n v s t e i;
  }
    where
      values :
          (m : Bytes)
          → property_get bionic m t ≡ (if str_eq n m then some v else property_get bionic m s)
      values m =
          let w = write_area-Written bionic n v s d e in
          let sizes = write_area_sizes bionic n v s e in
          ground (
            arith,
            property_get-lookup bionic m s d,
            property_get-lookup bionic m t w.distinct,
            w.values m,
            str_eq→eq n m,
            sizes.0,
            sizes.1,
          )

  write_area-accepts :
      (n v : Bytes) (s : Props)
      → is_some (write_area bionic n v s) ≡ accepts bionic n v (view bionic s)
  write_area-accepts n v s =
      write_area-admits bionic n v s
      ∙ ap
          (λ b.
            ltb 0 (length n) && ltb (length n) prop_name_max && ltb (length v) prop_value_max && b)
          (same (property_get bionic n s))
    where
      same :
          (o : Option Bytes)
          → (elim o [
            | some _ ↦ not (starts_with (codes "ro.") n)
            | none ↦ not (length s.infos == pa_count_max)
          ])
            ≡ may_set n o (length s.infos)
      same none = refl
      same (some w) = refl

  -- The inner call for net.change.
  noted-view :
      (n : Bytes) (s : Props)
      → Distinct s.infos
      → view bionic (property_set_at bionic 1 net_change n s).0
        ≡ put bionic net_change n (view bionic s)
  unfolding str_eq starts_with
  noted-view n s d = elim (Option-cases (write_area bionic net_change n s)) [
    | inl f ↦
        let no = ap is_some (sym f) ∙ write_area-accepts net_change n s in
        rw (property_set_at-none bionic 0 net_change n s f) (rw (← no) refl)
    | inr (t, f) ↦
        let yes = ap is_some (sym f) ∙ write_area-accepts net_change n s in
        view-infos _ t (property_set_at-some bionic 0 net_change n s f).1
        ∙ write_area-view net_change n s t d f
        ∙ rw (← yes) refl
  ]

  -- One set of the service is one of the dictionary.
  pub property_set-view :
      (n v : Bytes) (s : Props)
      → Distinct s.infos
      → view bionic (property_set bionic n v s).0 ≡ put_noted bionic n v (view bionic s)
  unfolding property_set
  property_set-view n v s d = elim (Option-cases (write_area bionic n v s)) [
    | inl f ↦
        let no = ap is_some (sym f) ∙ write_area-accepts n v s in
        rw (property_set_at-none bionic 1 n v s f) (rw (← no) refl)
    | inr (t, f) ↦
        let yes = ap is_some (sym f) ∙ write_area-accepts n v s in
        let now = write_area-view n v s t d f in
        let w = write_area-Written bionic n v s d f in
        rw (← yes) (elim (Bool-cases (is_net n)) [
          | inl net ↦
              view-infos (property_set_at bionic 2 n v s).0
                (property_set_at bionic 1 net_change n t).0
                (rw net at (property_set_at-some bionic 1 n v s f).1)
              ∙ noted-view n t w.distinct
              ∙ rw net (ap (put bionic net_change n) now)
          | inr plain ↦
              view-infos (property_set_at bionic 2 n v s).0 t
                (rw plain at (property_set_at-some bionic 1 n v s f).1)
              ∙ rw plain now
        ])
  ]

  pub view-emit : (e : Event) (s : Props) → view bionic (emit e s) ≡ view bionic s
  view-emit e s = view-infos (emit e s) s refl
