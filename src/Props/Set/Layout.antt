-- ===== src/Props/Set/Layout.antt =====
-- The layout of the shared area: its table of contents, and the sizes of its entries.
use asl.Base.{
  ℕ, zero, suc, ◌+◌, ◌*◌, ◌/◌, ◌%◌, ◌^◌, ◌<◌, ◌≤◌, ◌≡◌, inl, inr, refl, sym, ◌∙◌, some, List, [],
  ◌∷◌, ◌++◌, arith, length, get_elem?, set, All, All-append, All-set, All-get, Option-cases,
  length-append, length-set,
}
use asl.Base.Text.{Bytes}
use asl.Props.{
  PropInfo, Bionic, Props, update_prop_info, overwrite, add_entry, write_area, property_set,
  pa_count_max, pa_info_start, pa_size, with_length, dirty,
}
use asl.Props.Set.{property_set_inv, write_area_sizes}

-- The table of contents of entries that begin at place `k`.
unfoldable pub toc_of : ℕ → List PropInfo → List ℕ
toc_of k [] = []
toc_of k (info ∷ infos) =
    with_length (length info.name) (pa_info_start + 128 * k) ∷ toc_of (k + 1) infos

toc_of-append :
    (k : ℕ) (infos : List PropInfo) (info : PropInfo)
    → toc_of k (infos ++ info ∷ [])
      ≡ toc_of k infos
        ++ with_length (length info.name) (pa_info_start + 128 * (k + length infos)) ∷ []
unfolding toc_of
toc_of-append k [] info = ground arith
toc_of-append k (first ∷ infos) info = ground (arith, toc_of-append (k + 1) infos info)

toc_of-set :
    (k : ℕ) (infos : List PropInfo) (i : ℕ) (info new : PropInfo)
    → get_elem? infos i ≡ some info
    → new.name ≡ info.name
    → toc_of k (set infos i new) ≡ toc_of k infos
unfolding toc_of
toc_of-set k [] i info new e same = refl
toc_of-set k (first ∷ infos) zero info new e same = ground arith
toc_of-set k (first ∷ infos) (suc i) info new e same =
    ground (arith, toc_of-set (k + 1) infos i info new e same)

toc_of-get :
    (k : ℕ) (infos : List PropInfo) (i : ℕ) (info : PropInfo)
    → get_elem? infos i ≡ some info
    → get_elem? (toc_of k infos) i
      ≡ some (with_length (length info.name) (pa_info_start + 128 * (k + i)))
unfolding toc_of
toc_of-get k [] i info e = cc
toc_of-get k (first ∷ infos) zero info e = ground arith
toc_of-get k (first ∷ infos) (suc i) info e = ground (arith, toc_of-get (k + 1) infos i info e)

get-length :
    (infos : List PropInfo) (i : ℕ) (info : PropInfo)
    → get_elem? infos i ≡ some info
    → i < length infos
get-length [] i info e = cc
get-length (first ∷ infos) zero info e = omega arith
get-length (first ∷ infos) (suc i) info e = omega (arith, get-length infos i info e)

module _ (bionic : Bionic) where
  open bionic use {
    prop_name_max, prop_value_max, system_property_find, find_some, info_size, name_max_bounds,
  }

  -- An entry fits, and the high byte of its serial number is the length of its value.
  pub record Fits (info : PropInfo) : Type 0 where
    pub name_fits : (0 < length info.name) × (length info.name < prop_name_max)
    pub value_fits : length info.value < prop_value_max
    pub serial_length : info.serial / 2 ^ 24 ≡ length info.value

  pub record IsLaidOut (s : Props) : Type 0 where
    pub count : length s.infos ≤ pa_count_max
    pub toc_lists : s.toc ≡ toc_of 0 s.infos
    pub fits : All Fits s.infos

  -- A serial number with the length of a value that fits.
  serial_length_lem :
      (v : Bytes) (low : ℕ)
      → length v < prop_value_max
      → low < 2 ^ 24
      → with_length (length v) low / 2 ^ 24 ≡ length v
  serial_length_lem v low h k = omega (arith, info_size)

  overwrite-IsLaidOut :
      (n v : Bytes) (i : ℕ) (info : PropInfo) (s t : Props)
      → length v < prop_value_max
      → get_elem? s.infos i ≡ some info
      → IsLaidOut s
      → overwrite n v i s ≡ some t
      → IsLaidOut t
  unfolding overwrite update_prop_info
  overwrite-IsLaidOut n v i info s t small at h e =
      let new = update_prop_info info v in
      let infos : t.infos ≡ set s.infos i new = ground arith in
      let toc : t.toc ≡ s.toc = ground arith in
      let old = All-get Fits s.infos i info h.fits at in
      let new_fits : Fits new = record {
        name_fits = old.name_fits;
        value_fits = small;
        serial_length = serial_length_lem v ((dirty info.serial + 1) % 2 ^ 24) small (omega arith);
      } in
      record {
        count = rw infos (omega (arith, length-set s.infos i new, h.count));
        toc_lists = toc ∙ h.toc_lists ∙ rw infos (sym (toc_of-set 0 s.infos i info new at refl));
        fits = rw infos (All-set Fits s.infos i new h.fits new_fits);
      }

  add_entry-IsLaidOut :
      (n v : Bytes) (s t : Props)
      → (0 < length n) × (length n < prop_name_max)
      → length v < prop_value_max
      → IsLaidOut s
      → add_entry n v s ≡ some t
      → IsLaidOut t
  unfolding add_entry
  add_entry-IsLaidOut n v s t name small h e =
      let new : PropInfo = record { name = n; serial = with_length (length v) 0; value = v } in
      let infos : t.infos ≡ s.infos ++ new ∷ [] = ground arith in
      let toc : t.toc
          ≡ s.toc ++ with_length (length n) (pa_info_start + 128 * length s.infos) ∷ [] =
        ground arith in
      let new_fits : Fits new = record {
        name_fits = name;
        value_fits = small;
        serial_length = serial_length_lem v 0 small (omega arith);
      } in
      record {
        count = rw infos (ground (arith, length-append s.infos (new ∷ []), h.count));
        toc_lists = toc ∙ rw infos (ground (arith, h.toc_lists, toc_of-append 0 s.infos new));
        fits = rw infos (All-append Fits s.infos (new ∷ []) h.fits (new_fits, tt));
      }

  write_area-IsLaidOut :
      (n v : Bytes) (s t : Props) → IsLaidOut s → write_area bionic n v s ≡ some t → IsLaidOut t
  unfolding write_area
  write_area-IsLaidOut n v s t h f =
      let sizes = write_area_sizes bionic n v s f in
      elim (Option-cases (system_property_find n s.infos)) [
        | inl missing ↦ add_entry-IsLaidOut n v s t (sizes.0, sizes.1) sizes.2 h (ground arith)
        | inr (i, found) ↦
            let (info, at, named) = find_some n s.infos i found in
            overwrite-IsLaidOut n v i info s t sizes.2 at h (ground arith)
      ]

  -- Every `property_set` keeps the area laid out: at most 372 entries, a table of contents that
  -- lists them in order, and entries that fit, with the length of the value in the serial number.
  pub property_set-IsLaidOut :
      (n v : Bytes) (s : Props) → IsLaidOut s → IsLaidOut (property_set bionic n v s).0
  property_set-IsLaidOut =
      property_set_inv bionic IsLaidOut write_area-IsLaidOut
        (λ e s h. record { count = h.count; toc_lists = h.toc_lists; fits = h.fits })

  -- In an area that is laid out, the word for an entry in the table of contents has the length of
  -- the entry's name in its high byte, and below it an offset at which the 128 bytes of the entry
  -- lie behind the header and within the area.
  pub toc_in_bounds :
      (s : Props) (i : ℕ) (info : PropInfo)
      → IsLaidOut s
      → get_elem? s.infos i ≡ some info
      → (word : ℕ) × (get_elem? s.toc i ≡ some word)
        × (word / 2 ^ 24 ≡ length info.name)
        × (pa_info_start ≤ word % 2 ^ 24)
        × (word % 2 ^ 24 + 128 ≤ pa_size)
  toc_in_bounds s i info h at =
      let small = get-length s.infos i info at in
      let fit = (All-get Fits s.infos i info h.fits at).name_fits in
      (
        with_length (length info.name) (pa_info_start + 128 * i),
        ground (arith, h.toc_lists, toc_of-get 0 s.infos i info at),
        omega (arith, h.count, info_size),
        omega (arith, h.count, info_size),
        omega (arith, h.count, info_size),
      )
