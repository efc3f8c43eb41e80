-- ===== src/Props/Area.antt =====
-- The area as a dictionary from names to values.
use asl.Base.{
  ℕ, zero, suc, ◌≡◌, ◌≢◌, inl, inr, refl, sym, ◌∙◌, Option, none, some, List, [], ◌∷◌, ◌++◌, arith,
  leb, if◌then◌else◌, length, get_elem?, set, All, All-set, All-append, All-get, Option-cases,
}
use asl.Base.Text.{Bytes, str_eq, str_eq→eq, str_eq_refl}
use asl.Props.{PropInfo, Bionic, Props, property_get}

-- The value of the first entry with the name.
pub lookup : Bytes → List PropInfo → Option Bytes
lookup n [] = none
lookup n (info ∷ infos) = if str_eq info.name n then some info.value else lookup n infos

-- No name occurs twice.
abbrev pub Distinct : List PropInfo → Type 0
Distinct [] = Unit
Distinct (info ∷ infos) = All (λ other. other.name ≢ info.name) infos × Distinct infos

pub lookup-none :
    (n : Bytes) (infos : List PropInfo) → All (λ info. info.name ≢ n) infos → lookup n infos ≡ none
unfolding lookup
lookup-none n [] h = refl
lookup-none n (info ∷ infos) h =
    ground (arith, str_eq→eq info.name n, lookup-none n infos, h.0, h.1)

pub lookup_at :
    (infos : List PropInfo) (i : ℕ) (info : PropInfo)
    → Distinct infos
    → get_elem? infos i ≡ some info
    → lookup info.name infos ≡ some info.value
unfolding lookup
lookup_at [] i info d e = cc
lookup_at (first ∷ infos) zero info d e = ground (arith, str_eq_refl info.name)
lookup_at (first ∷ infos) (suc i) info d e =
    let other = All-get (λ o. o.name ≢ first.name) infos i info d.0 e in
    ground (arith, str_eq→eq first.name info.name, lookup_at infos i info d.1 e, other)

-- An entry that is rewritten in place keeps its name, and only its value changes.
pub lookup-set :
    (infos : List PropInfo) (i : ℕ) (info new : PropInfo) (m : Bytes)
    → Distinct infos
    → get_elem? infos i ≡ some info
    → new.name ≡ info.name
    → lookup m (set infos i new) ≡ (if str_eq info.name m then some new.value else lookup m infos)
unfolding lookup
lookup-set [] i info new m d e same = cc
lookup-set (first ∷ infos) zero info new m d e same = ground arith
lookup-set (first ∷ infos) (suc i) info new m d e same =
    let other = All-get (λ o. o.name ≢ first.name) infos i info d.0 e in
    ground (
      arith,
      lookup-set infos i info new m d.1 e same,
      str_eq→eq first.name m,
      str_eq→eq info.name m,
      other,
    )

pub lookup-append :
    (infos : List PropInfo) (new : PropInfo) (m : Bytes)
    → lookup new.name infos ≡ none
    → lookup m (infos ++ new ∷ []) ≡ (if str_eq new.name m then some new.value else lookup m infos)
unfolding lookup
lookup-append [] new m h = refl
lookup-append (first ∷ infos) new m h =
    ground (
      arith,
      lookup-append infos new m,
      str_eq→eq first.name m,
      str_eq→eq new.name m,
      str_eq_refl m,
    )

pub Distinct-set :
    (infos : List PropInfo) (i : ℕ) (info new : PropInfo)
    → Distinct infos
    → get_elem? infos i ≡ some info
    → new.name ≡ info.name
    → Distinct (set infos i new)
Distinct-set [] i info new d e same = d
Distinct-set (first ∷ infos) zero info new d e same =
    let kept : new.name ≡ first.name = cc in rw kept d
Distinct-set (first ∷ infos) (suc i) info new d e same =
    let other = All-get (λ o. o.name ≢ first.name) infos i info d.0 e in
    (
      All-set (λ o. o.name ≢ first.name) infos i new d.0 (λ p. other (sym same ∙ p)),
      Distinct-set infos i info new d.1 e same,
    )

pub Distinct-append :
    (infos : List PropInfo) (new : PropInfo)
    → Distinct infos
    → All (λ o. o.name ≢ new.name) infos
    → Distinct (infos ++ new ∷ [])
Distinct-append [] new d h = (tt, tt)
Distinct-append (first ∷ infos) new d h = (
  All-append (λ o. o.name ≢ first.name) infos (new ∷ []) d.0 ((λ p. h.0 (sym p)), tt),
  Distinct-append infos new d.1 h.1,
)

module _ (bionic : Bionic) (n : Bytes) (s : Props) where
  open bionic use {prop_name_max, system_property_find, find_some, find_none}

  pub find-lookup-none : system_property_find n s.infos ≡ none → lookup n s.infos ≡ none
  find-lookup-none e = lookup-none n s.infos (find_none n s.infos e)

  -- `property_get` reads the dictionary, for the names that are short enough.
  pub property_get-lookup :
      Distinct s.infos
      → property_get bionic n s ≡ (if leb prop_name_max (length n) then none else lookup n s.infos)
  unfolding property_get
  property_get-lookup d = elim (Option-cases (system_property_find n s.infos)) [
    | inl e ↦ rw e (rw (find-lookup-none e))
    | inr (i, e) ↦
        let (info, at, named) = find_some n s.infos i e in
        rw e (rw at (rw (← named) (rw (lookup_at s.infos i info d at))))
  ]
