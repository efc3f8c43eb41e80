-- ===== src/Queue/Match.antt =====
-- Which triggers the two tests accept.
use asl.Base.{
  ℕ, ◌≡◌, ◌≤◌, ◌⊎◌, inl, inr, ◌↔◌, refl, ap, ◌∙◌, subst, true, false, ◌&&◌, Option, none, some, [],
  ◌∷◌, ◌++◌, arith, ◌==◌, length, drop, All, and_split, or_split, Bool-cases, Option-cases,
}
use asl.Base.Text.{
  Bytes, codes, str_eq, str_eq→eq, str_eq_refl, starts_with, starts_with-append, starts_with→append,
  split_at,
}
use asl.Parser.{Action}
use asl.Queue.Triggers.{
  property_prefix, value_matches, behind_name, triggered_by, holds_now, triggered_now,
}

-- The name of a trigger, up to the value.
abbrev pub trigger : Bytes → Bytes → Bytes
trigger name value = property_prefix ++ (name ++ b'=' ∷ value)

drop-append : (p s : Bytes) → drop (length p) (p ++ s) ≡ s
drop-append [] s = refl
drop-append (c ∷ p) s = drop-append p s

value_matches-true :
    (test value : Bytes) → value_matches test value ≡ true → (test ≡ value) ⊎ (test ≡ codes "*")
value_matches-true test value h = elim (or_split (str_eq test value) (str_eq test (codes "*")) h) [
  | inl e ↦ inl (str_eq→eq test value e)
  | inr e ↦ inr (str_eq→eq test (codes "*") e)
]

behind_name-true :
    (value rest : Bytes)
    → behind_name value rest ≡ true
    → (test : Bytes) × (rest ≡ b'=' ∷ test) × (value_matches test value ≡ true)
behind_name-true value [] h = cc h
behind_name-true value (c ∷ test) h =
    let both = and_split (c == b'=') (value_matches test value) h in
    (test, ground (arith, both.0), both.1)

-- The test behind the prefix.
abbrev Passes : Bytes → Bytes → Bytes → Type 0
Passes name value whole =
    (starts_with name (drop 9 whole) && behind_name value (drop (length name) (drop 9 whole)))
    ≡ true

after_name :
    (name value r : Bytes)
    → Passes name value (property_prefix ++ r)
    → (q : Bytes) × (r ≡ name ++ q) × (behind_name value q ≡ true)
after_name name value r h =
    let inner = and_split (starts_with name r) (behind_name value (drop (length name) r)) h in
    let (q, e) = starts_with→append name r inner.0 in
    (
      q,
      e,
      subst (λ l. behind_name value l ≡ true) (ap (drop (length name)) e ∙ drop-append name q)
          inner.1,
    )

-- The test accepts a trigger only if it is for the property.
triggered_by-trigger :
    (name value : Bytes) (act : Action)
    → triggered_by name value act ≡ true
    → (test : Bytes) × (act.name ≡ trigger name test) × (value_matches test value ≡ true)
unfolding triggered_by
triggered_by-trigger name value act h =
    let outer = and_split (starts_with property_prefix act.name) _ h in
    let (r, e) = starts_with→append property_prefix act.name outer.0 in
    let (q, e2, behind) = after_name name value r (subst (Passes name value) e outer.1) in
    let (test, e3, v) = behind_name-true value q behind in
    (test, e ∙ ap (λ l. property_prefix ++ l) (e2 ∙ ap (λ l. name ++ l) e3), v)

triggered_by-trigger-true :
    (name value test : Bytes) (act : Action)
    → act.name ≡ trigger name test
    → value_matches test value ≡ true
    → triggered_by name value act ≡ true
unfolding triggered_by
triggered_by-trigger-true name value test act e h = ground (
  arith,
  e,
  h,
  starts_with-append property_prefix (name ++ b'=' ∷ test),
  starts_with-append name (b'=' ∷ test),
  drop-append name (b'=' ∷ test),
)

-- `queue_property_triggers` queues an action exactly when its name is the trigger for the property
-- with the value that it got, or with the star.
pub triggered_by_iff :
    (name value : Bytes) (act : Action)
    → (triggered_by name value act ≡ true)
      ↔ ((act.name ≡ trigger name value) ⊎ (act.name ≡ trigger name (codes "*")))
triggered_by_iff name value act = (found, back)
  where
    found :
        triggered_by name value act ≡ true
        → (act.name ≡ trigger name value) ⊎ (act.name ≡ trigger name (codes "*"))
    found h =
        let (test, e, v) = triggered_by-trigger name value act h in
        elim (value_matches-true test value v) [
          | inl same ↦ inl (e ∙ ap (trigger name) same)
          | inr star ↦ inr (e ∙ ap (trigger name) star)
        ]

    back :
        (act.name ≡ trigger name value) ⊎ (act.name ≡ trigger name (codes "*"))
        → triggered_by name value act ≡ true
    back (inl e) =
        triggered_by-trigger-true name value value act e (ground (arith, str_eq_refl value))
    back (inr e) =
        triggered_by-trigger-true name value (codes "*") act e (unfold str_eq in ground arith)

-- Bytes without an equals sign.
abbrev pub IsName : Bytes → Type 0
IsName = All (λ c. (c == b'=') ≡ false)

abbrev cut : Bytes → Bytes → Option (Bytes × Bytes)
cut a b = some (a, b)

cut_injective : (a b a' b' : Bytes) → cut a b ≡ cut a' b' → (a ≡ a') × (b ≡ b')
cut_injective a b a' b' h = (cc h, cc h)

split_at-some : (s a b : Bytes) → split_at b'=' s ≡ some (a, b) → (s ≡ a ++ b'=' ∷ b) × IsName a
unfolding split_at
split_at-some [] a b h = cc h
split_at-some (x ∷ xs) a b h = elim (Bool-cases (x == b'=')) [
  | inl e ↦ here e (rw e at h)
  | inr e ↦ elim (Option-cases (split_at b'=' xs)) [
    | inl f ↦ absurd (ground (arith, h, e, f))
    | inr ((a', b'), f) ↦ there e a' b' (split_at-some xs a' b' f) (rw (e, f) at h)
  ]
]
  where
    here : (x == b'=') ≡ true → cut [] xs ≡ cut a b → (x ∷ xs ≡ a ++ b'=' ∷ b) × IsName a
    here e g = let i = cut_injective [] xs a b g in ground (arith, e, i.0, i.1)

    there :
        (x == b'=') ≡ false
        → (a' b' : Bytes) → (xs ≡ a' ++ b'=' ∷ b') × IsName a'
        → cut (x ∷ a') b' ≡ cut a b
        → (x ∷ xs ≡ a ++ b'=' ∷ b) × IsName a
    there e a' b' later g =
        let i = cut_injective (x ∷ a') b' a b g in
        subst (λ l. (x ∷ xs ≡ l ++ b'=' ∷ b) × IsName l) i.0
          (ap (◌∷◌ x) (later.0 ∙ ap (λ l. a' ++ b'=' ∷ l) i.1), (e, later.1))

split_at-name : (a b : Bytes) → IsName a → split_at b'=' (a ++ b'=' ∷ b) ≡ some (a, b)
unfolding split_at
split_at-name [] b h = refl
split_at-name (x ∷ a) b h = ground (arith, h.0, split_at-name a b h.1)

module _ (prop_name_max : ℕ) (property_get : Bytes → Option Bytes) where
  -- The property and the test of a trigger that holds.
  record Held (o : Option (Bytes × Bytes)) : Type 0 where
    name : Bytes
    value : Bytes
    test : Bytes
    parts : o ≡ some (name, test)
    short : length name ≤ prop_name_max
    has : property_get name ≡ some value
    matches : value_matches test value ≡ true

  holds_now-Held :
      (o : Option (Bytes × Bytes)) → holds_now prop_name_max property_get o ≡ true → Held o
  unfolding holds_now
  holds_now-Held none h = cc h
  holds_now-Held (some (n, t)) h = elim (Option-cases (property_get n)) [
    | inl e ↦ absurd (ground (arith, h, e))
    | inr (v, e) ↦ record {
      name = n;
      value = v;
      test = t;
      parts = refl;
      short = ground (arith, h);
      has = e;
      matches = ground (arith, h, e);
    }
  ]

-- The scan of all triggers queues an action exactly when the change of some property, with a name of
-- at most PROP_NAME_MAX bytes and without an equals sign, to the value it has would.
pub triggered_now_iff :
    (prop_name_max : ℕ) (property_get : Bytes → Option Bytes) (act : Action)
    → (triggered_now prop_name_max property_get act ≡ true) ↔ (
        (name : Bytes) × (value : Bytes) × (length name ≤ prop_name_max)
        × IsName name
        × (property_get name ≡ some value)
        × (triggered_by name value act ≡ true))
unfolding triggered_now holds_now
triggered_now_iff prop_name_max property_get act = (found, back)
  where
    P : Bytes → Type 0
    P whole = holds_now prop_name_max property_get (split_at b'=' (drop 9 whole)) ≡ true

    Wanted : Type 0
    Wanted =
        (name : Bytes) × (value : Bytes) × (length name ≤ prop_name_max)
        × IsName name
        × (property_get name ≡ some value)
        × (triggered_by name value act ≡ true)

    found : triggered_now prop_name_max property_get act ≡ true → Wanted
    found h =
        let outer = and_split (starts_with property_prefix act.name) _ h in
        let (r, e) = starts_with→append property_prefix act.name outer.0 in
        let held =
          holds_now-Held prop_name_max property_get (split_at b'=' r) (subst P e outer.1) in
        let parts = split_at-some r held.name held.test held.parts in
        (
          held.name,
          held.value,
          held.short,
          parts.1,
          held.has,
          triggered_by-trigger-true held.name held.value held.test act
              (e ∙ ap (λ l. property_prefix ++ l) parts.0) held.matches,
        )

    back : Wanted → triggered_now prop_name_max property_get act ≡ true
    back (name, value, short, is_name, has, h) =
        let (test, e, v) = triggered_by-trigger name value act h in
        ground (
          arith,
          e,
          v,
          short,
          has,
          split_at-name name test is_name,
          starts_with-append property_prefix (name ++ b'=' ∷ test),
        )
