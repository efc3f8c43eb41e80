-- ===== src/Device/Rules/Override.antt =====
-- Which rule a device node gets its owner and mode from.
use asl.Base.{
  ◌≡◌, refl, ap, ◌∙◌, Bool, true, false, Option, none, some, List, [], ◌∷◌, ◌++◌, if◌then◌else◌,
}
use asl.Base.Text.{Bytes}
use asl.Device.Rules.{
  Perms, Rules, DevicePerm, add_dev_perms, name_matches, find_last, get_device_perm, perm_of,
  answer,
}

find_last-append {ℓ} :
    {A : Type ℓ} (test : A → Bool) (xs : List A) (x : A)
    → find_last test (xs ++ x ∷ []) ≡ (if test x then some x else find_last test xs)
find_last-append test [] x = refl
find_last-append {A = A} test (y ∷ xs) x = rw (find_last-append test xs x) (go (test x))
  where
    older : Option A
    older = elim (find_last test xs) [ some z ↦ some z | none ↦ if test y then some y else none ]

    go :
        (b : Bool)
        → (elim (if b then some x else find_last test xs) [
          | some z ↦ some z
          | none ↦ if test y then some y else none
        ])
          ≡ (if b then some x else older)
    go true = refl
    go false = refl

-- The owner and the mode of the node at each path, as the rules say so far.
abbrev pub Table : Type 0
Table = Bytes → DevicePerm

-- A rule takes the place of what was said of its paths; a rule for a file in /sys says nothing.
abbrev pub override : Perms → Table → Table
override dp table path = elim dp.attr [
  | some attr ↦ table path
  | none ↦ if name_matches dp.prefix dp.name path then perm_of dp else table path
]

abbrev pub override_all : List Perms → Table → Table
override_all [] table = table
override_all (dp ∷ dps) table = override_all dps (override dp table)

abbrev pub add_all : List Perms → Rules → Rules
add_all [] rules = rules
add_all (dp ∷ dps) rules = add_all dps (add_dev_perms dp rules)

-- The table that the rules stand for.
abbrev pub table_of : Rules → Table
table_of rules path = get_device_perm path rules.dev_perms

get_device_perm-append :
    (path : Bytes) (dev_perms : List Perms) (dp : Perms)
    → get_device_perm path (dev_perms ++ dp ∷ [])
      ≡ (if name_matches dp.prefix dp.name path then perm_of dp else get_device_perm path dev_perms)
unfolding get_device_perm
get_device_perm-append path dev_perms dp =
    ap answer (find_last-append (λ (d : Perms). name_matches d.prefix d.name path) dev_perms dp)
    ∙ go (name_matches dp.prefix dp.name path)
  where
    found : Option Perms
    found = find_last (λ (d : Perms). name_matches d.prefix d.name path) dev_perms

    go :
        (b : Bool)
        → answer (if b then some dp else found) ≡ (if b then perm_of dp else answer found)
    go true = refl
    go false = refl

table_of-add_dev_perms :
    (dp : Perms) (rules : Rules) (path : Bytes)
    → table_of (add_dev_perms dp rules) path ≡ override dp (table_of rules) path
unfolding add_dev_perms
table_of-add_dev_perms dp rules path = go dp.attr refl
  where
    go :
        (attr : Option Bytes)
        → dp.attr ≡ attr
        → table_of (add_dev_perms dp rules) path ≡ override dp (table_of rules) path
    go none e = rw (add_dev_perms, e) (get_device_perm-append path rules.dev_perms dp)
    go (some attr) e = rw (add_dev_perms, e) refl

-- Adding rules one after the other makes each of them take the place of what the earlier ones said of
-- its paths: `get_device_perm` reads the table that the rules override in their order.
pub add_all-override :
    (dps : List Perms) (rules : Rules) (path : Bytes)
    → get_device_perm path (add_all dps rules).dev_perms ≡ override_all dps (table_of rules) path
add_all-override [] rules path = refl
add_all-override (dp ∷ dps) rules path =
    add_all-override dps (add_dev_perms dp rules) path
    ∙ ap (λ table. override_all dps table path) (λ i p. table_of-add_dev_perms dp rules p i)
