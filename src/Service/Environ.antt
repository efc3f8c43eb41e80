-- ===== src/Service/Environ.antt =====
-- `add_environment` of init.c: the environment of the services.
use asl.Base.{
  ◌==◌, ℕ, zero, suc, ◌≤◌, ◌≡◌, refl, Bool, true, false, Option, none, some, List, [], ◌∷◌, ◌++◌,
  arith, length, if◌then◌else◌, All, ltb, ◌||◌,
}
use asl.Base.Text.{str_eq, str_eq→eq, Bytes, starts_with}

-- `check`: the key with an equals sign.
abbrev pub check : Bytes → Bytes
check key = key ++ b'=' ∷ []

-- `entry`
abbrev pub entry : Bytes → Bytes → Bytes
entry key val = key ++ b'=' ∷ val

-- The loop with `slots` places left; the environment holds the entries in front of the first null.
-- The result is `true` for 0 and `false` for 1.
add_slots : ℕ → Bytes → Bytes → List Bytes → List Bytes × Bool
add_slots zero key val env = (env, false)
add_slots (suc slots) key val [] = (entry key val ∷ [], true)
add_slots (suc slots) key val (e ∷ env) =
    let rest = add_slots slots key val env in
    if starts_with (check key) e then (entry key val ∷ env, true) else (e ∷ rest.0, rest.1)

-- `ENV` has 32 places, and the last stays null.
unfoldable pub add_environment : Bytes → Bytes → List Bytes → List Bytes × Bool
unfolding add_slots
add_environment key val env = add_slots 31 key val env

-- What `getenv` finds: the value of the first entry with the key.
after_check : Bytes → Bytes → Option Bytes
after_check [] [] = none
after_check [] (c ∷ e) = if c == b'=' then some e else none
after_check (k ∷ key) [] = none
after_check (k ∷ key) (c ∷ e) = if k == c then after_check key e else none

unfoldable pub getenv : Bytes → List Bytes → Option Bytes
unfolding after_check
getenv key [] = none
getenv key (e ∷ env) = elim (after_check key e) [ some v ↦ some v | none ↦ getenv key env ]

after_check-entry : (key val : Bytes) → after_check key (entry key val) ≡ some val
unfolding after_check
after_check-entry [] val = refl
after_check-entry (k ∷ key) val = ground (arith, after_check-entry key val)

-- The test of the loop is whether the entry has the key.
after_check-starts_with :
    (key e : Bytes) → starts_with (check key) e ≡ false → after_check key e ≡ none
unfolding after_check starts_with
after_check-starts_with [] [] h = refl
after_check-starts_with [] (c ∷ e) h = ground arith
after_check-starts_with (k ∷ key) [] h = refl
after_check-starts_with (k ∷ key) (c ∷ e) h = ground (arith, after_check-starts_with key e)

-- A key has no equals sign, so no entry has two keys.
abbrev pub IsKey : Bytes → Type 0
IsKey = All (λ c. (c == b'=') ≡ false)

other_key :
    (key other e : Bytes)
    → IsKey key
    → IsKey other
    → str_eq key other ≡ false
    → starts_with (check key) e ≡ true
    → after_check other e ≡ none
unfolding after_check starts_with str_eq
other_key [] [] e p q ne h = cc
other_key [] (o ∷ other) [] p q ne h = cc
other_key [] (o ∷ other) (c ∷ e) p q ne h = ground (arith, q.0)
other_key (k ∷ key) [] [] p q ne h = cc
other_key (k ∷ key) [] (c ∷ e) p q ne h = ground (arith, p.0)
other_key (k ∷ key) (o ∷ other) [] p q ne h = refl
other_key (k ∷ key) (o ∷ other) (c ∷ e) p q ne h = ground (arith, other_key key other e p.1 q.1)

after_check-entry_ne :
    (key val other : Bytes)
    → IsKey key
    → IsKey other
    → str_eq key other ≡ false
    → after_check other (entry key val) ≡ none
unfolding after_check str_eq
after_check-entry_ne [] val [] p q ne = cc
after_check-entry_ne [] val (o ∷ other) p q ne = ground (arith, q.0)
after_check-entry_ne (k ∷ key) val [] p q ne = ground (arith, p.0)
after_check-entry_ne (k ∷ key) val (o ∷ other) p q ne =
    ground (arith, after_check-entry_ne key val other p.1 q.1)

getenv-add_slots :
    (slots : ℕ) (key val other : Bytes) (env : List Bytes)
    → IsKey key
    → IsKey other
    → (add_slots slots key val env).1 ≡ true
    → getenv other (add_slots slots key val env).0
      ≡ (if str_eq key other then some val else getenv other env)
unfolding add_slots getenv
getenv-add_slots zero key val other env p q h = cc
getenv-add_slots (suc slots) key val other [] p q h =
    ground (
      arith,
      after_check-entry key val,
      after_check-entry_ne key val other p q,
      str_eq→eq key other,
    )
getenv-add_slots (suc slots) key val other (e ∷ env) p q h = ground (
  arith,
  after_check-entry key val,
  after_check-entry_ne key val other p q,
  str_eq→eq key other,
  after_check-starts_with key e,
  other_key key other e p q,
  getenv-add_slots slots key val other env p q,
)

-- After a successful `add_environment` the key has the value, and every other key has what it had;
-- keys have no equals sign.
pub getenv-add_environment :
    (key val other : Bytes) (env : List Bytes)
    → IsKey key
    → IsKey other
    → (add_environment key val env).1 ≡ true
    → getenv other (add_environment key val env).0
      ≡ (if str_eq key other then some val else getenv other env)
unfolding add_environment
getenv-add_environment key val other env = getenv-add_slots 31 key val other env

length-add_slots :
    (slots : ℕ) (key val : Bytes) (env : List Bytes)
    → length env ≤ slots
    → length (add_slots slots key val env).0 ≤ slots
unfolding add_slots
length-add_slots zero key val env h = h
length-add_slots (suc slots) key val [] h = omega arith
length-add_slots (suc slots) key val (e ∷ env) h =
    ground (arith, length-add_slots slots key val env)

-- Whether an entry has the key.
abbrev pub has_key : Bytes → List Bytes → Bool
has_key key [] = false
has_key key (e ∷ env) = starts_with (check key) e || has_key key env

add_slots_result :
    (slots : ℕ) (key val : Bytes) (env : List Bytes)
    → length env ≤ slots
    → (add_slots slots key val env).1 ≡ (ltb (length env) slots || has_key key env)
unfolding add_slots
add_slots_result zero key val [] h = refl
add_slots_result zero key val (e ∷ env) h = absurd (omega arith)
add_slots_result (suc slots) key val [] h = ground arith
add_slots_result (suc slots) key val (e ∷ env) h =
    ground (arith, add_slots_result slots key val env (omega arith))

-- From an environment of at most 31 entries, `add_environment` succeeds exactly when there are
-- fewer than 31 or one of them has the key, and there are again at most the 31 entries that leave
-- room for the final null.
pub add_environment_room :
    (key val : Bytes) (env : List Bytes)
    → length env ≤ 31
    → ((add_environment key val env).1 ≡ (ltb (length env) 31 || has_key key env))
      × (length (add_environment key val env).0 ≤ 31)
unfolding add_environment
add_environment_room key val env h =
    (add_slots_result 31 key val env h, length-add_slots 31 key val env h)
