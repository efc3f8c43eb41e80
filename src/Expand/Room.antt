-- ===== src/Expand/Room.antt =====
-- How much `expand_props` writes, and that it ends.
use asl.Base.{
  ℕ, zero, suc, ◌+◌, ◌-◌, ◌≤◌, ◌<◌, ◌≡◌, ◌⊎◌, inl, inr, refl, Option, none, some, [], ◌∷◌, ◌++◌,
  arith, ◌==◌, ltb, if_elim, length, length-append,
}
use asl.Base.Text.{Bytes, split_at}
use asl.Expand.{
  Outcome, expanded, failed, unfinished, push_chars, copy_rest, name_in_braces, name_to_end, closed,
  ended, read_name, Round, go_on, break, error, push_value, look_up, behind_dollar, push_front,
  round, expand_loop, expand_props,
}

-- With room for `m` bytes: the room is kept, or `$$` has taken one byte more and ends the loop.
abbrev Fits : ℕ → Bytes → ℕ → Type 0
Fits m dst left = (length dst + left ≤ m) ⊎ ((left ≡ 0) × (length dst ≤ m + 1))

-- A round keeps the room, and if the loop goes on, at most `n` bytes of the source are left.
abbrev Good : ℕ → ℕ → Round → Type 0
Good m n (go_on dst left src) = Fits m dst left × (length src ≤ n)
Good m n (break dst) = length dst ≤ m + 1
Good m n error = Unit

-- What is left of the source behind a name.
abbrev Behind : ℕ → Option (Bytes × Bytes) → Type 0
Behind n none = Unit
Behind n (some (prop, c)) = length c ≤ n

length-copy_rest : (left : ℕ) (src : Bytes) → length (copy_rest left src) ≤ left
length-copy_rest zero src = omega arith
length-copy_rest (suc left) [] = omega arith
length-copy_rest (suc left) (c ∷ src) = omega (arith, length-copy_rest left src)

name_in_braces-length : (limit : ℕ) (c : Bytes) → length (name_in_braces limit c).1 ≤ length c
unfolding name_in_braces
name_in_braces-length zero c = omega arith
name_in_braces-length (suc limit) [] = omega arith
name_in_braces-length (suc limit) (b ∷ c) = ground (arith, name_in_braces-length limit c)

closed-Behind : (n : ℕ) (p : Bytes × Bytes) → length p.1 ≤ n → Behind n (closed p)
unfolding closed
closed-Behind n (prop, []) h = tt
closed-Behind n (prop, b ∷ c) h = if_elim (Behind n) (b == b'}') _ _ (λ e. omega arith) (λ e. tt)

ended-Behind : (n : ℕ) (p : Bytes × Bytes) → Behind n (ended p)
unfolding ended
ended-Behind n (prop, []) = omega arith
ended-Behind n (prop, b ∷ c) = tt

read_name-Behind : (prop_name_max : ℕ) (c : Bytes) → Behind (length c) (read_name prop_name_max c)
unfolding read_name
read_name-Behind prop_name_max [] = tt
read_name-Behind prop_name_max (b ∷ c) =
    if_elim (Behind (suc (length c))) (b == b'{') _ _
      (λ e.
        closed-Behind (suc (length c)) (name_in_braces prop_name_max c)
          (omega (arith, name_in_braces-length prop_name_max c)))
      (λ e. ended-Behind (suc (length c)) (name_to_end prop_name_max (b ∷ c)))

-- `push_chars` keeps the room.
abbrev Pushed : ℕ → Option (Bytes × ℕ) → Type 0
Pushed m none = Unit
Pushed m (some (dst, left)) = length dst + left ≤ m

push_chars-Pushed :
    (m : ℕ) (dst : Bytes) (left : ℕ) (chars : Bytes)
    → length dst + left ≤ m
    → Pushed m (push_chars dst left chars)
push_chars-Pushed m dst left chars h =
    if_elim (Pushed m) (ltb left (length chars)) _ _ (λ e. tt)
      (λ e. ground (arith, e, h, length-append dst chars))

module _ (prop_name_max : ℕ) (property_get : Bytes → Option Bytes) (m n : ℕ) where
  Pushed-Good :
      (o : Option (Bytes × ℕ)) (c : Bytes)
      → Pushed m o
      → length c ≤ n
      → Good m n (elim o [ none ↦ error | some (dst', left') ↦ go_on dst' left' c ])
  Pushed-Good none c h k = tt
  Pushed-Good (some (dst, left)) c h k = (inl h, k)

  push_value-Good :
      (dst : Bytes) (left : ℕ) (v : Option Bytes) (c : Bytes)
      → length dst + left ≤ m
      → length c ≤ n
      → Good m n (push_value dst left v c)
  unfolding push_value
  push_value-Good dst left none c h k = tt
  push_value-Good dst left (some v) c h k =
      Pushed-Good (push_chars dst left v) c (push_chars-Pushed m dst left v h) k

  look_up-Good :
      (dst : Bytes) (left : ℕ) (o : Option (Bytes × Bytes))
      → length dst + left ≤ m
      → Behind n o
      → Good m n (look_up property_get dst left o)
  unfolding look_up
  look_up-Good dst left none h k = tt
  look_up-Good dst left (some ([], c)) h k = tt
  look_up-Good dst left (some (p ∷ prop, c)) h k =
      push_value-Good dst left (property_get (p ∷ prop)) c h k

  behind_dollar-Good :
      (dst : Bytes) (left : ℕ) (c : Bytes)
      → length dst + left ≤ m
      → length c ≤ n
      → Good m n (behind_dollar prop_name_max property_get dst left c)
  unfolding behind_dollar
  behind_dollar-Good dst left [] h k = omega arith
  behind_dollar-Good dst left (b ∷ c) h k =
      if_elim (Good m n) (b == b'$') _ _ (λ e. (literal left h, omega arith))
        (λ e.
          look_up-Good dst left (read_name prop_name_max (b ∷ c)) h
            (weaken (read_name prop_name_max (b ∷ c)) (read_name-Behind prop_name_max (b ∷ c))))
    where
      weaken : (o : Option (Bytes × Bytes)) → Behind (length (b ∷ c)) o → Behind n o
      weaken none w = tt
      weaken (some (prop, r)) w = omega (arith, w, k)

      literal : (left : ℕ) → length dst + left ≤ m → Fits m (dst ++ b'$' ∷ []) (left - 1)
      literal zero h = inr (omega arith, omega (arith, length-append dst (b'$' ∷ [])))
      literal (suc left) h = inl (omega (arith, length-append dst (b'$' ∷ [])))

  push_front-Good :
      (o : Option (Bytes × ℕ)) (c : Bytes)
      → Pushed m o
      → length c ≤ n
      → Good m n (push_front prop_name_max property_get o c)
  unfolding push_front
  push_front-Good none c h k = tt
  push_front-Good (some (dst, left)) c h k = behind_dollar-Good dst left c h k

-- The part behind a dollar sign is shorter than the source.
abbrev Cut : ℕ → Option (Bytes × Bytes) → Type 0
Cut n none = Unit
Cut n (some (front, c)) = length c < n

split_at-Cut : (s : Bytes) → Cut (length s) (split_at b'$' s)
unfolding split_at
split_at-Cut [] = tt
split_at-Cut (x ∷ xs) =
    if_elim (Cut (suc (length xs))) (x == b'$') _ _ (λ e. omega arith)
      (λ e. behind (split_at b'$' xs) (split_at-Cut xs))
  where
    behind :
        (o : Option (Bytes × Bytes))
        → Cut (length xs) o
        → Cut (suc (length xs)) (elim o [ none ↦ none | some (a, b) ↦ some (x ∷ a, b) ])
    behind none h = tt
    behind (some (a, b)) h = omega (arith, h)

module _ (prop_name_max : ℕ) (property_get : Bytes → Option Bytes) (m : ℕ) where
  round-Good :
      (n : ℕ) (dst : Bytes) (left : ℕ) (src : Bytes)
      → length dst + left ≤ m
      → length src ≤ n + 1
      → Good m n (round prop_name_max property_get dst left src)
  unfolding round
  round-Good n dst left src h k = go (split_at b'$' src) (split_at-Cut src)
    where
      go :
          (o : Option (Bytes × Bytes))
          → Cut (length src) o
          → Good m n (elim o [
            | none ↦ break (dst ++ copy_rest left src)
            | some (front, c) ↦ push_front prop_name_max property_get (push_chars dst left front) c
          ])
      go none w =
          omega (arith, h, length-append dst (copy_rest left src), length-copy_rest left src)
      go (some (front, c)) w =
          push_front-Good prop_name_max property_get m n (push_chars dst left front) c
            (push_chars-Pushed m dst left front h) (omega (arith, w, k))

  -- The function ends, with a string of at most `m + 1` bytes if it succeeds.
  abbrev Ends : Outcome → Type 0
  Ends (expanded dst) = length dst ≤ m + 1
  Ends failed = Unit
  Ends unfinished = ⊥

  -- The loop behind a round.
  follow :
      (fuel n : ℕ) (r : Round)
      → Good m n r
      → ((dst : Bytes) (left : ℕ) (src : Bytes)
          → Fits m dst left
          → length src ≤ n
          → Ends (expand_loop prop_name_max property_get fuel dst left src))
      → Ends (elim r [
        | go_on dst left src ↦ expand_loop prop_name_max property_get fuel dst left src
        | break dst ↦ expanded dst
        | error ↦ failed
      ])
  follow fuel n (go_on dst left src) h again = again dst left src h.0 h.1
  follow fuel n (break dst) h again = h
  follow fuel n error h again = tt

  expand_loop-Ends :
      (fuel : ℕ) (dst : Bytes) (left : ℕ) (src : Bytes)
      → Fits m dst left
      → length src < fuel
      → Ends (expand_loop prop_name_max property_get fuel dst left src)
  unfolding expand_loop
  expand_loop-Ends zero dst left src h k = absurd (omega arith)
  expand_loop-Ends (suc fuel) dst left [] h k = ground (arith, h)
  expand_loop-Ends (suc fuel) dst zero (s ∷ src) h k = ground (arith, h)
  expand_loop-Ends (suc fuel) dst (suc left) (s ∷ src) h k =
      follow fuel (length src) (round prop_name_max property_get dst (suc left) (s ∷ src))
        (round-Good (length src) dst (suc left) (s ∷ src) (ground (arith, h)) (omega arith))
        (λ dst' left' src' h' k'. expand_loop-Ends fuel dst' left' src' h' (omega (arith, k, k')))

Ends-cases :
    (prop_name_max : ℕ) (property_get : Bytes → Option Bytes) (m : ℕ) (o : Outcome)
    → Ends prop_name_max property_get m o
    → (o ≡ failed) ⊎ ((dst : Bytes) × (o ≡ expanded dst) × (length dst ≤ m + 1))
Ends-cases prop_name_max property_get m (expanded dst) h = inr (dst, refl, h)
Ends-cases prop_name_max property_get m failed h = inl refl
Ends-cases prop_name_max property_get m unfinished h = absurd h

-- `expand_props` always ends: it fails, or the string that it writes has at most `dst_size` bytes,
-- so that the final 0 is at most one byte behind the array.
pub expand_props_room :
    (prop_name_max : ℕ) (property_get : Bytes → Option Bytes) (src : Bytes) (dst_size : ℕ)
    → (expand_props prop_name_max property_get src dst_size ≡ failed)
      ⊎ ((dst : Bytes) × (expand_props prop_name_max property_get src dst_size ≡ expanded dst)
          × (length dst ≤ dst_size))
unfolding expand_props
expand_props_room prop_name_max property_get src dst_size =
    if_elim
      (λ (o : Outcome).
        (o ≡ failed) ⊎ ((dst : Bytes) × (o ≡ expanded dst) × (length dst ≤ dst_size)))
      (dst_size == 0) _ _ (λ e. inl refl)
      (λ e.
        let m = dst_size - 1 in
        elim (Ends-cases prop_name_max property_get m _ (
          expand_loop-Ends prop_name_max property_get m (length src + 1) [] m src
            (inl (omega arith)) (omega arith))) [
              | inl f ↦ inl f
              | inr (dst, f, k) ↦ inr (dst, f, ground (arith, e, k))
            ])
