-- ===== src/Expand/Overflow.antt =====
-- The case in which `expand_props` writes behind its array.
use asl.Base.{
  ℕ, suc, ◌+◌, ◌-◌, ◌≡◌, refl, ap, ◌∙◌, Option, some, [], ◌∷◌, ◌++◌, arith, ◌==◌, if_elim, length,
  All, false,
}
use asl.Base.Text.{Bytes, split_at}
use asl.Expand.{
  Outcome, expanded, push_chars, go_on, behind_dollar, push_front, round, expand_loop, expand_props,
}

split_at-front :
    (a b : Bytes) → All (λ x. (x == b'$') ≡ false) a → split_at b'$' (a ++ b'$' ∷ b) ≡ some (a, b)
unfolding split_at
split_at-front [] b h = refl
split_at-front (x ∷ a) b h = ground (arith, h.0, split_at-front a b h.1)

-- The bytes without a dollar sign fill the room, and `$$` goes behind it.
push_front-full :
    (prop_name_max : ℕ) (property_get : Bytes → Option Bytes) (left : ℕ) (w : Bytes)
    → left ≡ length w
    → push_front prop_name_max property_get (push_chars [] left w) (b'$' ∷ [])
      ≡ go_on (w ++ b'$' ∷ []) (left - length w - 1) []
unfolding push_front behind_dollar
push_front-full prop_name_max property_get left w e = ground (arith, e)

round-full :
    (prop_name_max : ℕ) (property_get : Bytes → Option Bytes) (left : ℕ) (w : Bytes)
    → left ≡ length w
    → All (λ b. (b == b'$') ≡ false) w
    → round prop_name_max property_get [] left (w ++ b'$' ∷ b'$' ∷ [])
      ≡ go_on (w ++ b'$' ∷ []) (left - length w - 1) []
unfolding round
round-full prop_name_max property_get left w e h =
    rw (split_at-front w (b'$' ∷ []) h, round) (push_front-full prop_name_max property_get left w e)

last_rounds :
    (prop_name_max : ℕ) (property_get : Bytes → Option Bytes) (fuel c : ℕ) (front : Bytes)
    → All (λ b. (b == b'$') ≡ false) (c ∷ front)
    → expand_loop prop_name_max property_get
        (suc (suc fuel))
        []
        (suc (length front))
        ((c ∷ front) ++ b'$' ∷ b'$' ∷ [])
      ≡ expanded ((c ∷ front) ++ b'$' ∷ [])
unfolding expand_loop
last_rounds prop_name_max property_get fuel c front h =
    rw (round-full prop_name_max property_get (suc (length front)) (c ∷ front) refl h, expand_loop)
      refl

-- A text of one byte or more, and of one byte less than the array, without a dollar sign, and `$$`
-- behind it: the string fills the array, and the final 0 is written behind it.
pub expand_props_overflow :
    (prop_name_max : ℕ) (property_get : Bytes → Option Bytes) (c : ℕ) (front : Bytes)
    → All (λ b. (b == b'$') ≡ false) (c ∷ front)
    → expand_props prop_name_max property_get ((c ∷ front) ++ b'$' ∷ b'$' ∷ []) (length front + 2)
      ≡ expanded ((c ∷ front) ++ b'$' ∷ [])
unfolding expand_props
expand_props_overflow prop_name_max property_get c front h =
    if_elim (λ (o : Outcome). o ≡ expanded ((c ∷ front) ++ b'$' ∷ [])) (length front + 2 == 0) _ _
      (λ e. absurd (ground (arith, e)))
      (λ e.
        ap (λ fuel. expand_loop prop_name_max property_get fuel [] (length front + 2 - 1) src) more
        ∙ (ap (λ left. expand_loop prop_name_max property_get (suc (suc (length rest))) [] left src)
              room
            ∙ last_rounds prop_name_max property_get (length rest) c front h))
  where
    rest : Bytes
    rest = front ++ b'$' ∷ b'$' ∷ []

    src : Bytes
    src = c ∷ rest

    more : length src + 1 ≡ suc (suc (length rest))
    more = omega arith

    room : length front + 2 - 1 ≡ suc (length front)
    room = omega arith
