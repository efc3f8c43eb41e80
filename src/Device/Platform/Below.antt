-- ===== src/Device/Platform/Below.antt =====
-- When a device is below another, by their names.
use asl.Base.{
  ◌<◌, ◌≤◌, ◌≡◌, refl, sym, ap, ◌∙◌, true, false, [], ◌∷◌, ◌++◌, arith, Bool-cases, inl, inr, subst,
  ltb, length, length-append, ltb→lt,
}
use asl.Base.Text.{Bytes, starts_with→append, starts_with-append}
use asl.Device.Platform.{is_subdevice, byte_at}

-- The form of the name of a subdevice.
abbrev pub IsBelow : Bytes → Bytes → Type 0
IsBelow name bus = (r : Bytes) × (name ≡ bus ++ b'/' ∷ r)

pub byte_at-append : (bus r : Bytes) → byte_at (bus ++ r) (length bus) ≡ byte_at r 0
byte_at-append [] r = refl
byte_at-append (x ∷ bus) r = byte_at-append bus r

pub is_subdevice→IsBelow : (name bus : Bytes) → is_subdevice name bus ≡ true → IsBelow name bus
unfolding is_subdevice
is_subdevice→IsBelow name bus h =
    let s = starts_with→append bus name (ground (arith, h)) in go s.0 s.1
  where
    slash : (b : Bytes) → name ≡ bus ++ b → byte_at b 0 ≡ b'/'
    slash b e =
        sym (byte_at-append bus b) ∙ ap (λ n. byte_at n (length bus)) (sym e) ∙ ground (arith, h)

    go : (r : Bytes) → name ≡ bus ++ r → IsBelow name bus
    go [] e = absurd (ground (arith, slash [] e))
    go (c ∷ r) e = (r, e ∙ ap (λ d. bus ++ d ∷ r) (slash (c ∷ r) e))

pub IsBelow→is_subdevice : (name bus : Bytes) → IsBelow name bus → is_subdevice name bus ≡ true
unfolding is_subdevice
IsBelow→is_subdevice name bus (r, e) =
    subst (λ n. is_subdevice n bus ≡ true) (sym e)
      (ground (
        arith,
        length-append bus (b'/' ∷ r),
        byte_at-append bus (b'/' ∷ r),
        starts_with-append bus (b'/' ∷ r),
      ))

-- Of two devices with a subdevice in common, the one with the shorter name has the other below it.
pub shorter_is_outer :
    (bus other r s : Bytes)
    → other ++ b'/' ∷ r ≡ bus ++ b'/' ∷ s
    → length other < length bus
    → IsBelow bus other
shorter_is_outer [] other r s e h = absurd (ground arith)
shorter_is_outer (x ∷ bus) [] r s e h = (bus, cc e)
shorter_is_outer (x ∷ bus) (y ∷ other) r s e h =
    let (t, f) = shorter_is_outer bus other r s (cc e) (omega (arith, h)) in (t, cc (e, f))

pub not_longer :
    (name bus other : Bytes)
    → is_subdevice name bus ≡ true
    → is_subdevice name other ≡ true
    → is_subdevice bus other ≡ false
    → length bus ≤ length other
not_longer name bus other h k ne =
    let (s, e) = is_subdevice→IsBelow name bus h in
    let (r, f) = is_subdevice→IsBelow name other k in
    elim (Bool-cases (ltb (length other) (length bus))) [
      | inl l ↦ absurd (
          ground (
            arith,
            ne,
            IsBelow→is_subdevice bus other
                (shorter_is_outer bus other r s (sym f ∙ e) (ltb→lt (length other) (length bus) l)),
          ))
      | inr l ↦ ground (arith, l)
    ]
