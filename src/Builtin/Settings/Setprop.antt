-- ===== src/Builtin/Settings/Setprop.antt =====
-- What `setprop` and `getprop` agree on.
use asl.Base.{
  ℕ, suc, ◌+◌, ◌-◌, ◌<◌, ◌≡◌, refl, ap, ◌∙◌, true, false, ◌&&◌, some, [], ◌∷◌, arith, length,
  take_all,
}
use asl.Base.Text.{Bytes, str_eq, str_eq_refl}
use asl.Expand.{expanded, expand_props}
use asl.Props.{Bionic, Props, property_get}
use asl.Props.Area.{Distinct}
use asl.Props.Set.{net_change, is_net}
use asl.Props.Set.Results.{property_get-property_set, property_set_succeeds, admits}
use asl.Builtin.Exec.Plain.{HasNoDollar, expand_props-plain}
use asl.Builtin.Settings.{expansion, do_setprop}

module _ (bionic : Bionic) where
  open bionic use {prop_name_max, prop_value_max, name_max_bounds}

  expansion-plain :
      (value : Bytes) (s : Props)
      → HasNoDollar value
      → length value < prop_value_max
      → expansion bionic value s ≡ expanded value
  expansion-plain value s h fits =
      ap (expand_props prop_name_max (λ n. property_get bionic n s) value) size
      ∙ expand_props-plain prop_name_max (λ n. property_get bionic n s) left value h
      ∙ ap expanded
          (take_all (suc left) value (omega (arith, fits, name_max_bounds.0, name_max_bounds.1)))
    where
      left : ℕ
      left = prop_value_max - 2

      size : prop_value_max ≡ left + 2
      size = omega (arith, name_max_bounds.0, name_max_bounds.1)

  -- After the command `setprop` with a value that has no dollar sign, the property has that value, if
  -- the property service admits it: the sizes fit, and the name is neither a ro. property that has a
  -- value nor, with the area full, a name that has none. The property net.change is left out.
  pub property_get-do_setprop :
      (cmd name value : Bytes) (s : Props)
      → Distinct s.infos
      → HasNoDollar value
      → admits bionic name value s ≡ true
      → (is_net name && str_eq net_change name) ≡ false
      → property_get bionic name (do_setprop bionic (cmd ∷ name ∷ value ∷ []) s).0 ≡ some value
  unfolding do_setprop
  property_get-do_setprop cmd name value s d h ok side =
      rw (expansion-plain value s h fits, do_setprop)
        (property_get-property_set bionic name name value s d
            (property_set_succeeds bionic name value s ∙ ok) side
          ∙ rw (str_eq_refl name) refl)
    where
      fits : length value < prop_value_max
      fits = ground (arith, ok)
