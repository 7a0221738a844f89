-- ===== src/Xteds/Lost.antt =====
-- The merge_* functions free or keep what they are given, but for the nodes behind the second list's
-- first.
use vn_sdm.Common.{ℕ, ◌+◌, ◌≡◌, arith, List, [], ◌∷◌, Option, none, some}
use vn_sdm.Xteds.{Str, Qualifier, Coef, CurveOption, Orientation, Curve, Drange, Location, Variable}
use vn_sdm.Xteds.Merge.{
  dropped, dropped_coefs, dropped_curve, dropped_drange, dropped_location, dropped_options,
  dropped_qualifiers, kept, kept_coefs, kept_curve, kept_drange, kept_location, kept_options,
  kept_qualifiers, link_orientations, merge_coefs, merge_curves, merge_dranges, merge_locations,
  merge_options, merge_orientations, merge_qualifiers, merge_variables,
}
use vn_sdm.Xteds.Ownership.{
  count, count-append, in_str, free_str_lem, in_variables, in_qualifiers, in_coefs, delete_coef_lem,
  in_options, delete_option_lem, in_orientations, in_curve, delete_curve_lem, in_drange,
  delete_drange_lem, in_location, delete_location_lem,
}

module _ (p : ℕ) where
  pub kept-dropped :
      (a b : Option Str) → in_str p (kept a b) + count p (dropped a b) ≡ in_str p a + in_str p b
  unfolding kept dropped
  kept-dropped none b = omega arith
  kept-dropped (some a) b = omega (arith, free_str_lem p b)

  abbrev rest_qualifiers : List Qualifier → List Qualifier → ℕ
  rest_qualifiers [] b = 0
  rest_qualifiers (a ∷ l) [] = 0
  rest_qualifiers (a ∷ l) (b ∷ bs) = in_qualifiers p bs

  pub merge_qualifiers_lem :
      (a b : List Qualifier)
      → in_qualifiers p (merge_qualifiers a b).0
          + count p (merge_qualifiers a b).1
          + rest_qualifiers a b
        ≡ in_qualifiers p a + in_qualifiers p b
  unfolding merge_qualifiers
  merge_qualifiers_lem [] b = omega arith
  merge_qualifiers_lem (a ∷ l) [] = omega arith
  merge_qualifiers_lem (a ∷ l) (b ∷ bs) = simp count-append (
      omega (
        arith,
        kept-dropped a.name b.name,
        kept-dropped a.value b.value,
        kept-dropped a.units b.units,
      ))

  abbrev rest_coefs : List Coef → List Coef → ℕ
  rest_coefs [] b = 0
  rest_coefs (a ∷ l) [] = 0
  rest_coefs (a ∷ l) (b ∷ bs) = in_coefs p bs

  pub merge_coefs_lem :
      (a b : List Coef)
      → in_coefs p (merge_coefs a b).0 + count p (merge_coefs a b).1 + rest_coefs a b
        ≡ in_coefs p a + in_coefs p b
  unfolding merge_coefs
  merge_coefs_lem [] b = omega arith
  merge_coefs_lem (a ∷ l) [] = omega arith
  merge_coefs_lem (a ∷ l) (b ∷ bs) = simp count-append (
      omega (
        arith,
        kept-dropped a.exponent b.exponent,
        kept-dropped a.value b.value,
        kept-dropped a.description b.description,
      ))

  abbrev rest_options : List CurveOption → List CurveOption → ℕ
  rest_options [] b = 0
  rest_options (a ∷ l) [] = 0
  rest_options (a ∷ l) (b ∷ bs) = in_options p bs

  pub merge_options_lem :
      (a b : List CurveOption)
      → in_options p (merge_options a b).0 + count p (merge_options a b).1 + rest_options a b
        ≡ in_options p a + in_options p b
  unfolding merge_options
  merge_options_lem [] b = omega arith
  merge_options_lem (a ∷ l) [] = omega arith
  merge_options_lem (a ∷ l) (b ∷ bs) = simp count-append (
      omega (
        arith,
        kept-dropped a.name b.name,
        kept-dropped a.value b.value,
        kept-dropped a.description b.description,
        kept-dropped a.alarm b.alarm,
      ))

  abbrev rest_orientations : List Orientation → List Orientation → ℕ
  rest_orientations [] b = 0
  rest_orientations (a ∷ l) [] = 0
  rest_orientations (a ∷ l) (b ∷ bs) = in_orientations p bs

  pub merge_orientations_lem :
      (a b : List Orientation)
      → in_orientations p (merge_orientations a b).0
          + count p (merge_orientations a b).1
          + rest_orientations a b
        ≡ in_orientations p a + in_orientations p b
  unfolding merge_orientations
  merge_orientations_lem [] b = omega arith
  merge_orientations_lem (a ∷ l) [] = omega arith
  merge_orientations_lem (a ∷ l) (b ∷ bs) = simp count-append (
      omega (
        arith,
        kept-dropped a.axis_value b.axis_value,
        kept-dropped a.angle_value b.angle_value,
        kept-dropped a.units_value b.units_value,
      ))

  kept_coefs_lem :
      (a b : List Coef)
      → in_coefs p (kept_coefs a b) + count p (dropped_coefs a b) ≡ in_coefs p a + in_coefs p b
  unfolding kept_coefs dropped_coefs
  kept_coefs_lem [] b = omega arith
  kept_coefs_lem (a ∷ l) b = omega (arith, delete_coef_lem p b)

  pub merge_curves_lem :
      (a b : Option Curve)
      → in_curve p (merge_curves a b).0 + count p (merge_curves a b).1 ≡ in_curve p a + in_curve p b
  unfolding merge_curves
  merge_curves_lem none b = omega arith
  merge_curves_lem (some a) none = omega arith
  merge_curves_lem (some a) (some b) = simp count-append (
      omega (
        arith,
        kept-dropped a.name b.name,
        kept-dropped a.description b.description,
        kept_coefs_lem a.coefs b.coefs,
      ))

  kept_options_lem :
      (a b : List CurveOption)
      → in_options p (kept_options a b) + count p (dropped_options a b)
        ≡ in_options p a + in_options p b
  unfolding kept_options dropped_options
  kept_options_lem [] b = omega arith
  kept_options_lem (a ∷ l) b = omega (arith, delete_option_lem p b)

  pub merge_dranges_lem :
      (a b : Option Drange)
      → in_drange p (merge_dranges a b).0 + count p (merge_dranges a b).1
        ≡ in_drange p a + in_drange p b
  unfolding merge_dranges
  merge_dranges_lem none b = omega arith
  merge_dranges_lem (some a) none = omega arith
  merge_dranges_lem (some a) (some b) = simp count-append (
      omega (
        arith,
        kept-dropped a.name b.name,
        kept-dropped a.description b.description,
        kept_options_lem a.options b.options,
      ))

  pub merge_locations_lem :
      (a b : Option Location)
      → in_location p (merge_locations a b).0 + count p (merge_locations a b).1
        ≡ in_location p a + in_location p b
  unfolding merge_locations
  merge_locations_lem none b = omega arith
  merge_locations_lem (some a) none = omega arith
  merge_locations_lem (some a) (some b) = simp count-append (
      omega (
        arith,
        kept-dropped a.x_value b.x_value,
        kept-dropped a.y_value b.y_value,
        kept-dropped a.z_value b.z_value,
        kept-dropped a.units b.units,
      ))

  kept_curve_lem :
      (a b : Option Curve)
      → in_curve p (kept_curve a b) + count p (dropped_curve a b) ≡ in_curve p a + in_curve p b
  unfolding kept_curve dropped_curve
  kept_curve_lem none b = omega arith
  kept_curve_lem (some a) b = omega (arith, delete_curve_lem p b)

  kept_drange_lem :
      (a b : Option Drange)
      → in_drange p (kept_drange a b) + count p (dropped_drange a b) ≡ in_drange p a + in_drange p b
  unfolding kept_drange dropped_drange
  kept_drange_lem none b = omega arith
  kept_drange_lem (some a) b = omega (arith, delete_drange_lem p b)

  kept_location_lem :
      (a b : Option Location)
      → in_location p (kept_location a b) + count p (dropped_location a b)
        ≡ in_location p a + in_location p b
  unfolding kept_location dropped_location
  kept_location_lem none b = omega arith
  kept_location_lem (some a) b = omega (arith, delete_location_lem p b)

  link_orientations_lem :
      (a b : List Orientation)
      → in_orientations p (link_orientations a b) ≡ in_orientations p a + in_orientations p b
  unfolding link_orientations
  link_orientations_lem [] b = omega arith
  link_orientations_lem (x ∷ l) b = omega (arith, link_orientations_lem l b)

  -- What is neither kept nor freed where both have qualifiers: all of the second but its first node.
  abbrev pub lost_qualifiers : List Qualifier → List Qualifier → ℕ
  lost_qualifiers [] b = 0
  lost_qualifiers (a ∷ l) [] = 0
  lost_qualifiers (a ∷ l) (b ∷ bs) =
      in_str p b.name + in_str p b.value + in_str p b.units + in_qualifiers p bs

  kept_qualifiers_lem :
      (a b : List Qualifier)
      → in_qualifiers p (kept_qualifiers a b)
          + count p (dropped_qualifiers a b)
          + lost_qualifiers a b
        ≡ in_qualifiers p a + in_qualifiers p b
  unfolding kept_qualifiers dropped_qualifiers
  kept_qualifiers_lem [] b = omega arith
  kept_qualifiers_lem (a ∷ l) [] = omega arith
  kept_qualifiers_lem (a ∷ l) (b ∷ bs) = omega arith

  abbrev pub lost_variables : List Variable → List Variable → ℕ
  lost_variables [] b = 0
  lost_variables (a ∷ l) [] = 0
  lost_variables (a ∷ l) (b ∷ bs) =
      in_str p b.interface_name
      + in_str p b.interface_id
      + lost_qualifiers a.qualifiers b.qualifiers
      + in_variables p bs

  -- Of two lists that `merge_variables` is given, it keeps or frees every block as often as they own it,
  -- but for what `lost_variables` counts: the second list behind its first node, that node's interface
  -- name and number, and, where both have qualifiers, all of the second qualifiers but the first node.
  pub merge_variables_lem :
      (a b : List Variable)
      → in_variables p (merge_variables a b).0
          + count p (merge_variables a b).1
          + lost_variables a b
        ≡ in_variables p a + in_variables p b
  unfolding merge_variables
  merge_variables_lem [] b = omega arith
  merge_variables_lem (a ∷ l) [] = omega arith
  merge_variables_lem (a ∷ l) (b ∷ bs) = simp count-append (
      omega (
        arith,
        kept-dropped a.length b.length,
        kept-dropped a.kind b.kind,
        kept-dropped a.name b.name,
        kept-dropped a.qualifier b.qualifier,
        kept-dropped a.id b.id,
        kept-dropped a.range_min b.range_min,
        kept-dropped a.range_max b.range_max,
        kept-dropped a.default_value b.default_value,
        kept-dropped a.precision b.precision,
        kept-dropped a.units b.units,
        kept-dropped a.accuracy b.accuracy,
        kept-dropped a.scale_factor b.scale_factor,
        kept-dropped a.scale_units b.scale_units,
        kept-dropped a.format b.format,
        kept-dropped a.description b.description,
        kept-dropped a.r_low b.r_low,
        kept-dropped a.r_high b.r_high,
        kept-dropped a.y_low b.y_low,
        kept-dropped a.y_high b.y_high,
        kept-dropped a.invalid_value b.invalid_value,
        kept_qualifiers_lem a.qualifiers b.qualifiers,
        kept_curve_lem a.curves b.curves,
        kept_drange_lem a.dranges b.dranges,
        kept_location_lem a.location_data b.location_data,
        link_orientations_lem a.orientation_data b.orientation_data,
      ))
