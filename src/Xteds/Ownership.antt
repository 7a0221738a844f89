-- ===== src/Xteds/Ownership.antt =====
-- What each structure owns, and that the delete_* functions free it, once.
use vn_sdm.Common.{
  ℕ, ◌+◌, ◌≡◌, refl, arith, ◌==◌, if◌then◌else◌, List, [], ◌∷◌, ◌++◌, Option, none, some,
}
use vn_sdm.Xteds.{Str, Qualifier, Coef, CurveOption, Orientation, Curve, Drange, Location, Variable}
use vn_sdm.Xteds.Delete.{
  free_str, delete_qualifier, delete_coef, delete_option, delete_orientation, delete_curve,
  delete_drange, delete_location, delete_variable,
}

-- How often an address stands in a list of freed blocks.
abbrev pub count : ℕ → List ℕ → ℕ
count p [] = 0
count p (q ∷ l) = (if q == p then 1 else 0) + count p l

pub count-append : (p : ℕ) (k l : List ℕ) → count p (k ++ l) ≡ count p k + count p l
count-append p [] l = omega arith
count-append p (q ∷ k) l = omega (arith, count-append p k l)

-- How often a block stands among the blocks that a value owns.
module _ (p : ℕ) where
  abbrev pub at : ℕ → ℕ
  at q = if q == p then 1 else 0

  abbrev pub in_str : Option Str → ℕ
  in_str none = 0
  in_str (some s) = at s.addr

  abbrev pub in_qualifiers : List Qualifier → ℕ
  in_qualifiers [] = 0
  in_qualifiers (x ∷ l) =
      at x.addr + (in_str x.name + in_str x.value + in_str x.units) + in_qualifiers l

  abbrev pub in_coefs : List Coef → ℕ
  in_coefs [] = 0
  in_coefs (x ∷ l) =
      at x.addr + (in_str x.exponent + in_str x.value + in_str x.description) + in_coefs l

  abbrev pub in_options : List CurveOption → ℕ
  in_options [] = 0
  in_options (x ∷ l) =
      at x.addr
      + (in_str x.name + in_str x.value + in_str x.description + in_str x.alarm)
      + in_options l

  abbrev pub in_orientations : List Orientation → ℕ
  in_orientations [] = 0
  in_orientations (x ∷ l) =
      at x.addr
      + (in_str x.axis_value + in_str x.angle_value + in_str x.units_value)
      + in_orientations l

  abbrev pub in_curve : Option Curve → ℕ
  in_curve none = 0
  in_curve (some x) = at x.addr + (in_str x.name + in_str x.description + in_coefs x.coefs)

  abbrev pub in_drange : Option Drange → ℕ
  in_drange none = 0
  in_drange (some x) = at x.addr + (in_str x.name + in_str x.description + in_options x.options)

  abbrev pub in_location : Option Location → ℕ
  in_location none = 0
  in_location (some x) =
      at x.addr + (in_str x.x_value + in_str x.y_value + in_str x.z_value + in_str x.units)

  abbrev pub in_variables : List Variable → ℕ
  in_variables [] = 0
  in_variables (x ∷ l) =
      at x.addr
      + (in_str x.length
          + in_str x.kind
          + in_str x.name
          + in_str x.qualifier
          + in_str x.id
          + in_str x.range_min
          + in_str x.range_max
          + in_str x.default_value
          + in_str x.precision
          + in_str x.units
          + in_str x.accuracy
          + in_str x.scale_factor
          + in_str x.scale_units
          + in_str x.format
          + in_str x.description
          + in_str x.interface_name
          + in_str x.interface_id
          + in_str x.r_low
          + in_str x.r_high
          + in_str x.y_low
          + in_str x.y_high
          + in_str x.invalid_value
          + in_qualifiers x.qualifiers
          + in_curve x.curves
          + in_drange x.dranges
          + in_location x.location_data
          + in_orientations x.orientation_data)
      + in_variables l

  pub free_str_lem : (s : Option Str) → count p (free_str s) ≡ in_str s
  unfolding free_str
  free_str_lem none = refl
  free_str_lem (some s) = omega arith

  pub delete_qualifier_lem : (l : List Qualifier) → count p (delete_qualifier l) ≡ in_qualifiers l
  unfolding delete_qualifier
  delete_qualifier_lem [] = refl
  delete_qualifier_lem (x ∷ l) =
      simp count-append (omega (arith, delete_qualifier_lem l, free_str_lem))

  pub delete_coef_lem : (l : List Coef) → count p (delete_coef l) ≡ in_coefs l
  unfolding delete_coef
  delete_coef_lem [] = refl
  delete_coef_lem (x ∷ l) = simp count-append (omega (arith, delete_coef_lem l, free_str_lem))

  pub delete_option_lem : (l : List CurveOption) → count p (delete_option l) ≡ in_options l
  unfolding delete_option
  delete_option_lem [] = refl
  delete_option_lem (x ∷ l) = simp count-append (omega (arith, delete_option_lem l, free_str_lem))

  pub delete_orientation_lem :
      (l : List Orientation) → count p (delete_orientation l) ≡ in_orientations l
  unfolding delete_orientation
  delete_orientation_lem [] = refl
  delete_orientation_lem (x ∷ l) =
      simp count-append (omega (arith, delete_orientation_lem l, free_str_lem))

  pub delete_curve_lem : (o : Option Curve) → count p (delete_curve o) ≡ in_curve o
  unfolding delete_curve
  delete_curve_lem none = refl
  delete_curve_lem (some x) = simp count-append (omega (arith, free_str_lem, delete_coef_lem))

  pub delete_drange_lem : (o : Option Drange) → count p (delete_drange o) ≡ in_drange o
  unfolding delete_drange
  delete_drange_lem none = refl
  delete_drange_lem (some x) = simp count-append (omega (arith, free_str_lem, delete_option_lem))

  pub delete_location_lem : (o : Option Location) → count p (delete_location o) ≡ in_location o
  unfolding delete_location
  delete_location_lem none = refl
  delete_location_lem (some x) = simp count-append (omega (arith, free_str_lem))

  -- `delete_variable` frees every block that the list of variables owns, as often as it owns it, and
  -- no other: nothing is lost, and nothing freed twice that is owned once.
  pub delete_variable_lem : (l : List Variable) → count p (delete_variable l) ≡ in_variables l
  unfolding delete_variable
  delete_variable_lem [] = refl
  delete_variable_lem (x ∷ l) = simp count-append (
      omega (
        arith,
        delete_variable_lem l,
        free_str_lem,
        delete_qualifier_lem,
        delete_curve_lem,
        delete_drange_lem,
        delete_location_lem,
        delete_orientation_lem,
      ))
