-- ===== src/Xteds/Merge.antt =====
-- common/xTEDS/xTEDSParser.c: the link_* and merge_* functions. A merge yields the merged structure
-- and the addresses that it frees, in order.
use vn_sdm.Common.{ℕ, List, [], ◌∷◌, ◌++◌, Option, none, some}
use vn_sdm.Xteds.{Str, Qualifier, Coef, CurveOption, Orientation, Curve, Drange, Location, Variable}
use vn_sdm.Xteds.Delete.{
  delete_coef, delete_option, delete_curve, delete_drange, delete_location, free_str,
}

-- `if(a->x==NULL) a->x = b->x;`
unfoldable pub kept : Option Str → Option Str → Option Str
kept none b = b
kept (some a) b = some a

-- `else if(b->x!=NULL) free(b->x);`
unfoldable pub dropped : Option Str → Option Str → List ℕ
dropped none b = []
dropped (some a) b = free_str b

-- `link_qualifiers`: the walk to the last node, and a link behind it.
unfoldable pub link_qualifiers : List Qualifier → List Qualifier → List Qualifier
link_qualifiers [] b = b
link_qualifiers (cur ∷ rest) b = cur ∷ link_qualifiers rest b

-- `merge_qualifiers`: of the second list only the first node is merged.
unfoldable pub merge_qualifiers : List Qualifier → List Qualifier → List Qualifier × List ℕ
merge_qualifiers [] b = (b, [])
merge_qualifiers (a ∷ rest) [] = (a ∷ rest, [])
merge_qualifiers (a ∷ rest) (b ∷ bs) = (
  record a { name = kept a.name b.name; value = kept a.value b.value; units = kept a.units b.units }
      ∷ rest,
  dropped a.name b.name ++ (dropped a.value b.value ++ (dropped a.units b.units ++ (b.addr ∷ []))),
)

-- `link_coefs`: the walk to the last node, and a link behind it.
unfoldable pub link_coefs : List Coef → List Coef → List Coef
link_coefs [] b = b
link_coefs (cur ∷ rest) b = cur ∷ link_coefs rest b

-- `merge_coefs`: of the second list only the first node is merged.
unfoldable pub merge_coefs : List Coef → List Coef → List Coef × List ℕ
merge_coefs [] b = (b, [])
merge_coefs (a ∷ rest) [] = (a ∷ rest, [])
merge_coefs (a ∷ rest) (b ∷ bs) = (
  record a {
    exponent = kept a.exponent b.exponent;
    value = kept a.value b.value;
    description = kept a.description b.description;
  }
      ∷ rest,
  dropped a.exponent b.exponent
      ++ (dropped a.value b.value ++ (dropped a.description b.description ++ (b.addr ∷ []))),
)

-- `link_options`: the walk to the last node, and a link behind it.
unfoldable pub link_options : List CurveOption → List CurveOption → List CurveOption
link_options [] b = b
link_options (cur ∷ rest) b = cur ∷ link_options rest b

-- `merge_options`: of the second list only the first node is merged.
unfoldable pub merge_options : List CurveOption → List CurveOption → List CurveOption × List ℕ
merge_options [] b = (b, [])
merge_options (a ∷ rest) [] = (a ∷ rest, [])
merge_options (a ∷ rest) (b ∷ bs) = (
  record a {
    name = kept a.name b.name;
    value = kept a.value b.value;
    description = kept a.description b.description;
    alarm = kept a.alarm b.alarm;
  }
      ∷ rest,
  dropped a.name b.name
      ++ (dropped a.value b.value
          ++ (dropped a.description b.description ++ (dropped a.alarm b.alarm ++ (b.addr ∷ [])))),
)

-- `link_orientations`: the walk to the last node, and a link behind it.
unfoldable pub link_orientations : List Orientation → List Orientation → List Orientation
link_orientations [] b = b
link_orientations (cur ∷ rest) b = cur ∷ link_orientations rest b

-- `merge_orientations`: of the second list only the first node is merged.
unfoldable pub merge_orientations : List Orientation → List Orientation → List Orientation × List ℕ
merge_orientations [] b = (b, [])
merge_orientations (a ∷ rest) [] = (a ∷ rest, [])
merge_orientations (a ∷ rest) (b ∷ bs) = (
  record a {
    axis_value = kept a.axis_value b.axis_value;
    angle_value = kept a.angle_value b.angle_value;
    units_value = kept a.units_value b.units_value;
  }
      ∷ rest,
  dropped a.axis_value b.axis_value
      ++ (dropped a.angle_value b.angle_value
          ++ (dropped a.units_value b.units_value ++ (b.addr ∷ []))),
)

-- The list of a merged curve: kept, or else deleted.
unfoldable pub kept_coefs : List Coef → List Coef → List Coef
kept_coefs [] b = b
kept_coefs (a ∷ rest) b = a ∷ rest

unfoldable pub dropped_coefs : List Coef → List Coef → List ℕ
dropped_coefs [] b = []
dropped_coefs (a ∷ rest) b = delete_coef b

-- `merge_curves`
unfoldable pub merge_curves : Option Curve → Option Curve → Option Curve × List ℕ
merge_curves none b = (b, [])
merge_curves (some a) none = (some a, [])
merge_curves (some a) (some b) = (
  some (record a {
    name = kept a.name b.name;
    description = kept a.description b.description;
    coefs = kept_coefs a.coefs b.coefs;
  }),
  dropped a.name b.name
      ++ (dropped a.description b.description ++ (dropped_coefs a.coefs b.coefs ++ (b.addr ∷ []))),
)

-- The list of a merged drange: kept, or else deleted.
unfoldable pub kept_options : List CurveOption → List CurveOption → List CurveOption
kept_options [] b = b
kept_options (a ∷ rest) b = a ∷ rest

unfoldable pub dropped_options : List CurveOption → List CurveOption → List ℕ
dropped_options [] b = []
dropped_options (a ∷ rest) b = delete_option b

-- `merge_dranges`
unfoldable pub merge_dranges : Option Drange → Option Drange → Option Drange × List ℕ
merge_dranges none b = (b, [])
merge_dranges (some a) none = (some a, [])
merge_dranges (some a) (some b) = (
  some (record a {
    name = kept a.name b.name;
    description = kept a.description b.description;
    options = kept_options a.options b.options;
  }),
  dropped a.name b.name
      ++ (dropped a.description b.description
          ++ (dropped_options a.options b.options ++ (b.addr ∷ []))),
)

-- `merge_locations`
unfoldable pub merge_locations : Option Location → Option Location → Option Location × List ℕ
merge_locations none b = (b, [])
merge_locations (some a) none = (some a, [])
merge_locations (some a) (some b) = (
  some (record a {
    x_value = kept a.x_value b.x_value;
    y_value = kept a.y_value b.y_value;
    z_value = kept a.z_value b.z_value;
    units = kept a.units b.units;
  }),
  dropped a.x_value b.x_value
      ++ (dropped a.y_value b.y_value
          ++ (dropped a.z_value b.z_value ++ (dropped a.units b.units ++ (b.addr ∷ [])))),
)

-- The curve of a merged variable: kept, or else deleted.
unfoldable pub kept_curve : Option Curve → Option Curve → Option Curve
kept_curve none b = b
kept_curve (some a) b = some a

unfoldable pub dropped_curve : Option Curve → Option Curve → List ℕ
dropped_curve none b = []
dropped_curve (some a) b = delete_curve b

-- The drange of a merged variable: kept, or else deleted.
unfoldable pub kept_drange : Option Drange → Option Drange → Option Drange
kept_drange none b = b
kept_drange (some a) b = some a

unfoldable pub dropped_drange : Option Drange → Option Drange → List ℕ
dropped_drange none b = []
dropped_drange (some a) b = delete_drange b

-- The location of a merged variable: kept, or else deleted.
unfoldable pub kept_location : Option Location → Option Location → Option Location
kept_location none b = b
kept_location (some a) b = some a

unfoldable pub dropped_location : Option Location → Option Location → List ℕ
dropped_location none b = []
dropped_location (some a) b = delete_location b

-- The qualifiers of a merged variable: kept, or else `free(b->qualifiers)`, of the first node only.
unfoldable pub kept_qualifiers : List Qualifier → List Qualifier → List Qualifier
kept_qualifiers [] b = b
kept_qualifiers (a ∷ rest) b = a ∷ rest

unfoldable pub dropped_qualifiers : List Qualifier → List Qualifier → List ℕ
dropped_qualifiers [] b = []
dropped_qualifiers (a ∷ rest) [] = []
dropped_qualifiers (a ∷ rest) (b ∷ bs) = b.addr ∷ []

-- `merge_variables`: of the second list only the first variable is merged, and of that neither the
-- interface's name nor its number.
unfoldable pub merge_variables : List Variable → List Variable → List Variable × List ℕ
merge_variables [] b = (b, [])
merge_variables (a ∷ rest) [] = (a ∷ rest, [])
merge_variables (a ∷ rest) (b ∷ bs) = (
  record a {
    length = kept a.length b.length;
    kind = kept a.kind b.kind;
    name = kept a.name b.name;
    qualifier = kept a.qualifier b.qualifier;
    id = kept a.id b.id;
    range_min = kept a.range_min b.range_min;
    range_max = kept a.range_max b.range_max;
    default_value = kept a.default_value b.default_value;
    precision = kept a.precision b.precision;
    units = kept a.units b.units;
    accuracy = kept a.accuracy b.accuracy;
    scale_factor = kept a.scale_factor b.scale_factor;
    scale_units = kept a.scale_units b.scale_units;
    format = kept a.format b.format;
    description = kept a.description b.description;
    qualifiers = kept_qualifiers a.qualifiers b.qualifiers;
    curves = kept_curve a.curves b.curves;
    dranges = kept_drange a.dranges b.dranges;
    location_data = kept_location a.location_data b.location_data;
    r_low = kept a.r_low b.r_low;
    r_high = kept a.r_high b.r_high;
    y_low = kept a.y_low b.y_low;
    y_high = kept a.y_high b.y_high;
    invalid_value = kept a.invalid_value b.invalid_value;
    orientation_data = link_orientations a.orientation_data b.orientation_data;
  }
      ∷ rest,
  dropped a.length b.length
      ++ (dropped a.kind b.kind
          ++ (dropped a.name b.name
              ++ (dropped a.qualifier b.qualifier
                  ++ (dropped a.id b.id
                      ++ (dropped a.range_min b.range_min
                          ++ (dropped a.range_max b.range_max
                              ++ (dropped a.default_value b.default_value
                                  ++ (dropped a.precision b.precision
                                      ++ (dropped a.units b.units
                                          ++ (dropped a.accuracy b.accuracy
                                              ++ (dropped a.scale_factor b.scale_factor
                                                  ++ (dropped a.scale_units b.scale_units
                                                      ++ (dropped a.format b.format
                                                          ++ (dropped a.description b.description
                                                            ++ (dropped_qualifiers a.qualifiers
                                                            b.qualifiers
                                                            ++ (dropped_curve a.curves b.curves
                                                            ++ (dropped_drange a.dranges b.dranges
                                                            ++ (dropped_location a.location_data
                                                            b.location_data
                                                            ++ (dropped a.r_low b.r_low
                                                            ++ (dropped a.r_high b.r_high
                                                            ++ (dropped a.y_low b.y_low
                                                            ++ (dropped a.y_high b.y_high
                                                            ++ (dropped a.invalid_value
                                                            b.invalid_value
                                                            ++ (b.addr ∷ [])))))))))))))))))))))))),
)
