-- ===== src/Xteds/Delete.antt =====
-- common/xTEDS/xTEDSParser.c: the delete_* functions, as the addresses that they free, in order.
use vn_sdm.Common.{ℕ, List, [], ◌∷◌, ◌++◌, Option, none, some}
use vn_sdm.Xteds.{Str, Qualifier, Coef, CurveOption, Orientation, Curve, Drange, Location, Variable}

-- `free`, which does nothing at NULL
unfoldable pub free_str : Option Str → List ℕ
free_str none = []
free_str (some s) = s.addr ∷ []

-- `delete_qualifier`
unfoldable pub delete_qualifier : List Qualifier → List ℕ
delete_qualifier [] = []
delete_qualifier (p ∷ next) =
    delete_qualifier next
    ++ (free_str p.name ++ (free_str p.value ++ (free_str p.units ++ (p.addr ∷ []))))

-- `delete_coef`
unfoldable pub delete_coef : List Coef → List ℕ
delete_coef [] = []
delete_coef (p ∷ next) =
    delete_coef next
    ++ (free_str p.exponent ++ (free_str p.value ++ (free_str p.description ++ (p.addr ∷ []))))

-- `delete_option`
unfoldable pub delete_option : List CurveOption → List ℕ
delete_option [] = []
delete_option (p ∷ next) =
    delete_option next
    ++ (free_str p.name
        ++ (free_str p.value ++ (free_str p.description ++ (free_str p.alarm ++ (p.addr ∷ [])))))

-- `delete_orientation`
unfoldable pub delete_orientation : List Orientation → List ℕ
delete_orientation [] = []
delete_orientation (p ∷ next) =
    delete_orientation next
    ++ (free_str p.axis_value
        ++ (free_str p.angle_value ++ (free_str p.units_value ++ (p.addr ∷ []))))

-- `delete_curve`
unfoldable pub delete_curve : Option Curve → List ℕ
delete_curve none = []
delete_curve (some p) =
    delete_coef p.coefs ++ (free_str p.name ++ (free_str p.description ++ (p.addr ∷ [])))

-- `delete_drange`
unfoldable pub delete_drange : Option Drange → List ℕ
delete_drange none = []
delete_drange (some p) =
    delete_option p.options ++ (free_str p.name ++ (free_str p.description ++ (p.addr ∷ [])))

-- `delete_location`
unfoldable pub delete_location : Option Location → List ℕ
delete_location none = []
delete_location (some p) =
    free_str p.x_value
    ++ (free_str p.y_value ++ (free_str p.z_value ++ (free_str p.units ++ (p.addr ∷ []))))

-- `delete_variable`
unfoldable pub delete_variable : List Variable → List ℕ
delete_variable [] = []
delete_variable (p ∷ next) =
    delete_variable next
    ++ (delete_qualifier p.qualifiers
        ++ (delete_curve p.curves
            ++ (delete_drange p.dranges
                ++ (delete_location p.location_data
                    ++ (delete_orientation p.orientation_data
                        ++ (free_str p.length
                            ++ (free_str p.kind
                                ++ (free_str p.name
                                    ++ (free_str p.qualifier
                                        ++ (free_str p.id
                                            ++ (free_str p.range_min
                                                ++ (free_str p.range_max
                                                    ++ (free_str p.default_value
                                                        ++ (free_str p.precision
                                                            ++ (free_str p.units
                                                            ++ (free_str p.accuracy
                                                            ++ (free_str p.scale_factor
                                                            ++ (free_str p.scale_units
                                                            ++ (free_str p.format
                                                            ++ (free_str p.description
                                                            ++ (free_str p.interface_name
                                                            ++ (free_str p.interface_id
                                                            ++ (free_str p.r_low
                                                            ++ (free_str p.r_high
                                                            ++ (free_str p.y_low
                                                            ++ (free_str p.y_high
                                                            ++ (free_str p.invalid_value
                                                            ++ (p.addr
                                                            ∷ []))))))))))))))))))))))))))))
