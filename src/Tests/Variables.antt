-- ===== src/Tests/Variables.antt =====
-- Runs of common/xTEDS/xTEDSParser.c.
use vn_sdm.Common.{ℕ, ◌+◌, ◌≡◌, refl, List, [], ◌∷◌, none, some}
use vn_sdm.Xteds.{Str, Qualifier, Variable}
use vn_sdm.Xteds.Delete.{free_str}
use vn_sdm.Xteds.Merge.{
  merge_variables, dropped, dropped_qualifiers, dropped_curve, dropped_drange, dropped_location,
}
use vn_sdm.Xteds.Ownership.{count, in_variables}
use vn_sdm.Xteds.Lost.{lost_variables, merge_variables_lem}

abbrev block : ℕ → Str
block a = record { addr = a; text = b'x' ∷ [] }

-- Two qualifiers, each with a name.
abbrev some_qualifiers : ℕ → List Qualifier
some_qualifiers a =
    record { addr = a; name = some (block (a + 1)); value = none; units = none }
    ∷ record { addr = a + 2; name = some (block (a + 3)); value = none; units = none }
    ∷ []

abbrev named : Variable
named = record {
  addr = 1;
  length = none;
  kind = none;
  name = some (block 2);
  qualifier = none;
  id = none;
  range_min = none;
  range_max = none;
  default_value = none;
  precision = none;
  units = none;
  accuracy = none;
  scale_factor = none;
  scale_units = none;
  format = none;
  description = none;
  interface_name = none;
  interface_id = none;
  r_low = none;
  r_high = none;
  y_low = none;
  y_high = none;
  invalid_value = none;
  qualifiers = some_qualifiers 10;
  curves = none;
  dranges = none;
  location_data = none;
  orientation_data = [];
}

abbrev of_kind : Variable
of_kind = record {
  addr = 3;
  length = none;
  kind = some (block 5);
  name = some (block 4);
  qualifier = none;
  id = none;
  range_min = none;
  range_max = none;
  default_value = none;
  precision = none;
  units = none;
  accuracy = none;
  scale_factor = none;
  scale_units = none;
  format = none;
  description = none;
  interface_name = none;
  interface_id = some (block 6);
  r_low = none;
  r_high = none;
  y_low = none;
  y_high = none;
  invalid_value = none;
  qualifiers = some_qualifiers 20;
  curves = none;
  dranges = none;
  location_data = none;
  orientation_data = [];
}

-- The name of the merged variable's second qualifier.
merge_variables_lem_example :
    in_variables 23 (merge_variables (named ∷ []) (of_kind ∷ [])).0
      + count 23 (merge_variables (named ∷ []) (of_kind ∷ [])).1
      + lost_variables 23 (named ∷ []) (of_kind ∷ [])
    ≡ in_variables 23 (named ∷ []) + in_variables 23 (of_kind ∷ [])
merge_variables_lem_example = merge_variables_lem 23 (named ∷ []) (of_kind ∷ [])

-- The second name, the second variable's first qualifier and its node are freed, and nothing else.
merge_freed : (merge_variables (named ∷ []) (of_kind ∷ [])).1 ≡ 4 ∷ 20 ∷ 3 ∷ []
unfolding merge_variables dropped dropped_qualifiers dropped_curve dropped_drange dropped_location
    free_str
merge_freed = refl
