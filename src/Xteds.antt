-- ===== src/Xteds.antt =====
-- The data types of common/xTEDS/xTEDSParser.h, of which the parser builds an xTEDS variable. A block
-- of the heap is known by its address, and `next` links make lists, the head first.
pub mod Merge
pub mod Delete
pub mod Ownership
pub mod Lost
pub mod Structures
pub mod Release
pub mod Released
pub mod Assemble
pub mod Assembled
pub mod Merged
pub mod Single
use vn_sdm.Common.{ℕ, List, [], ◌∷◌, Option, none, some}

-- The block of a `char*`.
pub record Str : Type 0 where
  pub addr : ℕ
  pub text : List ℕ

-- qualifier_type, without its link
pub record Qualifier : Type 0 where
  pub addr : ℕ
  pub name : Option Str
  pub value : Option Str
  pub units : Option Str

-- coef, without its link
pub record Coef : Type 0 where
  pub addr : ℕ
  pub exponent : Option Str
  pub value : Option Str
  pub description : Option Str

-- curveoption, without its link
pub record CurveOption : Type 0 where
  pub addr : ℕ
  pub name : Option Str
  pub value : Option Str
  pub description : Option Str
  pub alarm : Option Str

-- orientation, without its link
pub record Orientation : Type 0 where
  pub addr : ℕ
  pub axis_value : Option Str
  pub angle_value : Option Str
  pub units_value : Option Str

-- curve
pub record Curve : Type 0 where
  pub addr : ℕ
  pub name : Option Str
  pub description : Option Str
  pub coefs : List Coef

-- drange
pub record Drange : Type 0 where
  pub addr : ℕ
  pub name : Option Str
  pub description : Option Str
  pub options : List CurveOption

-- location
pub record Location : Type 0 where
  pub addr : ℕ
  pub x_value : Option Str
  pub y_value : Option Str
  pub z_value : Option Str
  pub units : Option Str

-- variable, without its link
pub record Variable : Type 0 where
  pub addr : ℕ
  pub length : Option Str
  pub kind : Option Str
  pub name : Option Str
  pub qualifier : Option Str
  pub id : Option Str
  pub range_min : Option Str
  pub range_max : Option Str
  pub default_value : Option Str
  pub precision : Option Str
  pub units : Option Str
  pub accuracy : Option Str
  pub scale_factor : Option Str
  pub scale_units : Option Str
  pub format : Option Str
  pub description : Option Str
  pub interface_name : Option Str
  pub interface_id : Option Str
  pub r_low : Option Str
  pub r_high : Option Str
  pub y_low : Option Str
  pub y_high : Option Str
  pub invalid_value : Option Str
  pub qualifiers : List Qualifier
  pub curves : Option Curve
  pub dranges : Option Drange
  pub location_data : Option Location
  pub orientation_data : List Orientation
