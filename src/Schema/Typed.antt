-- ===== src/Schema/Typed.antt =====
-- The Go types that `ConvertToDBValue` of internal/schema/mapper.go gives to the columns.
use shock_absorber.Prelude.{String, ◌≡◌, sym, ok, ok_injective, ◌⊎◌, inl, inr}
use shock_absorber.Core.{
  Value, nil, bool, integer, float32, float64, string, bytes, time, object, array,
}
use shock_absorber.Schema.Types.{kind_of, go_type_of, map_db_type_to_go_type}
use shock_absorber.Schema.Mapper.{to_string, convert_known, convert_to_db_value}
use shock_absorber.Schema.Conversions.{Go}
use shock_absorber.Schema.Typing.{HasType, stored_as, Gives-eq_ok, convert_known-Gives}

module _ (go : Go) where
  convert_known-HasType :
      (v w : Value) (db_type : String)
      → convert_known go (kind_of db_type) v (to_string go v) ≡ ok w
      → (w ≡ nil) ⊎ HasType w (stored_as (map_db_type_to_go_type db_type))
  unfolding map_db_type_to_go_type
  convert_known-HasType v w db_type h = inr (
      Gives-eq_ok (stored_as (go_type_of (kind_of db_type))) _ w
        (convert_known-Gives go (kind_of db_type) v) h)

  -- What `ConvertToDBValue` returns for a column is nil, or of the Go type that
  -- `MapDBTypeToGoType` names for the column's type, where a JSON column, which that function calls
  -- a map, holds a string.
  pub convert_to_db_value-HasType :
      (v w : Value) (db_type : String)
      → convert_to_db_value go v db_type ≡ ok w
      → (w ≡ nil) ⊎ HasType w (stored_as (map_db_type_to_go_type db_type))
  unfolding convert_to_db_value
  convert_to_db_value-HasType nil w db_type h = inl (sym (ok_injective nil w h))
  convert_to_db_value-HasType (bool b) w db_type h = convert_known-HasType (bool b) w db_type h
  convert_to_db_value-HasType (integer k z) w db_type h =
      convert_known-HasType (integer k z) w db_type h
  convert_to_db_value-HasType (float32 b) w db_type h =
      convert_known-HasType (float32 b) w db_type h
  convert_to_db_value-HasType (float64 b) w db_type h =
      convert_known-HasType (float64 b) w db_type h
  convert_to_db_value-HasType (string s) w db_type h = convert_known-HasType (string s) w db_type h
  convert_to_db_value-HasType (bytes bs) w db_type h = convert_known-HasType (bytes bs) w db_type h
  convert_to_db_value-HasType (time z n) w db_type h = convert_known-HasType (time z n) w db_type h
  convert_to_db_value-HasType (object fs) w db_type h =
      convert_known-HasType (object fs) w db_type h
  convert_to_db_value-HasType (array is) w db_type h = convert_known-HasType (array is) w db_type h
