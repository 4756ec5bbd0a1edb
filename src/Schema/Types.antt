-- ===== src/Schema/Types.antt =====
-- The types of columns, as the three switches of internal/schema/mapper.go tell them apart.
-- Letters and spaces are those of ASCII, which is what names of SQL types are made of.
use Prim.Native.Char.{Char, code}
use Prim.Native.String.{String}
use shock_absorber.Prelude.{
  Bool, false, ◌||◌, List, [], ◌∷◌, num_eq, leb, ◌&&◌, if◌then◌else◌, ◌==◌,
}

-- What a type name stands for; `unknown` is any other name.
pub data DbKind : Type 0 where
  ints bigints smallints floats doubles decimals texts binaries moments flags jsons unknown : DbKind

is_space : Char → Bool
is_space c = num_eq (code c) 32 || leb 9 (code c) && leb (code c) 13

swap : String → String → Char → Char
swap (String.◌∷◌ l ls) (String.◌∷◌ u us) c = if num_eq (code l) (code c) then u else swap ls us c
swap _ _ c = c

trim_left : String → String
unfolding is_space
trim_left String.[] = String.[]
trim_left (String.◌∷◌ c s) = let rest = trim_left s in if is_space c then rest else String.◌∷◌ c s

trim_right : String → String
unfolding is_space
trim_right String.[] = String.[]
trim_right (String.◌∷◌ c s) =
    let rest = trim_right s in if is_space c && rest == "" then String.[] else String.◌∷◌ c rest

-- strings.ToUpper
upper : String → String
unfolding swap
upper String.[] = String.[]
upper (String.◌∷◌ c s) =
    String.◌∷◌ (swap "abcdefghijklmnopqrstuvwxyz" "ABCDEFGHIJKLMNOPQRSTUVWXYZ" c) (upper s)

-- What stands before the first parenthesis.
before_paren : String → String
before_paren String.[] = String.[]
before_paren (String.◌∷◌ c s) =
    let rest = before_paren s in if num_eq (code c) 40 then String.[] else String.◌∷◌ c rest

-- The cut at `strings.Index(s, "(")`, made only where the index is positive.
cut : String → String
unfolding before_paren
cut s = if before_paren s == "" then s else before_paren s

unfoldable pub base_type : String → String
unfolding cut upper trim_left trim_right
base_type db_type = cut (upper (trim_right (trim_left db_type)))

abbrev pub one_of : String → List String → Bool
one_of s [] = false
one_of s (t ∷ ts) = s == t || one_of s ts

-- The switch on the base type.
unfoldable pub kind_of_base : String → DbKind
kind_of_base s =
    if one_of s ("INT" ∷ "INTEGER" ∷ "MEDIUMINT" ∷ [])
    then ints
    else if one_of s ("BIGINT" ∷ [])
    then bigints
    else if one_of s ("SMALLINT" ∷ "TINYINT" ∷ [])
    then smallints
    else if one_of s ("FLOAT" ∷ [])
    then floats
    else if one_of s ("DOUBLE" ∷ "DOUBLE PRECISION" ∷ "REAL" ∷ [])
    then doubles
    else if one_of s ("DECIMAL" ∷ "NUMERIC" ∷ [])
    then decimals
    else if one_of s ("VARCHAR" ∷ "CHAR" ∷ "TEXT" ∷ "LONGTEXT" ∷ "MEDIUMTEXT" ∷ "TINYTEXT" ∷ [])
    then texts
    else if one_of s ("BINARY" ∷ "VARBINARY" ∷ "BLOB" ∷ "LONGBLOB" ∷ "MEDIUMBLOB" ∷ "TINYBLOB" ∷ [])
    then binaries
    else if one_of s ("DATE" ∷ "DATETIME" ∷ "TIMESTAMP" ∷ "TIME" ∷ [])
    then moments
    else if one_of s ("BOOLEAN" ∷ "BOOL" ∷ "TINYINT(1)" ∷ [])
    then flags
    else if one_of s ("JSON" ∷ "JSONB" ∷ [])
    then jsons
    else unknown

unfoldable pub kind_of : String → DbKind
unfolding base_type kind_of_base
kind_of db_type = kind_of_base (base_type db_type)

-- The Go types of `MapDBTypeToGoType`.
pub data GoType : Type 0 where
  go_int go_int64 go_int16 go_float32 go_float64 go_string go_bytes go_time go_bool go_map : GoType

abbrev pub go_type_of : DbKind → GoType
go_type_of k = elim k [
  | ints ↦ go_int
  | bigints ↦ go_int64
  | smallints ↦ go_int16
  | floats ↦ go_float32
  | doubles ↦ go_float64
  | decimals ↦ go_string
  | texts ↦ go_string
  | binaries ↦ go_bytes
  | moments ↦ go_time
  | flags ↦ go_bool
  | jsons ↦ go_map
  | unknown ↦ go_string
]

-- `MapDBTypeToGoType`
unfoldable pub map_db_type_to_go_type : String → GoType
unfolding kind_of
map_db_type_to_go_type db_type = go_type_of (kind_of db_type)
