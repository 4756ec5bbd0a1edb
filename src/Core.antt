-- ===== src/Core.antt =====
-- internal/core: the schema of a table, records, and write operations.
-- A value of Go's `interface{}` is one of `Value`; floats are their bits, times an instant in
-- seconds and nanoseconds. A `map[string]interface{}` that may be nil is an `Option Record`.
use shock_absorber.Prelude.{
  [], ◌∷◌, none, some, if◌then◌else◌, ◌==◌, ℕ, String, Bool, true, false, ℤ, List, Option, Map,
}

-- The sized kinds of Go's integers.
pub data IntKind : Type 0 where
  int int8 int16 int32 int64 uint uint8 uint16 uint32 uint64 : IntKind

mutual
  pub data Value : Type 0 where
    nil : Value
    bool : Bool → Value
    integer : IntKind → ℤ → Value
    float32 float64 : ℕ → Value
    string : String → Value
    bytes : List ℕ → Value
    time : ℤ → ℕ → Value
    object : Fields → Value
    array : Items → Value

  pub data Fields : Type 0 where
    no_fields : Fields
    field : String → Value → Fields → Fields

  pub data Items : Type 0 where
    no_items : Items
    item : Value → Items → Items

-- x == nil
abbrev pub is_nil : Value → Bool
is_nil nil = true
is_nil _ = false

abbrev pub Record : Type 0
Record = Map Value

pub record Column : Type 0 where
  pub name : String
  pub type : String
  pub nullable : Bool
  pub default : Value

-- The first column of the name, as the loops over `schema.Columns` find it.
abbrev pub find_column : List Column → String → Option Column
find_column [] wanted = none
find_column (c ∷ cs) wanted = if c.name == wanted then some c else find_column cs wanted

pub record Index : Type 0 where
  pub name : String
  pub columns : List String
  pub unique : Bool
  pub primary : Bool

pub record Schema : Type 0 where
  pub table_name : String
  pub primary_key : String
  pub columns : List Column
  pub indexes : List Index

-- The type is a string in Go: `other` is any but the three constants.
pub data OperationType : Type 0 where
  create update delete : OperationType
  other : String → OperationType

pub record WriteOperation : Type 0 where
  pub table : String
  pub operation : OperationType
  pub key : Value
  pub payload : Option Record
  pub timestamp : ℕ
  pub retry_count : ℕ
