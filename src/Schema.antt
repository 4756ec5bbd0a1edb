-- ===== src/Schema.antt =====
-- internal/schema: the types of columns, the conversions of values, the tests on records, and the
-- translator between records, texts of the KV store and SQL statements.
-- `Go` holds what the code takes from strconv, encoding/json and time, and Go's conversions of
-- floats; `int` has 64 bits. Keys and statements use the `%v` of a value.
pub mod Types
pub mod Conversions
pub mod Mapper
pub mod Validator
pub mod Translator
pub mod Ranges
pub mod Statements
pub mod RoundTrip
pub mod Typing
pub mod Typed
