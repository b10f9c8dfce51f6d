-- ===== src/Introspection.antt =====
-- The quoting of identifiers and the probe for values in platform_sdk/schema_introspection.py. The
-- database is an argument that answers a statement, or raises.
pub mod Groups
pub mod Heuristics
pub mod Context
pub mod Prompt
pub mod Relationships
pub mod Tables
pub mod Quoting
use Prim.Native.Char.{Char, code}
use ai_platform_sdk.Prelude.{
  ℕ, String, ◌<>◌, Bool, true, false, Option, none, some, List, [], ◌∷◌, ltb, nat_eq, length,
  if◌then◌else◌,
}

abbrev pub is_quote : Char → Bool
is_quote c = nat_eq (code c) b'"'

-- `s.replace('"', '""')`
unfoldable pub double_quotes : String → String
double_quotes String.[] = String.[]
double_quotes (String.◌∷◌ c s) =
    let rest = double_quotes s in
    if is_quote c then String.◌∷◌ c (String.◌∷◌ c rest) else String.◌∷◌ c rest

-- `_qident`
unfoldable pub qident : String → String
unfolding double_quotes
qident s = String.◌∷◌ "\"" (double_quotes s <> "\"")

abbrev pub enum_cardinality_threshold : ℕ
enum_cardinality_threshold = 25

-- The statement of `_sample_enum_values`.
unfoldable pub probe : String → String → String → String
unfolding qident
probe schema table column =
    "SELECT "
    <> qident column
    <> " AS v FROM "
    <> qident schema
    <> "."
    <> qident table
    <> " WHERE "
    <> qident column
    <> " IS NOT NULL GROUP BY "
    <> qident column
    <> " ORDER BY "
    <> qident column
    <> " LIMIT 26"

abbrev pub few : Option (List String) → Option (List String)
few none = none
few (some rows) = if ltb enum_cardinality_threshold (length rows) then none else some rows

-- `_sample_enum_values`
unfoldable pub sample_enum_values :
    (String → Option (List String)) → String → String → String → Option (List String)
unfolding probe
sample_enum_values fetch schema table column = few (fetch (probe schema table column))
