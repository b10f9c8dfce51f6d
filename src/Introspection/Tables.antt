-- ===== src/Introspection/Tables.antt =====
-- `introspect_schema` of platform_sdk/schema_introspection.py on the rows that the catalogue
-- queries return.
pub mod Columns
use ai_platform_sdk.Prelude.{
  ℕ, ◌+◌, String, ◌≡◌, ◌↔◌, Bool, true, false, not, ◌&&◌, ◌||◌, Option, none, some, List, [], ◌∷◌,
  ◌++◌, map, ltb, leb, nat_eq, ◌==◌, eq_iff, strip, arith, contains, is_empty, if◌then◌else◌,
}
use ai_platform_sdk.Introspection.{sample_enum_values}
use ai_platform_sdk.Introspection.Heuristics.{looks_like_enum_candidate}
use ai_platform_sdk.Introspection.Groups.{Equality, Groups, groups_of, group}

pub record ColumnInfo : Type 0 where
  pub name : String
  pub data_type : String
  pub nullable : Bool
  pub description : Option String
  pub enum_values : Option (List String)

pub record TableInfo : Type 0 where
  pub schema : String
  pub name : String
  pub description : Option String
  pub columns : List ColumnInfo
  pub primary_key : List String

-- The rows of `_fetch_tables`, `_fetch_columns` and `_fetch_primary_keys`.
pub record TableRow : Type 0 where
  pub schema : String
  pub table : String
  pub comment : Option String

pub record ColumnRow : Type 0 where
  pub schema : String
  pub table : String
  pub column : String
  pub data_type : String
  pub nullable : Bool
  pub comment : Option String

pub record KeyRow : Type 0 where
  pub schema : String
  pub table : String
  pub column : String

-- A schema and a table.
abbrev pub TableKey : Type 0
TableKey = String × String

unfoldable pub key_eq : TableKey → TableKey → Bool
key_eq (s, t) (s', t') = s == s' && t == t'

pub key_eq_iff : (j k : TableKey) → (key_eq j k ≡ true) ↔ (j ≡ k)
unfolding key_eq
key_eq_iff (s, t) (s', t') = ground (arith, eq_iff s s', eq_iff t t')

unfoldable pub key_equality : Equality TableKey
key_equality = record { eq = key_eq; eq_iff = key_eq_iff }

abbrev pub column_key : ColumnRow → TableKey
column_key r = (r.schema, r.table)

abbrev pub primary_key : KeyRow → TableKey
primary_key r = (r.schema, r.table)

abbrev pub last_of : Option (Option String) → Bool → Option String → Option (Option String)
last_of (some later) same comment = some later
last_of none true comment = some comment
last_of none false comment = none

-- `{(r["schema"], r["table"]): r["comment"] for r in rows}`: the last row of a key counts.
unfoldable pub comment_of : TableKey → List TableRow → Option (Option String)
unfolding key_eq
comment_of k [] = none
comment_of k (r ∷ rows) = last_of (comment_of k rows) (key_eq (r.schema, r.table) k) r.comment

-- `.get(key)` of it.
abbrev pub or_none : Option (Option String) → Option String
or_none none = none
or_none (some c) = c

-- `pk_map.get(key, [])`
abbrev pub primary_key_of : TableKey → List KeyRow → List String
primary_key_of k keys =
    map (λ r. r.column) (group key_equality k (groups_of key_equality primary_key keys))

module _ (fetch : String → Option (List String)) (sample_enums : Bool) where
  unfoldable pub column_info : TableKey → ColumnRow → ColumnInfo
  unfolding looks_like_enum_candidate sample_enum_values
  column_info (schema, table) r = record {
    name = r.column;
    data_type = r.data_type;
    nullable = r.nullable;
    description = r.comment;
    enum_values =
        if sample_enums && looks_like_enum_candidate r.column r.data_type
        then sample_enum_values fetch schema table r.column
        else none;
  }

  unfoldable pub table_info : List TableRow → List KeyRow → TableKey × List ColumnRow → TableInfo
  unfolding column_info comment_of
  table_info meta keys (k, rows) = record {
    schema = k.0;
    name = k.1;
    description = or_none (comment_of k meta);
    columns = map (column_info k) rows;
    primary_key = primary_key_of k keys;
  }

  -- The tables of `introspect_schema`.
  unfoldable pub introspect_tables : List TableRow → List ColumnRow → List KeyRow → List TableInfo
  unfolding table_info
  introspect_tables meta rows keys =
      map (table_info meta keys) (groups_of key_equality column_key rows)
