-- ===== src/Tests/SchemaRuns.antt =====
-- platform_sdk/schema_introspection.py at concrete inputs.
use mathlib.Core.List.{Perm}
use ai_platform_sdk.Prelude.{
  ◌<>◌, String, ◌≡◌, refl, true, false, Option, none, some, List, [], ◌∷◌, All, map, keep, strip,
  lstrip, rstrip, has_dot,
}
use ai_platform_sdk.Introspection.{qident}
use ai_platform_sdk.Prelude.Sorting.{codes}
use ai_platform_sdk.Introspection.Quoting.{starts_with_quote, read_ident, read_ident-qident}
use ai_platform_sdk.Introspection.Tables.{
  TableInfo, TableRow, ColumnRow, KeyRow, key_eq, column_key, introspect_tables,
}
use ai_platform_sdk.Introspection.Tables.Columns.{named, table_of, introspect_tables-named}
use ai_platform_sdk.Introspection.Relationships.{lstrip_quotes, rstrip_quotes, split_qualified}
use ai_platform_sdk.Introspection.Relationships.Names.{Plain, written, split_qualified-written}
use ai_platform_sdk.Introspection.Prompt.{by_schema}
use ai_platform_sdk.Prelude.Sorting.Laws.{Ordered}
use ai_platform_sdk.Introspection.Prompt.Order.{InOrder, shown, by_schema-perm}

quote_free : starts_with_quote " AS v" ≡ false
quote_free = refl

read_ident-qident_example :
    read_ident (qident "a\"; DROP b" <> " AS v") ≡ some ("a\"; DROP b", " AS v")
read_ident-qident_example = read_ident-qident "a\"; DROP b" " AS v" quote_free

abbrev column : String → String → String → ColumnRow
column table name type = record {
  schema = "bankdw";
  table = table;
  column = name;
  data_type = type;
  nullable = false;
  comment = none;
}

abbrev columns : List ColumnRow
columns =
    column "fact" "status" "text" ∷ column "dim" "label" "text" ∷ column "fact" "pid" "int" ∷ []

abbrev comments : List TableRow
comments = record { schema = "bankdw"; table = "fact"; comment = some "payments" } ∷ []

abbrev keys : List KeyRow
keys = record { schema = "bankdw"; table = "fact"; column = "pid" } ∷ []

abbrev values : String → Option (List String)
values sql = some ("open" ∷ "closed" ∷ [])

introspect_tables-named_example :
    named ("bankdw", "fact") (introspect_tables values true comments columns keys)
    ≡ table_of values true comments keys
        ("bankdw", "fact")
        (keep (λ r. key_eq (column_key r) ("bankdw", "fact")) columns)
introspect_tables-named_example =
    introspect_tables-named values true comments keys ("bankdw", "fact") columns

bankdw-Plain : Plain "bankdw"
unfolding has_dot strip lstrip rstrip lstrip_quotes rstrip_quotes
bankdw-Plain = (refl, refl, refl, refl)

fact-Plain : Plain "fact"
unfolding has_dot strip lstrip rstrip lstrip_quotes rstrip_quotes
fact-Plain = (refl, refl, refl, refl)

pid-Plain : Plain "p id"
unfolding has_dot strip lstrip rstrip lstrip_quotes rstrip_quotes
pid-Plain = (refl, refl, refl, refl)

split_qualified-written_example :
    split_qualified
      (written false "bankdw" <> "." <> written false "fact" <> "." <> written true "p id")
    ≡ some ("bankdw", "fact", "p id")
split_qualified-written_example =
    split_qualified-written false false true "bankdw" "fact" "p id" bankdw-Plain fact-Plain
      pid-Plain

abbrev table : String → String → TableInfo
table schema name = record {
  schema = schema;
  name = name;
  description = none;
  columns = [];
  primary_key = [];
}

abbrev tables : List TableInfo
tables = table "sales" "b" ∷ table "bankdw" "c" ∷ table "sales" "a" ∷ []

by_schema-perm_example :
    Perm (shown (by_schema tables)) (map (λ t. (t.schema, t)) tables)
    × Ordered (λ g. codes g.0) (by_schema tables)
    × All InOrder (by_schema tables)
by_schema-perm_example = by_schema-perm tables
