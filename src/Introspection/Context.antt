-- ===== src/Introspection/Context.antt =====
-- `introspect_schema` of platform_sdk/schema_introspection.py: the tables from the catalogue with
-- what the relationships file adds.
use ai_platform_sdk.Prelude.{String, Bool, Option, some, List}
use ai_platform_sdk.Introspection.Relationships.{
  TextJoin, GlossaryTerm, EntityPerspective, File, ◌>>=◌, load_relationships_yaml,
}
use ai_platform_sdk.Introspection.Tables.{TableInfo, TableRow, ColumnRow, KeyRow, introspect_tables}

pub record ForeignKey : Type 0 where
  pub from_schema : String
  pub from_table : String
  pub from_column : String
  pub to_schema : String
  pub to_table : String
  pub to_column : String

pub record SchemaContext : Type 0 where
  pub tables : List TableInfo
  pub foreign_keys : List ForeignKey
  pub text_joins : List TextJoin
  pub perspectives : List EntityPerspective
  pub glossary : List GlossaryTerm

-- The rows that the four queries return.
pub record Catalogue : Type 0 where
  pub table_rows : List TableRow
  pub column_rows : List ColumnRow
  pub key_rows : List KeyRow
  pub foreign_keys : List ForeignKey

-- `introspect_schema`: `none` if the relationships file makes it raise.
unfoldable pub introspect_schema :
    (String → Option (List String)) → Bool → Catalogue → File → Option SchemaContext
unfolding introspect_tables load_relationships_yaml
introspect_schema fetch sample_enums catalogue file = do
  relationships ← load_relationships_yaml file
  some (record {
    tables =
        introspect_tables fetch sample_enums catalogue.table_rows catalogue.column_rows
          catalogue.key_rows;
    foreign_keys = catalogue.foreign_keys;
    text_joins = relationships.joins;
    perspectives = relationships.perspectives;
    glossary = relationships.glossary;
  })
