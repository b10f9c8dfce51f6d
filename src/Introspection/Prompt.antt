-- ===== src/Introspection/Prompt.antt =====
-- `format_for_prompt` of platform_sdk/schema_introspection.py. Python's `repr` of a text and `str`
-- of a value that YAML gave are arguments.
pub mod Order
use ai_platform_sdk.Prelude.{
  ℕ, String, ◌<>◌, ◌≡◌, ◌↔◌, Bool, true, false, not, Option, none, some, List, [], ◌∷◌, ◌++◌, map,
  ltb, nat_eq, ◌==◌, eq_iff, rstrip, is_empty, if◌then◌else◌,
}
use ai_platform_sdk.Json.{Json, Items, nil, cons, truthy}
use ai_platform_sdk.Config.Load.{join}
use ai_platform_sdk.Prelude.Sorting.{codes, sort}
use ai_platform_sdk.Introspection.Groups.{Equality, Groups, groups_of}
use ai_platform_sdk.Introspection.Context.{ForeignKey, SchemaContext}
use ai_platform_sdk.Introspection.Tables.{ColumnInfo, TableInfo}
use ai_platform_sdk.Introspection.Relationships.{TextJoin, GlossaryTerm, EntityPerspective}

unfoldable pub text_equality : Equality String
text_equality = record { eq = λ s t. s == t; eq_iff = eq_iff }

abbrev pub by_name : String × List TableInfo → String × List TableInfo
by_name (schema, tables) = (schema, sort (λ t. codes t.name) tables)

-- The schemas in the order of their names, each with its tables in the order of theirs.
unfoldable pub by_schema : List TableInfo → List (String × List TableInfo)
unfolding sort
by_schema tables =
    map by_name (sort (λ g. codes g.0) (groups_of text_equality (λ t. t.schema) tables))

abbrev pub none_if : Bool → List String → List String
none_if true lines = []
none_if false lines = lines

abbrev pub is_text : Option String → Bool
is_text none = false
is_text (some s) = not (s == "")

abbrev pub text_of : Option String → String
text_of none = ""
text_of (some s) = s

unfoldable pub flat {ℓ} : {A : Type ℓ} → (A → List String) → List A → List String
flat f [] = []
flat f (x ∷ xs) = f x ++ flat f xs

abbrev pub is_values : Option (List String) → Bool
is_values none = false
is_values (some vs) = not (is_empty vs)

abbrev pub values_of : Option (List String) → List String
values_of none = []
values_of (some vs) = vs

abbrev pub column_name : String → String → String → String
column_name schema table column = schema <> ".\"" <> table <> "\".\"" <> column <> "\""

module _ (repr : String → String) (to_text : Json → String) where
  unfoldable pub glossary_lines : List GlossaryTerm → List String
  unfolding flat
  glossary_lines [] = []
  glossary_lines (g ∷ gs) =
      "## Domain Glossary"
        ∷ ""
        ∷ "How this team uses common banking terms. When the user's question uses one of these words, map to the SQL pattern indicated here. Misreading a term silently changes the answer (e.g. returning a dollar sum when the user asked for a count)."
        ∷ ""
        ∷ flat (λ t. ("- **" <> to_text t.term <> "** — " <> t.definition) ∷ []) (g ∷ gs)
      ++ ("" ∷ [])

  quoted_all : Items → List String
  quoted_all nil = []
  quoted_all (cons v vs) = ("\"" <> to_text v <> "\"") ∷ quoted_all vs

  unfoldable pub perspective_lines : EntityPerspective → List String
  unfolding quoted_all join
  perspective_lines p =
      let cols = join ", " (quoted_all p.fact_columns) in
      ("- **" <> to_text p.name <> "** — " <> to_text p.description)
        ∷ none_if (not (truthy p.primary_table))
            (("    primary table: `" <> to_text p.primary_table <> "`") ∷ [])
      ++ none_if (cols == "") (("    fact columns: " <> cols) ∷ [])

  unfoldable pub perspectives_lines : List EntityPerspective → List String
  unfolding perspective_lines flat
  perspectives_lines [] = []
  perspectives_lines (p ∷ ps) =
      "## Analyst Perspectives"
        ∷ ""
        ∷ "Commercial-banking questions usually approach the data from one of these angles. Identify the perspective in the user's question, then filter on the matching column(s) on `bankdw.\"fact_payments\"`:"
        ∷ ""
        ∷ flat perspective_lines (p ∷ ps)
      ++ ("" ∷ [])

  unfoldable pub column_line : ColumnInfo → String
  unfolding join
  column_line c =
      "- `\""
      <> c.name
      <> "\"` `"
      <> c.data_type
      <> "`"
      <> (if is_values c.enum_values
          then " — values: " <> join ", " (map repr (values_of c.enum_values))
          else "")
      <> (if is_text c.description then " — " <> text_of c.description else "")

  unfoldable pub table_lines : String → TableInfo → List String
  unfolding column_line join
  table_lines schema t =
      ("#### " <> schema <> ".\"" <> t.name <> "\"")
        ∷ none_if (not (is_text t.description)) (("> " <> text_of t.description) ∷ [])
      ++ none_if (is_empty t.primary_key) (("PK: " <> join ", " t.primary_key) ∷ [])
      ++ map column_line t.columns
      ++ ("" ∷ [])

  unfoldable pub schema_lines : String × List TableInfo → List String
  unfolding table_lines flat
  schema_lines (schema, tables) =
      ("### Schema: `" <> schema <> "`") ∷ "" ∷ flat (table_lines schema) tables

  unfoldable pub foreign_key_lines : List ForeignKey → List String
  unfolding flat
  foreign_key_lines [] = []
  foreign_key_lines (k ∷ ks) =
      "### Foreign Keys (declared)"
        ∷ flat
            (λ fk.
              ("- "
                <> column_name fk.from_schema fk.from_table fk.from_column
                <> " → "
                <> column_name fk.to_schema fk.to_table fk.to_column)
              ∷ [])
            (k ∷ ks)
      ++ ("" ∷ [])

  unfoldable pub text_join_lines : List TextJoin → List String
  unfolding flat
  text_join_lines [] = []
  text_join_lines (j ∷ js) =
      "### Text-Match Joins (semantic, not enforced — match on equal values)"
        ∷ flat
            (λ tj.
              ("- "
                <> column_name tj.from_schema tj.from_table tj.from_column
                <> " ↔ "
                <> column_name tj.to_schema tj.to_table tj.to_column
                <> (if truthy tj.semantics then " — " <> to_text tj.semantics else ""))
              ∷ [])
            (j ∷ js)
      ++ ("" ∷ [])

  unfoldable pub prompt_lines : SchemaContext → List String
  unfolding glossary_lines perspectives_lines schema_lines by_schema foreign_key_lines
      text_join_lines flat
  prompt_lines ctx =
      glossary_lines ctx.glossary
      ++ perspectives_lines ctx.perspectives
      ++ ("## Database Schema (live from pg_catalog)" ∷ ""
          ∷ "Pascal-cased identifiers MUST be double-quoted in queries." ∷ "" ∷ [])
      ++ flat schema_lines (by_schema ctx.tables)
      ++ foreign_key_lines ctx.foreign_keys
      ++ text_join_lines ctx.text_joins

  unfoldable pub format_for_prompt : SchemaContext → String
  unfolding prompt_lines join rstrip
  format_for_prompt ctx = rstrip (join "\n" (prompt_lines ctx)) <> "\n"
