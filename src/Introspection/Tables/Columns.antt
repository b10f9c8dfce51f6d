-- ===== src/Introspection/Tables/Columns.antt =====
-- Which rows of the catalogue the tables of `introspect_schema` in
-- platform_sdk/schema_introspection.py hold.
use ai_platform_sdk.Prelude.{
  String, ◌≡◌, refl, ap, Bool, false, Option, List, [], ◌∷◌, map, keep, is_empty, not, subst,
  Bool-cases, inl, inr, if◌then◌else◌,
}
use ai_platform_sdk.Introspection.Groups.{
  Groups, groups_of, group, has_group, NodupGroups, has_group-groups_of, group-groups_of,
  groups_of-NodupGroups,
}
use ai_platform_sdk.Introspection.Tables.{
  TableInfo, TableRow, ColumnRow, KeyRow, TableKey, key_eq, key_eq_iff, key_equality, column_key,
  primary_key, comment_of, or_none, column_info, table_info, introspect_tables,
}

-- The tables of that name.
unfoldable pub named : TableKey → List TableInfo → List TableInfo
unfolding key_eq
named k tables = keep (λ t. key_eq (t.schema, t.name) k) tables

module _ (fetch : String → Option (List String)) (sample : Bool) (meta : List TableRow)
    (keys : List KeyRow) where
  -- The table of a name, by its rows in the catalogue.
  abbrev pub table_of : TableKey → List ColumnRow → List TableInfo
  table_of k [] = []
  table_of k (r ∷ rows) =
      record {
        schema = k.0;
        name = k.1;
        description = or_none (comment_of k meta);
        columns = map (column_info fetch sample k) (r ∷ rows);
        primary_key = map (λ r. r.column) (keep (λ r. key_eq (primary_key r) k) keys);
      }
      ∷ []

  table_key :
      (k : TableKey) (rows : List ColumnRow)
      → let t = table_info fetch sample meta keys (k, rows) in (t.schema, t.name) ≡ k
  unfolding table_info
  table_key (s, t) rows = refl

  named-map :
      (k : TableKey) (groups : Groups TableKey ColumnRow)
      → NodupGroups key_equality groups
      → named k (map (table_info fetch sample meta keys) groups) ≡ (
          if has_group key_equality k groups
          then table_info fetch sample meta keys (k, group key_equality k groups) ∷ []
          else [])
  unfolding named has_group group keep key_equality table_info
  named-map k [] u = refl
  named-map k ((j, rows) ∷ groups) (fresh, u) = elim (Bool-cases (key_eq j k)) [
    | inl h ↦
        let same = (key_eq_iff j k).0 h in
        rw
          (
            table_key j rows,
            h,
            named-map k groups u,
            subst (λ i. has_group key_equality i groups ≡ false) same fresh,
          )
          (ap (λ i. table_info fetch sample meta keys (i, rows) ∷ []) same)
    | inr h ↦ rw (table_key j rows, h, named-map k groups u) refl
  ]

  table_of_lem :
      (k : TableKey) (rows : List ColumnRow)
      → (if not (is_empty rows) then table_info fetch sample meta keys (k, rows) ∷ [] else [])
        ≡ table_of k rows
  unfolding table_info key_equality
  table_of_lem k [] = refl
  table_of_lem k (r ∷ rows) = rw (group-groups_of key_equality primary_key k keys) refl

  -- Every table that has columns in the catalogue is in the result once, with exactly its own
  -- columns, in the order of the catalogue, its comment and the columns of its primary key; no
  -- other table is. A column holds what its row says, and its values only if it was chosen for the
  -- probe.
  pub introspect_tables-named :
      (k : TableKey) (rows : List ColumnRow)
      → named k (introspect_tables fetch sample meta rows keys)
        ≡ table_of k (keep (λ r. key_eq (column_key r) k) rows)
  unfolding introspect_tables key_equality
  introspect_tables-named k rows =
      rw
        (
          named-map k (groups_of key_equality column_key rows)
              (groups_of-NodupGroups key_equality column_key rows),
          has_group-groups_of key_equality column_key k rows,
          group-groups_of key_equality column_key k rows,
        )
        (table_of_lem k (keep (λ r. key_eq (column_key r) k) rows))
