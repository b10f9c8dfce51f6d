-- ===== src/Introspection/Relationships.antt =====
-- `_split_qualified` and `_load_relationships_yaml` of platform_sdk/schema_introspection.py. What
-- `yaml.safe_load` gives for the file is an argument; `none` stands for an exception.
pub mod Names
use Prim.Native.Char.{Char, code}
use ai_platform_sdk.Prelude.{
  ℕ, String, Bool, true, false, ◌&&◌, Option, none, some, List, [], ◌∷◌, map, nat_eq, ◌==◌, strip,
  split_dots, if◌then◌else◌,
}
use ai_platform_sdk.Json.{
  Json, null, bool, nat, negsuc, str, arr, obj, Items, nil, cons, Fields, end, field, get, truthy,
}
use ai_platform_sdk.Introspection.{is_quote}

infixl 5 ◌>>=◌
abbrev pub ◌>>=◌ {ℓ κ} : {A : Type ℓ} {B : Type κ} → Option A → (A → Option B) → Option B
none >>= next = none
some value >>= next = next value

unfoldable pub lstrip_quotes : String → String
lstrip_quotes String.[] = String.[]
lstrip_quotes (String.◌∷◌ c s) =
    let rest = lstrip_quotes s in if is_quote c then rest else String.◌∷◌ c s

unfoldable pub rstrip_quotes : String → String
rstrip_quotes String.[] = String.[]
rstrip_quotes (String.◌∷◌ c s) =
    let rest = rstrip_quotes s in if rest == "" && is_quote c then String.[] else String.◌∷◌ c rest

-- `p.strip().strip('"')`
unfoldable pub bare : String → String
unfolding lstrip_quotes rstrip_quotes
bare p = lstrip_quotes (rstrip_quotes (strip p))

abbrev pub three : List String → Option (String × String × String)
three (s ∷ t ∷ c ∷ []) = some (s, t, c)
three _ = none

-- `_split_qualified`: `none` is its `ValueError`.
unfoldable pub split_qualified : String → Option (String × String × String)
unfolding bare
split_qualified ident = three (map bare (split_dots ident))

pub record TextJoin : Type 0 where
  pub from_schema : String
  pub from_table : String
  pub from_column : String
  pub to_schema : String
  pub to_table : String
  pub to_column : String
  pub semantics : Json

pub record GlossaryTerm : Type 0 where
  pub term : Json
  pub definition : String

pub record EntityPerspective : Type 0 where
  pub name : Json
  pub description : Json
  pub primary_table : Json
  pub fact_columns : Items

-- An item of a section: only a mapping has keys.
abbrev pub mapping : Json → Option Fields
mapping (obj d) = some d
mapping _ = none

abbrev pub text : Json → Option String
text (str s) = some s
text _ = none

abbrev pub or_default : Option Json → Json → Json
or_default none v = v
or_default (some w) v = w

-- `item.get(k, "")`
abbrev pub get_or_empty : String → Fields → Json
get_or_empty k d = or_default (get k d) (str "")

unfoldable pub load_join : Json → Option TextJoin
unfolding split_qualified
load_join item = do
  d ← mapping item
  from_ ← get "from" d
  source ← text from_
  (from_schema, from_table, from_column) ← split_qualified source
  to ← get "to" d
  target ← text to
  (to_schema, to_table, to_column) ← split_qualified target
  some (record {
    from_schema = from_schema;
    from_table = from_table;
    from_column = from_column;
    to_schema = to_schema;
    to_table = to_table;
    to_column = to_column;
    semantics = get_or_empty "semantics" d;
  })

-- `list(v)`: of a text its characters, of a mapping its keys.
unfoldable pub characters : String → Items
characters String.[] = nil
characters (String.◌∷◌ c s) = cons (str (String.◌∷◌ c String.[])) (characters s)

unfoldable pub keys : Fields → Items
keys end = nil
keys (field k v d) = cons (str k) (keys d)

unfoldable pub list_of : Json → Option Items
unfolding characters keys
list_of (arr items) = some items
list_of (str s) = some (characters s)
list_of (obj d) = some (keys d)
list_of _ = none

unfoldable pub load_perspective : Json → Option EntityPerspective
unfolding list_of
load_perspective item = do
  d ← mapping item
  name ← get "name" d
  fact_columns ← list_of (or_default (get "fact_columns" d) (arr nil))
  some (record {
    name = name;
    description = get_or_empty "description" d;
    primary_table = get_or_empty "primary_table" d;
    fact_columns = fact_columns;
  })

unfoldable pub load_term : Json → Option GlossaryTerm
load_term item = do
  d ← mapping item
  term ← get "term" d
  definition ← text (get_or_empty "definition" d)
  some (record { term = term; definition = strip definition })

-- A section: the items are loaded in turn, and the first one that cannot be raises.
unfoldable pub load_each {ℓ} : {A : Type ℓ} → (Json → Option A) → Items → Option (List A)
load_each load nil = some []
load_each load (cons item items) = do a ← load item; rest ← load_each load items; some (a ∷ rest)

abbrev pub load_section {ℓ} : {A : Type ℓ} → (Json → Option A) → String → Fields → Option (List A)
load_section load name raw = do
  items ← list_of (or_default (get name raw) (arr nil))
  load_each load items

pub record Relationships : Type 0 where
  pub joins : List TextJoin
  pub perspectives : List EntityPerspective
  pub glossary : List GlossaryTerm

abbrev pub no_relationships : Relationships
no_relationships = record { joins = []; perspectives = []; glossary = [] }

-- `yaml.safe_load(p.read_text()) or {}`, on which `raw.get` is called.
abbrev pub raw_mapping : Json → Option Fields
raw_mapping v = if truthy v then mapping v else some end

unfoldable pub load_sections : Fields → Option Relationships
unfolding load_join load_perspective load_term load_each list_of
load_sections raw = do
  joins ← load_section load_join "joins" raw
  perspectives ← load_section load_perspective "perspectives" raw
  glossary ← load_section load_term "glossary" raw
  some (record { joins = joins; perspectives = perspectives; glossary = glossary })

-- No path, or no file at the path; a file whose text YAML refuses; a value.
pub data File : Type 0 where
  absent : File
  malformed : File
  parsed : Json → File

-- `_load_relationships_yaml`
unfoldable pub load_relationships_yaml : File → Option Relationships
unfolding load_sections
load_relationships_yaml absent = some no_relationships
load_relationships_yaml malformed = none
load_relationships_yaml (parsed v) = do raw ← raw_mapping v; load_sections raw
