-- ===== src/Bridge/Schema.antt =====
-- The conversion of a tool's JSON Schema in platform_sdk/mcp_bridge.py.
pub mod Refused
use Prim.Native.Char.{Char, code}
use ai_platform_sdk.Prelude.{
  ℕ, zero, suc, String, ◌≡◌, ◌≢◌, refl, sym, ap, ◌∙◌, Bool, true, false, ◌||◌, Option, none, some,
  List, [], ◌∷◌, arith, eq_iff, nat_eq, contains, if◌then◌else◌,
}
use ai_platform_sdk.Prelude.Dict.{Dict, lookup}
use ai_platform_sdk.Json
use ai_platform_sdk.Json.{
  Json, Items, Fields, str, arr, obj, nil, cons, end, field, characters, keys,
}

pub data PyType : Type 0 where
  py_str py_int py_float py_bool py_dict py_list : PyType

-- A type, or an exception: of a recursion that has not ended within the depth of the stack, a
-- `TypeError`, or an `AttributeError`.
pub data Resolved : Type 0 where
  resolved : PyType → Resolved
  too_deep type_error attribute_error : Resolved

abbrev json_type_map : Dict PyType
json_type_map =
    ("string", py_str)
    ∷ ("integer", py_int)
    ∷ ("number", py_float)
    ∷ ("boolean", py_bool)
    ∷ ("object", py_dict)
    ∷ ("array", py_list)
    ∷ []

-- `s.lstrip("#/")`
lstrip_ref : String → String
lstrip_ref String.[] = String.[]
lstrip_ref (String.◌∷◌ c s) =
    let rest = lstrip_ref s in
    if nat_eq (code c) b'#' || nat_eq (code c) b'/' then rest else String.◌∷◌ c s

cons_head : Char → List String → List String
cons_head c [] = String.◌∷◌ c String.[] ∷ []
cons_head c (p ∷ ps) = String.◌∷◌ c p ∷ ps

-- `s.split("/")`
split_slashes : String → List String
unfolding cons_head
split_slashes String.[] = String.[] ∷ []
split_slashes (String.◌∷◌ c s) =
    let rest = split_slashes s in
    if nat_eq (code c) b'/' then String.[] ∷ rest else cons_head c rest

unfoldable pub ref_path : String → List String
unfolding lstrip_ref split_slashes
ref_path ref = split_slashes (lstrip_ref ref)

-- `for part in ref_path: resolved = resolved[part]`: `none` for a key that is missing, and for an
-- index into what is no mapping.
unfoldable pub follow : List String → Json → Option Json
follow [] v = some v
follow (part ∷ rest) (obj d) = elim (Json.get part d) [ none ↦ none | some v ↦ follow rest v ]
follow (part ∷ rest) v = none

-- `_JSON_TYPE_MAP.get(json_type)`: a list or a mapping for a type is no key, which raises.
unfoldable pub mapped_type : Option Json → Resolved
unfolding lookup
mapped_type none = resolved py_str
mapped_type (some (str t)) = elim (lookup t json_type_map) [
  | none ↦ resolved py_str
  | some p ↦ resolved p
]
mapped_type (some (arr items)) = type_error
mapped_type (some (obj d)) = type_error
mapped_type (some _) = resolved py_str

-- A field without `$ref`.
unfoldable pub plain_type : Fields → Resolved
unfolding mapped_type
plain_type d =
    if Json.has "allOf" d || Json.has "anyOf" d || Json.has "oneOf" d
    then resolved py_dict
    else mapped_type (Json.get "type" d)

-- The `except` around a reference: a `TypeError` below it gives a mapping, every other exception
-- passes through.
abbrev pub behind_ref : Resolved → Resolved
behind_ref type_error = resolved py_dict
behind_ref r = r

-- A field that is no mapping: what `in` and `get` raise on it. A text or a list that holds one of the
-- keywords is outside of the model.
abbrev pub no_mapping : Json → Resolved
no_mapping (str s) = attribute_error
no_mapping (arr items) = attribute_error
no_mapping v = type_error

-- `_resolve_field_python_type`, with a bound on its recursion. A reference that is no text raises
-- outside of the `try`.
unfoldable pub resolve_type : ℕ → Json → Json → Resolved
unfolding plain_type follow ref_path
resolve_type zero root v = too_deep
resolve_type (suc depth) root (obj d) = elim (Json.get "$ref" d) [
  | none ↦ plain_type d
  | some (str ref) ↦ elim (follow (ref_path ref) root) [
    | none ↦ resolved py_dict
    | some v ↦ behind_ref (resolve_type depth root v)
  ]
  | some _ ↦ attribute_error
]
resolve_type (suc depth) root v = no_mapping v

-- A field that refers to itself is never resolved: whatever the depth, the recursion goes on.
pub resolve_type_cyclic :
    (root : Json) (d : Fields) (ref : String)
    → Json.get "$ref" d ≡ some (str ref)
    → follow (ref_path ref) root ≡ some (obj d)
    → (depth : ℕ) → resolve_type depth root (obj d) ≡ too_deep
unfolding resolve_type
resolve_type_cyclic root d ref refers leads zero = refl
resolve_type_cyclic root d ref refers leads (suc depth) =
    ground (arith, resolve_type_cyclic root d ref refers leads depth)

-- One field of the arguments' model: its name, its type, and whether it is required.
pub record ModelField : Type 0 where
  pub name : String
  pub type : PyType
  pub required : Bool

-- `set(input_schema.get("required", []))`: the texts in it, or `none` where it raises. A list with a
-- list or a mapping in it has an element that cannot be hashed.
abbrev required_names : Items → Option (List String)
required_names nil = some []
required_names (cons (arr vs) rest) = none
required_names (cons (obj d) rest) = none
required_names (cons (str s) rest) = elim (required_names rest) [
  | none ↦ none
  | some names ↦ some (s ∷ names)
]
required_names (cons v rest) = required_names rest

unfoldable pub required_fields : Option Json → Option (List String)
required_fields none = some []
required_fields (some (arr items)) = required_names items
required_fields (some (str s)) = some (characters s)
required_fields (some (obj d)) = some (keys d)
required_fields (some v) = none

-- One field with what the later ones give; `none` where an exception is raised.
abbrev pub prepend_field :
    String → Resolved → Bool → Option (List ModelField) → Option (List ModelField)
prepend_field name (resolved t) required none = none
prepend_field name (resolved t) required (some fields) =
    some (record { name = name; type = t; required = required } ∷ fields)
prepend_field name _ required rest = none

unfoldable pub model_fields : ℕ → Json → List String → Fields → Option (List ModelField)
unfolding resolve_type
model_fields depth root required end = some []
model_fields depth root required (field name schema rest) =
    prepend_field name (resolve_type depth root schema) (contains required name)
      (model_fields depth root required rest)

abbrev pub created : (List ModelField → Bool) → Option (List ModelField) → Option (List ModelField)
created creates none = none
created creates (some fields) = if creates fields then some fields else none

abbrev pub fields_of : ℕ → Fields → Option (List String) → Option Json → Option (List ModelField)
fields_of depth schema none properties = none
fields_of depth schema (some required) none = some []
fields_of depth schema (some required) (some (obj properties)) =
    model_fields depth (obj schema) required properties
fields_of depth schema (some required) (some v) = none

-- `_build_args_model`: the fields of the model, in the order of the schema's properties, or `none`
-- where an exception is raised. Whether Pydantic's `create_model` accepts the fields is an argument.
unfoldable pub build_args_model : (List ModelField → Bool) → ℕ → Fields → Option (List ModelField)
unfolding model_fields required_fields
build_args_model creates depth schema = created creates (
    fields_of depth schema (required_fields (Json.get "required" schema))
      (Json.get "properties" schema))

-- The model, the keyword that `UnsupportedSchemaError` names, or another exception.
pub data Converted : Type 0 where
  unsupported : String → Converted
  model : List ModelField → Converted
  conversion_error : Converted

unfoldable pub first_key : List String → Fields → Option String
first_key [] d = none
first_key (k ∷ ks) d = let rest = first_key ks d in if Json.has k d then some k else rest

abbrev pub unsupported_keywords : List String
unsupported_keywords = "$ref" ∷ "allOf" ∷ "anyOf" ∷ "oneOf" ∷ []

abbrev pub model_or_error : Option (List ModelField) → Converted
model_or_error none = conversion_error
model_or_error (some fields) = model fields

abbrev pub convert_by : (List ModelField → Bool) → Option String → ℕ → Fields → Converted
convert_by creates (some keyword) depth schema = unsupported keyword
convert_by creates none depth schema = model_or_error (build_args_model creates depth schema)

-- `_convert_schema`
unfoldable pub convert_schema : (List ModelField → Bool) → ℕ → Fields → Converted
convert_schema creates depth schema =
    convert_by creates (first_key unsupported_keywords schema) depth schema
