-- ===== src/Bridge/Schema/Refused.antt =====
-- Which schemas `_convert_schema` of platform_sdk/mcp_bridge.py refuses for a keyword.
use ai_platform_sdk.Prelude.{
  ℕ, String, ◌≡◌, ◌≢◌, refl, sym, ap, ◌∙◌, Bool, true, false, Option, none, some, List, [], ◌∷◌,
  arith, eq_iff, contains,
}
use ai_platform_sdk.Json
use ai_platform_sdk.Json.{Json, Fields}
use ai_platform_sdk.Bridge.Schema.{
  ModelField, build_args_model, unsupported, first_key, unsupported_keywords, model_or_error,
  convert_by, convert_schema,
}

first_key-some :
    (ks : List String) (d : Fields) (k : String)
    → first_key ks d ≡ some k
    → (contains ks k ≡ true) × (Json.has k d ≡ true)
unfolding first_key contains
first_key-some [] d k h = cc
first_key-some (j ∷ ks) d k h = ground (arith, first_key-some ks d k, eq_iff k j)

first_key-none :
    (ks : List String) (d : Fields) (k : String)
    → first_key ks d ≡ none
    → contains ks k ≡ true
    → Json.has k d ≡ false
unfolding first_key contains
first_key-none [] d k h c = cc
first_key-none (j ∷ ks) d k h c = ground (arith, first_key-none ks d k, eq_iff k j)

model_or_error-supported :
    (o : Option (List ModelField)) (keyword : String) → model_or_error o ≢ unsupported keyword
model_or_error-supported none keyword = λ h. cc
model_or_error-supported (some fields) keyword = λ h. cc

convert_schema_cases :
    (creates : List ModelField → Bool) (depth : ℕ) (schema : Fields)
    → ((keyword : String)
        → convert_schema creates depth schema ≡ unsupported keyword
        → (contains unsupported_keywords keyword ≡ true) × (Json.has keyword schema ≡ true))
      × ((keyword : String)
          → contains unsupported_keywords keyword ≡ true
          → Json.has keyword schema ≡ true
          → (named : String) × (convert_schema creates depth schema ≡ unsupported named))
unfolding convert_schema
convert_schema_cases creates depth schema = go (first_key unsupported_keywords schema) refl
  where
    conv :
        convert_schema creates depth schema
        ≡ convert_by creates (first_key unsupported_keywords schema) depth schema
    conv = refl

    go :
        (o : Option String)
        → first_key unsupported_keywords schema ≡ o
        → ((keyword : String)
            → convert_schema creates depth schema ≡ unsupported keyword
            → (contains unsupported_keywords keyword ≡ true) × (Json.has keyword schema ≡ true))
          × ((keyword : String)
              → contains unsupported_keywords keyword ≡ true
              → Json.has keyword schema ≡ true
              → (named : String) × (convert_schema creates depth schema ≡ unsupported named))
    go (some k) e = (
      λ keyword h. first_key-some unsupported_keywords schema keyword (cc (conv)),
      λ keyword c h. (k, conv ∙ ap (λ o. convert_by creates o depth schema) e),
    )
    go none e = (
      λ keyword h. absurd (
          model_or_error-supported (build_args_model creates depth schema) keyword
            (sym (conv ∙ ap (λ o. convert_by creates o depth schema) e) ∙ h)),
      λ keyword c h. cc (first_key-none unsupported_keywords schema keyword e c),
    )

-- A schema that has one of the four unsupported keywords at its top level is refused, and the
-- keyword that the error names is one of these that it has.
pub convert_schema_unsupported :
    (creates : List ModelField → Bool) (depth : ℕ) (schema : Fields) (keyword : String)
    → contains unsupported_keywords keyword ≡ true
    → Json.has keyword schema ≡ true
    → (named : String) × (convert_schema creates depth schema ≡ unsupported named)
      × (contains unsupported_keywords named ≡ true)
      × (Json.has named schema ≡ true)
convert_schema_unsupported creates depth schema keyword c h =
    let (named, refused) = (convert_schema_cases creates depth schema).1 keyword c h in
    let (among, has) = (convert_schema_cases creates depth schema).0 named refused in
    (named, refused, among, has)
