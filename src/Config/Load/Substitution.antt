-- ===== src/Config/Load/Substitution.antt =====
-- Which variables `_substitute` of platform_sdk/config/loader.py reports in a whole value.
use Prim.Native.Char.{Char}
use mathlib.Core.Path.{ap₂}
use mathlib.Core.List.{map-append}
use ai_platform_sdk.Prelude.{
  String, ◌≡◌, refl, ap, sym, ◌∙◌, Bool, Option, none, List, [], ◌∷◌, ◌++◌, map, keep, arith,
}
use ai_platform_sdk.Json.{
  Json, Items, Fields, null, bool, nat, negsuc, str, arr, obj, nil, cons, end, field,
}
use ai_platform_sdk.Config.Text.{substitute_text}
use ai_platform_sdk.Config.Text.Laws.{unset, substitute_text_reports}
use ai_platform_sdk.Config.Load.{
  ConfigErrorDetail, to_chars, variable, not_set, substitute, substitute_items, substitute_fields,
}

-- The names that the texts of a value refer to, in document order.
unfoldable mutual
  unfolding substitute_text to_chars

  pub references : Json → List (List Char)
  references (obj d) = references_fields d
  references (arr vs) = references_items vs
  references (str s) = (substitute_text (λ _. none) (to_chars s)).1
  references v = []

  pub references_items : Items → List (List Char)
  references_items nil = []
  references_items (cons v vs) = references v ++ references_items vs

  pub references_fields : Fields → List (List Char)
  references_fields end = []
  references_fields (field k v d) = references v ++ references_fields d

keep-append :
    {A : Type 0} (test : A → Bool) (xs ys : List A)
    → keep test (xs ++ ys) ≡ keep test xs ++ keep test ys
unfolding keep
keep-append test [] ys = refl
keep-append test (x ∷ xs) ys = ground (arith, keep-append test xs ys)

module _ (environ : String → Option String) (path : String) where
  abbrev reported : List (List Char) → List ConfigErrorDetail
  reported names = map (not_set environ path) (keep (unset (variable environ)) names)

  reported-append : (xs ys : List (List Char)) → reported (xs ++ ys) ≡ reported xs ++ reported ys
  reported-append xs ys =
      ap (map (not_set environ path)) (keep-append (unset (variable environ)) xs ys)
      ∙ map-append (not_set environ path) (keep (unset (variable environ)) xs)
          (keep (unset (variable environ)) ys)

  mutual
    unfolding substitute references keep

    value_reports : (v : Json) → (substitute environ path v).1 ≡ reported (references v)
    value_reports (obj d) = fields_reports d
    value_reports (arr vs) = items_reports vs
    value_reports (str s) =
        ap (map (not_set environ path)) (substitute_text_reports (variable environ) (to_chars s))
    value_reports null = refl
    value_reports (bool b) = refl
    value_reports (nat n) = refl
    value_reports (negsuc n) = refl

    items_reports :
        (vs : Items) → (substitute_items environ path vs).1 ≡ reported (references_items vs)
    items_reports nil = refl
    items_reports (cons v vs) =
        ap₂ ◌++◌ (value_reports v) (items_reports vs)
        ∙ sym (reported-append (references v) (references_items vs))

    fields_reports :
        (d : Fields) → (substitute_fields environ path d).1 ≡ reported (references_fields d)
    fields_reports end = refl
    fields_reports (field k v d) =
        ap₂ ◌++◌ (value_reports v) (fields_reports d)
        ∙ sym (reported-append (references v) (references_fields d))

  -- The errors name the unset variables among all the value refers to, in document order.
  pub substitute_reports : (v : Json) → (substitute environ path v).1 ≡ reported (references v)
  substitute_reports v = value_reports v
