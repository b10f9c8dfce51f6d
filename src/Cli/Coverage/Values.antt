-- ===== src/Cli/Coverage/Values.antt =====
-- The command `check-env-example` of platform_sdk/cli/main.py beside `_substitute` of
-- platform_sdk/config/loader.py on a whole value.
use Prim.Native.Char.{Char}
use ai_platform_sdk.Prelude.{
  ℕ, String, ◌≡◌, refl, false, Option, none, List, [], ◌∷◌, ◌++◌, map, keep, All,
}
use ai_platform_sdk.Json.{
  Json, Items, Fields, null, bool, nat, negsuc, str, arr, obj, nil, cons, end, field,
}
use ai_platform_sdk.Config.Text.{substitute_text}
use ai_platform_sdk.Config.Text.Laws.{unset}
use ai_platform_sdk.Config.Load.{ConfigErrorDetail, to_chars, variable, not_set, substitute}
use ai_platform_sdk.Config.Load.Substitution.{
  references, references_items, references_fields, substitute_reports,
}
use ai_platform_sdk.Cli.Command.{check_env_example}
use ai_platform_sdk.Cli.Coverage.{
  has_escape, StandsIn, Documented, All-keep, check_env_example_covers,
}

-- Every text of a value stands as it is in one of the files.
unfoldable mutual
  unfolding to_chars

  pub Verbatim : List (List Char) → Json → Type 0
  Verbatim texts (obj d) = VerbatimFields texts d
  Verbatim texts (arr vs) = VerbatimItems texts vs
  Verbatim texts (str s) = StandsIn (to_chars s) texts
  Verbatim texts v = Unit

  pub VerbatimItems : List (List Char) → Items → Type 0
  VerbatimItems texts nil = Unit
  VerbatimItems texts (cons v vs) = Verbatim texts v × VerbatimItems texts vs

  pub VerbatimFields : List (List Char) → Fields → Type 0
  VerbatimFields texts end = Unit
  VerbatimFields texts (field k v d) = Verbatim texts v × VerbatimFields texts d

All-append : {A : Type 0} (P : A → Type 0) (xs ys : List A) → All P xs → All P ys → All P (xs ++ ys)
All-append P [] ys a b = b
All-append P (x ∷ xs) ys (p, a) b = (p, All-append P xs ys a b)

module _ (P : List Char → Type 0) (texts : List (List Char))
    (covers : (s : List Char) → StandsIn s texts → All P (substitute_text (λ _. none) s).1) where
  mutual
    unfolding Verbatim references

    value_covered : (v : Json) → Verbatim texts v → All P (references v)
    value_covered (obj d) h = fields_covered d h
    value_covered (arr vs) h = items_covered vs h
    value_covered (str s) h = covers (to_chars s) h
    value_covered null h = tt
    value_covered (bool b) h = tt
    value_covered (nat n) h = tt
    value_covered (negsuc n) h = tt

    items_covered : (vs : Items) → VerbatimItems texts vs → All P (references_items vs)
    items_covered nil h = tt
    items_covered (cons v vs) (h, hs) =
        All-append P (references v) (references_items vs) (value_covered v h) (items_covered vs hs)

    fields_covered : (d : Fields) → VerbatimFields texts d → All P (references_fields d)
    fields_covered end h = tt
    fields_covered (field k v d) (h, hs) =
        All-append P (references v) (references_fields d) (value_covered v h) (fields_covered d hs)

-- An error of the substitution names a variable that is documented.
abbrev pub NamesDocumented :
    List String → (String → Option String) → String → ConfigErrorDetail → Type 0
NamesDocumented lines environ path error =
    (name : List Char) × (error ≡ not_set environ path name) × Documented lines name

All-named :
    (lines : List String) (environ : String → Option String) (path : String)
    (found : List (List Char))
    → All (Documented lines) found
    → All (NamesDocumented lines environ path) (map (not_set environ path) found)
All-named lines environ path [] h = tt
All-named lines environ path (n ∷ found) (d, h) =
    ((n, refl, d), All-named lines environ path found h)

-- If the command exits with zero, then every error that the loader's substitution of a whole value
-- reports, in any environment, names a variable that `.env.example` documents: for a value whose
-- texts each stand as they are in one of the files, where no file has two dollar signs next to each
-- other.
pub check_env_example_documents :
    (show : ℕ → String) (config_dir env_example : String) (environ : String → Option String)
    (path : String) (v : Json) (texts : List (List Char)) (lines : List String)
    → All (λ text. has_escape text ≡ false) texts
    → Verbatim texts v
    → (check_env_example show config_dir env_example texts lines).exit_code ≡ 0
    → All (NamesDocumented lines environ path) (substitute environ path v).1
check_env_example_documents show config_dir env_example environ path v texts lines plain stands
      passes =
    let covers : (s : List Char)
        → StandsIn s texts
        → All (Documented lines) (substitute_text (λ _. none) s).1 =
      λ s stands_in.
        check_env_example_covers show config_dir env_example (λ _. none) s texts lines plain
          stands_in passes in
    rw (substitute_reports environ path v) (
      All-named lines environ path (keep (unset (variable environ)) (references v)) (
        All-keep (unset (variable environ)) (Documented lines) (references v)
          (value_covered (Documented lines) texts covers v stands)))
