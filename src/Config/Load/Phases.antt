-- ===== src/Config/Load/Phases.antt =====
-- The three phases of `load_config` in platform_sdk/config/loader.py.
use Prim.Native.Char.{Char}
use ai_platform_sdk.Prelude.{
  Bool-cases, inl, inr, some, none, eq_iff, ◌==◌, String, ◌≡◌, ◌≢◌, refl, sym, ap, ◌∙◌, Option,
  List, [], ◌∷◌, map, keep, arith, ◌⊎◌, inl,
}
use ai_platform_sdk.Json.{Json, Fields, obj}
use ai_platform_sdk.Config.Merge.{deep_merge}
use mathlib.Core.Option.{some-injective}
use ai_platform_sdk.Config.Text.Laws.{unset}
use ai_platform_sdk.Config.Load.{
  load_config, load_named, or_else, directory, ConfigErrorDetail, Yaml, Problem, Loaded, loaded,
  config_error, parsed, yaml_error, or_empty, read_yaml, merged, read_both, next, path, not_set,
  variable, env_example, parse, resolve, validate, load_from, substitute,
}
use ai_platform_sdk.Config.Load.Substitution.{references, substitute_reports}

map-eq-nil : {A B : Type 0} (f : A → B) (xs : List A) → map f xs ≡ [] → xs ≡ []
map-eq-nil f [] h = refl
map-eq-nil f (x ∷ xs) h = cc

config_error-≢-loaded :
    {A : Type 0} (errors : List ConfigErrorDetail) (hint : String) (a : A)
    → config_error errors hint ≢ loaded a
config_error-≢-loaded errors hint a = λ h. cc

abbrev loaded_or : Fields → Loaded Fields → Fields
loaded_or d (loaded e) = e
loaded_or d (config_error errors hint) = d

loaded_injective : (d e : Fields) → loaded e ≡ loaded d → d ≡ e
loaded_injective d e h = sym (ap (loaded_or d) h)

-- A file that was read: it parses, and what it holds, or the empty mapping for nothing, is `d`.
abbrev pub Parses : Option Yaml → Fields → Type 0
Parses file d = (v : Json) × (file ≡ some (parsed v)) × (or_empty v ≡ obj d)

-- The layers that a configuration is made of: the default file, with the overlay merged into it if
-- there is one.
abbrev pub Layers : Option Yaml → Option Yaml → Fields → Type 0
Layers default overlay_file d =
    (base : Fields) × Parses default base
    × (((overlay_file ≡ none) × (d ≡ base))
        ⊎ ((overlay : Fields) × Parses overlay_file overlay × (d ≡ deep_merge base overlay)))

merged_mappings :
    (default_path overlay_path : String) (v : Json) (o : Option Json) (d : Fields)
    → merged default_path overlay_path v o ≡ loaded d
    → (base : Fields) × (v ≡ obj base)
      × (((o ≡ none) × (d ≡ base))
          ⊎ ((overlay : Fields) × (o ≡ some (obj overlay)) × (d ≡ deep_merge base overlay)))
unfolding merged
merged_mappings default_path overlay_path (obj base) none d h =
    (base, refl, inl (refl, loaded_injective d base h))
merged_mappings default_path overlay_path (obj base) (some (obj overlay)) d h =
    (base, refl, inr (overlay, refl, loaded_injective d (deep_merge base overlay) h))
merged_mappings default_path overlay_path (obj base) (some v) d h = cc
merged_mappings default_path overlay_path v o d h = cc

read_both_clean :
    (default_path overlay_path : String) (default : Yaml) (overlay_file : Option Yaml) (d : Fields)
    → read_both default_path overlay_path default overlay_file ≡ loaded d
    → Layers (some default) overlay_file d
unfolding read_both read_yaml
read_both_clean default_path overlay_path (yaml_error line message) none d h = cc
read_both_clean default_path overlay_path (yaml_error line message) (some (parsed w)) d h = cc
read_both_clean default_path overlay_path (yaml_error line message) (some (yaml_error l m)) d h = cc
read_both_clean default_path overlay_path (parsed v) (some (yaml_error line message)) d h = cc
read_both_clean default_path overlay_path (parsed v) none d h =
    let (base, is_base, rest) = merged_mappings default_path overlay_path (or_empty v) none d h in
    (
      base,
      (v, refl, is_base),
      elim rest [ inl (e, same) ↦ inl (refl, same) | inr (overlay, e, same) ↦ absurd (cc e) ],
    )
read_both_clean default_path overlay_path (parsed v) (some (parsed w)) d h =
    let (base, is_base, rest) =
      merged_mappings default_path overlay_path (or_empty v) (some (or_empty w)) d h in
    (
      base,
      (v, refl, is_base),
      elim rest [
        | inl (e, same) ↦ absurd (cc e)
        | inr (overlay, e, same) ↦
            inr (overlay, (w, refl, some-injective (or_empty w) (obj overlay) e), same)
      ],
    )

parse_clean :
    (files : String → Option Yaml) (default_path overlay_path : String) (d : Fields)
    → parse files default_path overlay_path ≡ loaded d
    → Layers (files default_path) (files overlay_path) d
unfolding parse
parse_clean files default_path overlay_path d h = go (files default_path) refl
  where
    go :
        (o : Option Yaml)
        → files default_path ≡ o
        → Layers (files default_path) (files overlay_path) d
    go none e = absurd (config_error-≢-loaded _ "" d (rw (e, parse) at h))
    go (some y) e =
        rw e
          (read_both_clean default_path overlay_path y (files overlay_path) d (rw (e, parse) at h))

module _ {A : Type 0} (model_validate : Json → A ⊎ List Problem) (files : String → Option Yaml)
    (environ : String → Option String) where
  -- When the files parse and merge to `d` and some of the variables it refers to are not set, the
  -- load fails with one error for every reference to such a variable, in document order, whatever
  -- the model makes of the values.
  pub load_from-unset :
      (cfg_dir env_name : String) (d : Fields) (name : List Char) (names : List (List Char))
      → parse files (path cfg_dir "default") (path cfg_dir env_name) ≡ loaded d
      → keep (unset (variable environ)) (references (obj d)) ≡ name ∷ names
      → load_from model_validate files environ cfg_dir env_name
        ≡ config_error (map (not_set environ (path cfg_dir "default")) (name ∷ names)) env_example
  unfolding load_from resolve
  load_from-unset cfg_dir env_name d name names parses unresolved =
      rw (parses, substitute_reports environ (path cfg_dir "default") (obj d), unresolved) refl

  validate-loaded :
      (default_path : String) (v : Json) (a : A)
      → validate model_validate default_path v ≡ loaded a
      → model_validate v ≡ inl a
  unfolding validate
  validate-loaded default_path v a h = ground arith

  -- What a load that returns has gone through, from the parsed mapping on.
  abbrev pub Validated : String → Fields → A → Type 0
  Validated default_path d a =
      (keep (unset (variable environ)) (references (obj d)) ≡ [])
      × (model_validate (substitute environ default_path (obj d)).0 ≡ inl a)

  resolved_loaded :
      (default_path : String) (d : Fields) (a : A)
      → next (resolve environ default_path d) (validate model_validate default_path) ≡ loaded a
      → Validated default_path d a
  unfolding resolve
  resolved_loaded default_path d a h = go (substitute environ default_path (obj d)).1 refl
    where
      go :
          (errors : List ConfigErrorDetail)
          → (substitute environ default_path (obj d)).1 ≡ errors
          → Validated default_path d a
      go [] e = (
        map-eq-nil (not_set environ default_path)
            (keep (unset (variable environ)) (references (obj d)))
            (sym (substitute_reports environ default_path (obj d)) ∙ e),
        validate-loaded default_path (substitute environ default_path (obj d)).0 a (rw e at h),
      )
      go (x ∷ xs) e = absurd (config_error-≢-loaded (x ∷ xs) env_example a (rw e at h))

  load_from_loaded :
      (cfg_dir env_name : String) (a : A)
      → load_from model_validate files environ cfg_dir env_name ≡ loaded a
      → (d : Fields) × (parse files (path cfg_dir "default") (path cfg_dir env_name) ≡ loaded d)
        × Validated (path cfg_dir "default") d a
  unfolding load_from
  load_from_loaded cfg_dir env_name a h =
      go (parse files (path cfg_dir "default") (path cfg_dir env_name)) refl
    where
      go :
          (p : Loaded Fields)
          → parse files (path cfg_dir "default") (path cfg_dir env_name) ≡ p
          → (d : Fields) × (parse files (path cfg_dir "default") (path cfg_dir env_name) ≡ loaded d)
            × Validated (path cfg_dir "default") d a
      go (loaded d) e = (d, e, resolved_loaded (path cfg_dir "default") d a (rw e at h))
      go (config_error xs hint) e = absurd (config_error-≢-loaded xs hint a (rw e at h))

  load_named-loaded :
      (load : String → Loaded A) (o : Option String) (a : A)
      → load_named model_validate load o ≡ loaded a
      → (env_name : String) × (o ≡ some env_name) × (env_name ≢ "") × (load env_name ≡ loaded a)
  unfolding load_named
  load_named-loaded load none a h = cc
  load_named-loaded load (some env_name) a h = elim (Bool-cases (env_name == "")) [
    | inl empty ↦ absurd (config_error-≢-loaded _ _ a (rw empty at h))
    | inr named ↦ (env_name, refl, ground (arith, eq_iff env_name ""), rw named at h)
  ]

  -- What a load that returns has gone through, for the environment that was chosen.
  abbrev pub LoadedAs : String → String → A → Type 0
  LoadedAs cfg_dir env_name a =
      (d : Fields) × Layers (files (path cfg_dir "default")) (files (path cfg_dir env_name)) d
      × Validated (path cfg_dir "default") d a

  -- A load returns a model only if every phase was clean: an environment is named, by the argument
  -- or else by the variable; the default file is there and parses to a mapping, and so does the file
  -- of the environment, if there is one, and is merged into it; no variable that the mapping refers to
  -- is unset; and the model is what validation makes of it with its variables substituted.
  pub load_config_loaded :
      (config_dir env : Option String) (a : A)
      → load_config model_validate files environ config_dir env ≡ loaded a
      → (env_name : String) × (or_else env (environ "ENVIRONMENT") ≡ some env_name)
        × (env_name ≢ "")
        × LoadedAs (directory (or_else config_dir (environ "CONFIG_DIR"))) env_name a
  unfolding load_config
  load_config_loaded config_dir env a h =
      let cfg_dir = directory (or_else config_dir (environ "CONFIG_DIR")) in
      let (env_name, named, given, result) =
        load_named-loaded (load_from model_validate files environ cfg_dir)
          (or_else env (environ "ENVIRONMENT")) a h in
      let (d, parses, valid) = load_from_loaded cfg_dir env_name a result in
      (
        env_name,
        named,
        given,
        (d, parse_clean files (path cfg_dir "default") (path cfg_dir env_name) d parses, valid),
      )
