-- ===== src/Config/Load.antt =====
-- `load_config` of platform_sdk/config/loader.py and its helpers. The files, the environment and
-- the Pydantic model are arguments: a file is what `yaml.safe_load` makes of it.
pub mod Message
pub mod Substitution
pub mod Phases
pub mod Shape
use Prim.Native.Char.{Char}
use ai_platform_sdk.Prelude.{
  ℕ, String, ◌<>◌, ◌≡◌, Bool, true, false, not, Option, none, some, List, [], ◌∷◌, ◌++◌, map, ◌⊎◌,
  inl, inr, ◌==◌, is_empty, if◌then◌else◌,
}
use ai_platform_sdk.Json
use ai_platform_sdk.Json.{
  Json, Items, Fields, null, bool, nat, negsuc, str, arr, obj, nil, cons, end, field,
}
use ai_platform_sdk.Config.Merge.{deep_merge}
use ai_platform_sdk.Config.Text.{substitute_text}

pub record ConfigErrorDetail : Type 0 where
  pub location : String
  pub field_name : String
  pub reason : String

abbrev pub detail : String → String → String → ConfigErrorDetail
detail l f r = record { location = l; field_name = f; reason = r }

-- A file: what it parses to, or a YAML error with its message and, where the error has a mark,
-- the number of the line as a text.
pub data Yaml : Type 0 where
  parsed : Json → Yaml
  yaml_error : Option String → String → Yaml

-- `v or {}`
unfoldable pub or_empty : Json → Json
unfolding Json.truthy
or_empty v = if Json.truthy v then v else obj end

abbrev pub error_location : String → Option String → String
error_location path none = path
error_location path (some line) = path <> ":" <> line

-- `_read_yaml`: the value, and the errors that it appends.
unfoldable pub read_yaml : String → Yaml → Json × List ConfigErrorDetail
unfolding or_empty
read_yaml path (parsed v) = (or_empty v, [])
read_yaml path (yaml_error line message) =
    (obj end, detail (error_location path line) "" ("YAML parse error: " <> message) ∷ [])

-- A text as the list of its characters, and back.
unfoldable pub to_chars : String → List Char
to_chars String.[] = []
to_chars (String.◌∷◌ c s) = c ∷ to_chars s

unfoldable pub of_chars : List Char → String
of_chars [] = String.[]
of_chars (c ∷ cs) = String.◌∷◌ c (of_chars cs)

-- `", ".join` with the separator given.
unfoldable pub join : String → List String → String
join separator [] = ""
join separator (s ∷ []) = s
join separator (s ∷ t ∷ ss) = s <> separator <> join separator (t ∷ ss)

module _ (environ : String → Option String) where
  -- `os.environ.get` on lists of characters.
  unfoldable pub variable : List Char → Option (List Char)
  unfolding to_chars of_chars
  variable name = elim (environ (of_chars name)) [ none ↦ none | some v ↦ some (to_chars v) ]

  abbrev pub not_set : String → List Char → ConfigErrorDetail
  not_set source_path name = detail source_path "" (of_chars name <> " not set in environment")

  unfoldable mutual
    unfolding variable substitute_text to_chars of_chars

    -- `_substitute`: every text of the value, keys left alone.
    pub substitute : String → Json → Json × List ConfigErrorDetail
    substitute path (obj d) = let (out, errors) = substitute_fields path d in (obj out, errors)
    substitute path (arr vs) = let (out, errors) = substitute_items path vs in (arr out, errors)
    substitute path (str s) =
        let (out, names) = substitute_text variable (to_chars s) in
        (str (of_chars out), map (not_set path) names)
    substitute path v = (v, [])

    pub substitute_items : String → Items → Items × List ConfigErrorDetail
    substitute_items path nil = (nil, [])
    substitute_items path (cons v vs) =
        let (out, errors) = substitute path v in
        let (rest, more) = substitute_items path vs in (cons out rest, errors ++ more)

    pub substitute_fields : String → Fields → Fields × List ConfigErrorDetail
    substitute_fields path end = (end, [])
    substitute_fields path (field k v d) =
        let (out, errors) = substitute path v in
        let (rest, more) = substitute_fields path d in (field k out rest, errors ++ more)

-- An error of the model's validation: `loc`, `msg`, and `repr` of the input.
pub record Problem : Type 0 where
  pub loc : List String
  pub msg : String
  pub input : Option String

-- `_unpack_validation_error`
abbrev pub got : Option String → String
got none = ""
got (some r) = " (got " <> r <> ")"

unfoldable pub unpack_validation_error : String → List Problem → List ConfigErrorDetail
unfolding join
unpack_validation_error path [] = []
unpack_validation_error path (p ∷ ps) =
    detail path (join "." p.loc) (p.msg <> got p.input) ∷ unpack_validation_error path ps

-- What a phase returns, or the `ConfigError` with its errors and its hint.
pub data Loaded {ℓ} (A : Type ℓ) : Type ℓ where
  loaded : A → Loaded A
  config_error : List ConfigErrorDetail → String → Loaded A

module _ {ℓ κ} {A : Type ℓ} {B : Type κ} where
  -- A phase after another one: a `ConfigError` is raised through it.
  abbrev pub next : Loaded A → (A → Loaded B) → Loaded B
  next (loaded a) phase = phase a
  next (config_error errors hint) phase = config_error errors hint

-- Phase 1. `path` names a file of the directory, which is written as `str` writes a `Path`.
abbrev pub path : String → String → String
path cfg_dir name = cfg_dir <> "/" <> name <> ".yaml"

abbrev pub read_overlay : String → Option Yaml → Option Json × List ConfigErrorDetail
read_overlay overlay_path none = (none, [])
read_overlay overlay_path (some file) =
    let (v, errors) = read_yaml overlay_path file in (some v, errors)

abbrev pub not_mapping : String → ConfigErrorDetail
not_mapping location =
    detail location "" "top-level must be a YAML mapping (object), not a list or scalar"

unfoldable pub merged : String → String → Json → Option Json → Loaded Fields
unfolding deep_merge
merged default_path overlay_path (obj base) none = loaded base
merged default_path overlay_path (obj base) (some (obj overlay)) = loaded (deep_merge base overlay)
merged default_path overlay_path (obj base) (some v) =
    config_error (not_mapping overlay_path ∷ []) ""
merged default_path overlay_path v overlay = config_error (not_mapping default_path ∷ []) ""

unfoldable pub read_both : String → String → Yaml → Option Yaml → Loaded Fields
unfolding merged read_yaml
read_both default_path overlay_path default overlay_file =
    let (base, errors) = read_yaml default_path default in
    let (overlay, more) = read_overlay overlay_path overlay_file in
    if is_empty (errors ++ more)
    then merged default_path overlay_path base overlay
    else config_error (errors ++ more) ""

unfoldable pub parse : (String → Option Yaml) → String → String → Loaded Fields
unfolding read_both
parse files default_path overlay_path = elim (files default_path) [
  | none ↦ config_error (detail default_path "" "default.yaml not found" ∷ []) ""
  | some default ↦ read_both default_path overlay_path default (files overlay_path)
]

abbrev pub env_example : String
env_example = "every env var referenced from config/*.yaml must be listed in .env.example."

-- Phase 2.
unfoldable pub resolve : (String → Option String) → String → Fields → Loaded Json
unfolding substitute
resolve environ default_path d =
    let (v, sub_errors) = substitute environ default_path (obj d) in
    if is_empty sub_errors then loaded v else config_error sub_errors env_example

abbrev pub or_else : Option String → Option String → Option String
or_else none default = default
or_else (some given) default = some given

abbrev pub directory : Option String → String
directory none = "/app/config"
directory (some dir) = dir

module _ {ℓ} {A : Type ℓ} (model_validate : Json → A ⊎ List Problem) where
  -- Phase 3.
  unfoldable pub validate : String → Json → Loaded A
  unfolding unpack_validation_error
  validate default_path v = elim (model_validate v) [
    | inl model ↦ loaded model
    | inr problems ↦ config_error (unpack_validation_error default_path problems) ""
  ]

  unfoldable pub load_from :
      (String → Option Yaml) → (String → Option String) → String → String → Loaded A
  unfolding parse resolve validate
  load_from files environ cfg_dir env_name =
      let default_path = path cfg_dir "default" in
      next (next (parse files default_path (path cfg_dir env_name)) (resolve environ default_path))
        (validate default_path)

  abbrev pub environment_missing : Loaded A
  environment_missing =
      config_error (detail "<env>" "ENVIRONMENT" "ENVIRONMENT not set" ∷ [])
        "Set ENVIRONMENT=dev|staging|prod in the process environment."

  -- The load for the environment that is named, if one is.
  unfoldable pub load_named : (String → Loaded A) → Option String → Loaded A
  load_named load none = environment_missing
  load_named load (some env_name) = if env_name == "" then environment_missing else load env_name

  -- `load_config`
  unfoldable pub load_config :
      (String → Option Yaml) → (String → Option String) → Option String → Option String → Loaded A
  unfolding load_from load_named
  load_config files environ config_dir env =
      load_named (load_from files environ (directory (or_else config_dir (environ "CONFIG_DIR"))))
        (or_else env (environ "ENVIRONMENT"))
