-- ===== src/Tests/ConfigRuns.antt =====
-- platform_sdk/config/loader.py and platform_sdk/cli/main.py at concrete inputs.
use Prim.Native.Char.{Char}
use ai_platform_sdk.Prelude.{
  ◌≢◌, String, ◌≡◌, refl, Option, none, some, List, [], ◌∷◌, ◌==◌, if◌then◌else◌, keep, map, ◌⊎◌,
  inl,
}
use ai_platform_sdk.Json
use ai_platform_sdk.Json.{Json, Fields, nat, str, obj, end, field}
use ai_platform_sdk.Config.Merge.{deep_merge, DeepUnique}
use ai_platform_sdk.Config.Merge.Leaves.{leaf_at, is_silent, layered, deep_merge_leaves}
use ai_platform_sdk.Config.Text.Laws.{unset}
use ai_platform_sdk.Config.Load.{
  load_config, or_else, directory, Yaml, parsed, Problem, loaded, config_error, path, parse,
  variable, not_set, env_example, load_from,
}
use ai_platform_sdk.Config.Load.{substitute}
use ai_platform_sdk.Config.Load.Shape.{shape, shape-substitute}
use ai_platform_sdk.Config.Load.Substitution.{references}
use ai_platform_sdk.Config.Load.Phases.{LoadedAs, load_config_loaded, load_from-unset}
use ai_platform_sdk.Prelude.{contains}
use ai_platform_sdk.Config.Load.{to_chars, of_chars}
use ai_platform_sdk.Config.Text.{match_var, name_rest}
use ai_platform_sdk.Cli.{
  scan_yaml_vars, scan_text, find_all, drop_escapes, parse_env_example, before_equals,
}
use ai_platform_sdk.Cli.Command.{check_env_example, sorted_difference, distinct}
use ai_platform_sdk.Prelude.{All, strip, false}
use ai_platform_sdk.Prelude.Texts.{starts_with}
use ai_platform_sdk.Prelude.Sorting.{sort}
use ai_platform_sdk.Cli.Coverage.{has_escape}
use ai_platform_sdk.Cli.Coverage.Values.{Verbatim, NamesDocumented, check_env_example_documents}

abbrev base : Fields
base = field "db" (obj (field "host" (str "localhost") (field "port" (nat 5432) end))) end

abbrev overlay : Fields
overlay = field "db" (obj (field "host" (str "${DB_HOST}") end)) end

overlay_unique : DeepUnique overlay
unfolding Json.has
overlay_unique = (refl, (refl, tt, tt), tt)

abbrev port : List String
port = "db" ∷ "port" ∷ []

deep_merge_leaves_example :
    leaf_at port (some (obj (deep_merge base overlay)))
    ≡ layered
        (leaf_at port (some (obj overlay)))
        (is_silent port (some (obj overlay)))
        (leaf_at port (some (obj base)))
deep_merge_leaves_example = deep_merge_leaves base overlay port overlay_unique

abbrev files : String → Option Yaml
files name =
    if name == "conf/default.yaml"
    then some (parsed (obj base))
    else if name == "conf/dev.yaml"
    then some (parsed (obj overlay))
    else none

abbrev accept : Json → Json ⊎ List Problem
accept v = inl v

abbrev no_variables : String → Option String
no_variables name = none

abbrev merged_fields : Fields
merged_fields = field "db" (obj (field "host" (str "${DB_HOST}") (field "port" (nat 5432) end))) end

files-parse : parse files (path "conf" "default") (path "conf" "dev") ≡ loaded merged_fields
unfolding parse deep_merge Json.get Json.put Json.truthy
files-parse = refl

abbrev db_host : List Char
db_host = "D" ∷ "B" ∷ "_" ∷ "H" ∷ "O" ∷ "S" ∷ "T" ∷ []

host_unset : keep (unset (variable no_variables)) (references (obj merged_fields)) ≡ db_host ∷ []
unfolding keep variable references
host_unset = refl

load_from-unset_example :
    load_from accept files no_variables "conf" "dev"
    ≡ config_error (map (not_set no_variables (path "conf" "default")) (db_host ∷ [])) env_example
load_from-unset_example =
    load_from-unset accept files no_variables "conf" "dev" merged_fields db_host [] files-parse
      host_unset

abbrev one_variable : String → Option String
one_variable name = if name == "DB_HOST" then some "db-1" else none

abbrev final : Json
final = obj (field "db" (obj (field "host" (str "db-1") (field "port" (nat 5432) end))) end)

loads : load_config accept files one_variable (some "conf") (some "dev") ≡ loaded final
unfolding load_config Json.put Json.get
loads = refl

load_config_loaded_example :
    (env_name : String) × (or_else (some "dev") (one_variable "ENVIRONMENT") ≡ some env_name)
    × (env_name ≢ "")
    × LoadedAs accept files one_variable
        (directory (or_else (some "conf") (one_variable "CONFIG_DIR")))
        env_name
        final
load_config_loaded_example =
    load_config_loaded accept files one_variable (some "conf") (some "dev") final loads

shape-substitute_example :
    shape (substitute no_variables "conf/dev.yaml" (obj overlay)).0 ≡ shape (obj overlay)
shape-substitute_example = shape-substitute no_variables "conf/dev.yaml" (obj overlay)

abbrev example_text : List Char
example_text = to_chars "host: ${DB_HOST} # of the database"

abbrev example_value : Json
example_value = obj (field "host" (str "${DB_HOST}") end)

abbrev example_lines : List String
example_lines = "# the database" ∷ "DB_HOST = localhost" ∷ []

example_plain : All (λ text. has_escape text ≡ false) (example_text ∷ [])
unfolding to_chars
example_plain = (refl, tt)

example_stands : Verbatim (example_text ∷ []) example_value
unfolding Verbatim to_chars
example_stands = (inl (to_chars "host: ", to_chars " # of the database", refl), tt)

example_passes :
    (check_env_example
      (λ n. "1")
      "config"
      ".env.example"
      (example_text ∷ [])
      example_lines).exit_code
    ≡ 0
unfolding check_env_example sorted_difference distinct sort scan_yaml_vars scan_text find_all
    match_var drop_escapes parse_env_example to_chars of_chars keep contains strip before_equals
    starts_with name_rest
example_passes = refl

check_env_example_documents_example :
    All
      (NamesDocumented example_lines no_variables "config/default.yaml")
      (substitute no_variables "config/default.yaml" example_value).1
check_env_example_documents_example =
    check_env_example_documents (λ n. "1") "config" ".env.example" no_variables
      "config/default.yaml" example_value (example_text ∷ []) example_lines example_plain
      example_stands example_passes
