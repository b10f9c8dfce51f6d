-- ===== src/Cli/Command.antt =====
-- The command `check-env-example` of platform_sdk/cli/main.py as a whole: what it prints and the code
-- that it exits with. `str` of a number is an argument, and a set is a list without duplicates.
pub mod Report
use ai_platform_sdk.Prelude.{
  ℕ, String, ◌<>◌, Bool, true, false, not, ◌&&◌, List, [], ◌∷◌, ◌++◌, map, keep, contains, is_empty,
  length, if◌then◌else◌,
}
use Prim.Native.Char.{Char}
use ai_platform_sdk.Prelude.Sorting.{codes, sort}
use ai_platform_sdk.Cli.{scan_yaml_vars, parse_env_example}

-- `set(names)`
unfoldable pub distinct : List String → List String
unfolding contains
distinct [] = []
distinct (s ∷ names) = let rest = distinct names in if contains rest s then rest else s ∷ rest

-- `sorted(names)` for the difference of two sets.
unfoldable pub sorted_difference : List String → List String → List String
unfolding keep contains sort distinct
sorted_difference names without = sort codes (keep (λ v. not (contains without v)) (distinct names))

abbrev pub runtime_only_allowlist : List String
runtime_only_allowlist = "INTERNAL_API_KEY" ∷ "ENVIRONMENT" ∷ "CONFIG_DIR" ∷ []

pub record Outcome : Type 0 where
  pub exit_code : ℕ
  pub out : List String
  pub err : List String

abbrev pub bullets : List String → List String
bullets names = map (λ n. "  - " <> n) names

module _ (show : ℕ → String) (config_dir env_example : String) where
  abbrev pub fail_line : ℕ → String
  fail_line n =
      "FAIL: "
      <> show n
      <> " env var(s) referenced from "
      <> config_dir
      <> "/*.yaml but missing from "
      <> env_example
      <> ":"

  abbrev pub warn_line : ℕ → String
  warn_line n =
      "WARN: "
      <> show n
      <> " env var(s) listed in "
      <> env_example
      <> " but not referenced from any YAML:"

  abbrev pub ok_line : ℕ → String
  ok_line n = "OK: " <> show n <> " env var(s) referenced and documented."

  abbrev pub warnings : List String → List String
  warnings [] = []
  warnings (n ∷ names) = warn_line (length (n ∷ names)) ∷ bullets (n ∷ names)

  abbrev pub outcome : ℕ → List String → List String → Outcome
  outcome referenced [] unreferenced = record {
    exit_code = 0;
    out = warnings unreferenced ++ (ok_line referenced ∷ []);
    err = [];
  }
  outcome referenced (n ∷ missing) unreferenced = record {
    exit_code = 1;
    out = [];
    err = fail_line (length (n ∷ missing)) ∷ bullets (n ∷ missing);
  }

  -- `check_env_example`
  unfoldable pub check_env_example : List (List Char) → List String → Outcome
  unfolding sorted_difference scan_yaml_vars parse_env_example distinct
  check_env_example texts lines =
      let referenced = scan_yaml_vars texts in
      let documented = parse_env_example lines in
      outcome (length (distinct referenced)) (sorted_difference referenced documented)
        (sorted_difference documented (referenced ++ runtime_only_allowlist))
