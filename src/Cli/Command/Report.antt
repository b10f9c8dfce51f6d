-- ===== src/Cli/Command/Report.antt =====
-- What the command `check-env-example` of platform_sdk/cli/main.py reports.
use Prim.Native.Char.{Char}
use ai_platform_sdk.Prelude.{
  ℕ, String, ◌≡◌, refl, ap, ◌∙◌, Bool, true, false, not, ◌&&◌, ◌||◌, List, [], ◌∷◌, ◌++◌, keep,
  contains, arith, ◌==◌, eq_iff, Bool-cases, inl, inr, contains-append, ◌↔◌, length,
}
use ai_platform_sdk.Prelude.Sorting.{codes, place, sort}
use ai_platform_sdk.Prelude.Sorting.Laws.{Ordered, sort-Ordered}
use ai_platform_sdk.Cli.{scan_yaml_vars, parse_env_example}
use ai_platform_sdk.Cli.Command.{
  distinct, sorted_difference, runtime_only_allowlist, outcome, check_env_example,
}

contains-distinct :
    (names : List String) (v : String) → contains (distinct names) v ≡ contains names v
unfolding contains distinct
contains-distinct [] v = refl
contains-distinct (s ∷ names) v =
    ground (arith, eq_iff v s, contains-distinct names v, contains-distinct names s)

contains-keep :
    (test : String → Bool) (names : List String) (v : String)
    → contains (keep test names) v ≡ (contains names v && test v)
unfolding contains keep
contains-keep test [] v = refl
contains-keep test (s ∷ names) v = ground (arith, eq_iff v s, contains-keep test names v)

contains-place :
    (s : String) (names : List String) (v : String)
    → contains (place codes s names) v ≡ (v == s || contains names v)
unfolding contains place
contains-place s [] v = refl
contains-place s (t ∷ names) v = ground (arith, contains-place s names v)

contains-sort :
    (names : List String) (v : String) → contains (sort codes names) v ≡ contains names v
unfolding contains sort
contains-sort [] v = refl
contains-sort (s ∷ names) v =
    ground (arith, contains-place s (sort codes names) v, contains-sort names v)

-- No name is listed twice.
abbrev pub Once : List String → Type 0
Once [] = Unit
Once (s ∷ names) = (contains names s ≡ false) × Once names

distinct-Once : (names : List String) → Once (distinct names)
unfolding distinct
distinct-Once [] = tt
distinct-Once (s ∷ names) = elim (Bool-cases (contains (distinct names) s)) [
  | inl h ↦ rw h (distinct-Once names)
  | inr h ↦ rw h (h, distinct-Once names)
]

keep-Once : (test : String → Bool) (names : List String) → Once names → Once (keep test names)
unfolding keep
keep-Once test [] o = tt
keep-Once test (s ∷ names) (fresh, o) = elim (Bool-cases (test s)) [
  | inl h ↦ rw h (ground (arith, contains-keep test names s), keep-Once test names o)
  | inr h ↦ rw h (keep-Once test names o)
]

place-Once :
    (s : String) (names : List String)
    → contains names s ≡ false
    → Once names
    → Once (place codes s names)
unfolding place contains
place-Once s [] fresh o = (refl, tt)
place-Once s (t ∷ names) fresh (h, o) =
    ground (arith, eq_iff s t, eq_iff t s, contains-place s names t, place-Once s names)

sort-Once : (names : List String) → Once names → Once (sort codes names)
unfolding sort
sort-Once [] o = tt
sort-Once (s ∷ names) (fresh, o) =
    place-Once s (sort codes names) (contains-sort names s ∙ fresh) (sort-Once names o)

-- The names that pass a test, in order and each once.
abbrev pub Lists : List String → (String → Bool) → Type 0
Lists names test = Ordered codes names × Once names × ((v : String) → contains names v ≡ test v)

sorted_difference-Lists :
    (names without : List String)
    → Lists (sorted_difference names without) (λ v. contains names v && not (contains without v))
unfolding sorted_difference
sorted_difference-Lists names without =
    let test : String → Bool = λ v. not (contains without v) in
    (
      sort-Ordered codes (keep test (distinct names)),
      sort-Once (keep test (distinct names))
          (keep-Once test (distinct names) (distinct-Once names)),
      λ v.
          contains-sort (keep test (distinct names)) v
          ∙ contains-keep test (distinct names) v
          ∙ ap (λ b. b && test v) (contains-distinct names v),
    )

no_element : (names : List String) → ((v : String) → contains names v ≡ false) → names ≡ []
unfolding contains
no_element [] h = refl
no_element (s ∷ names) h = absurd (ground (arith, h s, eq_iff s s))

-- Every name of the first list is in the second.
abbrev pub Covered : List String → List String → Type 0
Covered names others = (v : String) → contains names v ≡ true → contains others v ≡ true

module _ (show : ℕ → String) (config_dir env_example : String) where
  exit-Covered :
      (names others missing unreferenced : List String) (n : ℕ)
      → ((v : String) → contains missing v ≡ (contains names v && not (contains others v)))
      → (outcome show config_dir env_example n missing unreferenced).exit_code ≡ 0
      → Covered names others
  unfolding contains
  exit-Covered names others [] unreferenced n lists zero v has = ground (arith, lists v)
  exit-Covered names others (m ∷ missing) unreferenced n lists zero v has = absurd (omega arith)

  Covered-exit :
      (names others missing unreferenced : List String) (n : ℕ)
      → ((v : String) → contains missing v ≡ (contains names v && not (contains others v)))
      → Covered names others
      → (outcome show config_dir env_example n missing unreferenced).exit_code ≡ 0
  Covered-exit names others missing unreferenced n lists covered =
      ap (λ m. (outcome show config_dir env_example n m unreferenced).exit_code)
        (no_element missing (λ v. ground (arith, lists v, covered v)))

  pub check_env_example_reports :
      (texts : List (List Char)) (lines : List String)
      → let referenced = scan_yaml_vars texts in
        let documented = parse_env_example lines in
        let result = check_env_example show config_dir env_example texts lines in
        ((result.exit_code ≡ 0) ↔ Covered referenced documented)
        × ((missing : List String) × (unreferenced : List String) × Lists missing
              (λ v. contains referenced v && not (contains documented v))
            × Lists unreferenced (λ v.
              contains documented v
              && not (contains referenced v || contains runtime_only_allowlist v))
            × (result
                ≡ outcome show config_dir env_example
                    (length (distinct referenced))
                    missing
                    unreferenced))
  unfolding check_env_example
  check_env_example_reports texts lines =
      let referenced = scan_yaml_vars texts in
      let documented = parse_env_example lines in
      let missing = sorted_difference referenced documented in
      let unreferenced = sorted_difference documented (referenced ++ runtime_only_allowlist) in
      let n = length (distinct referenced) in
      let lists = sorted_difference-Lists referenced documented in
      let (ordered, once, listed) =
        sorted_difference-Lists documented (referenced ++ runtime_only_allowlist) in
      (
        (
          exit-Covered referenced documented missing unreferenced n lists.2,
          Covered-exit referenced documented missing unreferenced n lists.2,
        ),
        (
          missing,
          unreferenced,
          lists,
          (
            ordered,
            once,
            λ v.
                listed v
                ∙ ap (λ b. contains documented v && not b)
                    (contains-append referenced runtime_only_allowlist v),
          ),
          refl,
        ),
      )
