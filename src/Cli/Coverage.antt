-- ===== src/Cli/Coverage.antt =====
-- The scan of platform_sdk/cli/main.py beside the substitution of platform_sdk/config/loader.py. The
-- command scans the texts of the files, the loader substitutes in the texts that the YAML parser
-- finds in them: such a text stands in its file as it is, unless it is written with an escape of YAML
-- or over several lines.
pub mod Values
use Prim.Native.Char.{Char}
use ai_platform_sdk.Prelude.{
  ℕ, String, ◌≡◌, refl, Bool, true, false, ◌&&◌, ◌||◌, Option, none, List, [], ◌∷◌, ◌++◌, map, keep,
  contains, length, arith, All, Bool-cases, ◌⊎◌, inl, inr, eq_iff, ap,
}
use ai_platform_sdk.Config.Text.{is, Piece, char, mark, substitute_text}
use ai_platform_sdk.Config.Text.Laws.{unset, substitute_text_reports}
use ai_platform_sdk.Config.Load.{of_chars}
use ai_platform_sdk.Cli.{drop_escapes, scan_text, scan_yaml_vars, parse_env_example}
use ai_platform_sdk.Cli.Scan.{find_all-sub, names, names-part}
use ai_platform_sdk.Cli.Command.{check_env_example}
use ai_platform_sdk.Cli.Command.Report.{check_env_example_reports}

-- Somewhere in the text stand two dollar signs.
abbrev pub has_escape : List Char → Bool
has_escape [] = false
has_escape (c ∷ []) = false
has_escape (c ∷ d ∷ s) = (is c b'$' && is d b'$') || has_escape (d ∷ s)

drop_escapes_plain : (s : List Char) → has_escape s ≡ false → drop_escapes s ≡ s
unfolding drop_escapes
drop_escapes_plain [] h = refl
drop_escapes_plain (c ∷ []) h = refl
drop_escapes_plain (c ∷ d ∷ s) h = ground (arith, drop_escapes_plain (d ∷ s))

mark_plain : (s : List Char) → has_escape s ≡ false → mark s ≡ map char s
unfolding mark
mark_plain [] h = refl
mark_plain (c ∷ []) h = refl
mark_plain (c ∷ d ∷ s) h = ground (arith, mark_plain (d ∷ s))

tail_plain : (c : Char) (s : List Char) → has_escape (c ∷ s) ≡ false → has_escape s ≡ false
tail_plain c [] h = refl
tail_plain c (d ∷ s) h = ground arith

behind_plain : (a s : List Char) → has_escape (a ++ s) ≡ false → has_escape s ≡ false
behind_plain [] s h = h
behind_plain (c ∷ a) s h = behind_plain a s (tail_plain c (a ++ s) h)

before_plain : (s b : List Char) → has_escape (s ++ b) ≡ false → has_escape s ≡ false
before_plain [] b h = refl
before_plain (c ∷ []) b h = refl
before_plain (c ∷ d ∷ s) b h = ground (arith, before_plain (d ∷ s) b)

map-append : (a b : List Char) → map char (a ++ b) ≡ map char a ++ map char b
map-append [] b = refl
map-append (c ∷ a) b = ap (char c ∷◌) (map-append a b)

scan_text-names : (s : List Char) → has_escape s ≡ false → scan_text s ≡ names (map char s)
unfolding scan_text
scan_text-names s h = rw (drop_escapes_plain s h) refl

substitute_text-names :
    (s : List Char) → has_escape s ≡ false → (substitute_text (λ n. none) s).1 ≡ names (map char s)
unfolding substitute_text
substitute_text-names s h =
    rw (mark_plain s h, find_all-sub (length (map char s)) (map char s)) refl

module _ {A : Type 0} (test : A → Bool) where
  pub All-keep : (P : A → Type 0) (xs : List A) → All P xs → All P (keep test xs)
  unfolding keep
  All-keep P [] a = tt
  All-keep P (x ∷ xs) (p, ps) = elim (Bool-cases (test x)) [
    | inl h ↦ rw h (p, All-keep P xs ps)
    | inr h ↦ rw h (All-keep P xs ps)
  ]

-- A text stands in a file as it is: between what comes before it and what comes after it.
abbrev pub Stands : List Char → List Char → Type 0
Stands s text = (a : List Char) × (b : List Char) × (text ≡ a ++ (s ++ b))

-- A text stands in one of the files.
abbrev pub StandsIn : List Char → List (List Char) → Type 0
StandsIn s [] = ⊥
StandsIn s (text ∷ texts) = Stands s text ⊎ StandsIn s texts

-- What the command finds in a file has a property, so what the loader reports for a text in it has.
reported_part :
    (P : List Char → Type 0) (environ : List Char → Option (List Char)) (s text : List Char)
    → Stands s text
    → has_escape text ≡ false
    → All P (scan_text text)
    → All P (substitute_text environ s).1
reported_part P environ s text (a, b, stands) plain scanned =
    let whole : has_escape (a ++ (s ++ b)) ≡ false = rw (← stands) plain in
    let part = before_plain s b (behind_plain a (s ++ b) whole) in
    let found : All P (names (map char (a ++ (s ++ b)))) =
      rw (← stands, ← scan_text-names text plain) scanned in
    let split : All P (names (map char a ++ (map char s ++ map char b))) =
      rw (← map-append s b, ← map-append a (s ++ b)) found in
    rw (substitute_text_reports environ s, substitute_text-names s part)
      (All-keep (unset environ) P (names (map char s))
        (names-part P (map char a) (map char s) (map char b) split))

-- A name has a line in the file of declarations.
abbrev pub Documented : List String → List Char → Type 0
Documented lines name = contains (parse_env_example lines) (of_chars name) ≡ true

map-Documented :
    (lines : List String) (found : List (List Char)) (rest : List String)
    → All (λ v. contains (parse_env_example lines) v ≡ true) (map of_chars found ++ rest)
    → All (Documented lines) found × All (λ v. contains (parse_env_example lines) v ≡ true) rest
map-Documented lines [] rest h = (tt, h)
map-Documented lines (n ∷ found) rest (p, h) =
    let (documented, more) = map-Documented lines found rest h in ((p, documented), more)

reported-Documented :
    (environ : List Char → Option (List Char)) (s : List Char) (texts : List (List Char))
    (lines : List String)
    → All (λ text. has_escape text ≡ false) texts
    → StandsIn s texts
    → All (λ v. contains (parse_env_example lines) v ≡ true) (scan_yaml_vars texts)
    → All (Documented lines) (substitute_text environ s).1
unfolding scan_yaml_vars
reported-Documented environ s [] lines plain stands h = absurd stands
reported-Documented environ s (text ∷ texts) lines (plain, more) (inl here) h =
    reported_part (Documented lines) environ s text here plain
      (map-Documented lines (scan_text text) (scan_yaml_vars texts) h).0
reported-Documented environ s (text ∷ texts) lines (plain, more) (inr there) h =
    reported-Documented environ s texts lines more there
      (map-Documented lines (scan_text text) (scan_yaml_vars texts) h).1

All-contains :
    (P : String → Type 0) (found : List String)
    → ((v : String) → contains found v ≡ true → P v)
    → All P found
unfolding contains
All-contains P [] h = tt
All-contains P (s ∷ found) h =
    (h s (ground (arith, eq_iff s s)), All-contains P found (λ v has. h v (ground arith)))

-- If the command exits with zero, then every variable that the loader's substitution of one text
-- reports as not set, in any environment, is one that `.env.example` documents: for a text that
-- stands as it is in one of the files, where no file has two dollar signs next to each other.
pub check_env_example_covers :
    (show : ℕ → String) (config_dir env_example : String) (environ : List Char → Option (List Char))
    (s : List Char) (texts : List (List Char)) (lines : List String)
    → All (λ text. has_escape text ≡ false) texts
    → StandsIn s texts
    → (check_env_example show config_dir env_example texts lines).exit_code ≡ 0
    → All (Documented lines) (substitute_text environ s).1
check_env_example_covers show config_dir env_example environ s texts lines plain stands passes =
    let covered = (check_env_example_reports show config_dir env_example texts lines).0 in
    reported-Documented environ s texts lines plain stands (
      All-contains (λ v. contains (parse_env_example lines) v ≡ true) (scan_yaml_vars texts)
        (covered.0 passes))
