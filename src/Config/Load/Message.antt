-- ===== src/Config/Load/Message.antt =====
-- The text of a `ConfigError` of platform_sdk/config/loader.py. `str` of a number is an argument.
use Prim.Native.String.{count}
use Prim.Native.Char.{code}
use text.Mathlib.TextLemmas.{cons-append, nil-append}
use ai_platform_sdk.Prelude.{
  ℕ, zero, suc, ◌+◌, ◌-◌, String, ◌<>◌, ◌≡◌, refl, ◌∙◌, List, [], ◌∷◌, ◌++◌, map, length, ◌==◌,
  nat_eq, arith, if◌then◌else◌, Bool-cases, inl, inr, All,
}
use ai_platform_sdk.Config.Load.{ConfigErrorDetail, join}

-- `n` spaces.
unfoldable pub spaces : ℕ → String
spaces zero = ""
spaces (suc n) = String.◌∷◌ " " (spaces n)

-- `f"{s:30s}"`: no shorter than 30 characters.
abbrev pub padded : String → String
padded s = s <> spaces (30 - count s)

abbrev pub field_part : String → String
field_part f = if f == "" then "(parse)" else "field '" <> f <> "'"

abbrev pub detail_line : ConfigErrorDetail → String
detail_line d =
    "  - " <> padded d.location <> "  " <> padded (field_part d.field_name) <> "  : " <> d.reason

abbrev pub first_line : String → ℕ → String
first_line shown n =
    shown <> " problem" <> (if nat_eq n 1 then "" else "s") <> " loading configuration:"

abbrev pub hint_lines : String → List String
hint_lines hint = if hint == "" then [] else ("Hint: " <> hint) ∷ []

-- `_format`
unfoldable pub format : (ℕ → String) → List ConfigErrorDetail → String → String
unfolding join spaces
format show errors hint = join "\n" (
    first_line (show (length errors)) (length errors) ∷ (map detail_line errors ++ hint_lines hint))

-- The number of line ends in a text.
unfoldable pub line_ends : String → ℕ
line_ends String.[] = 0
line_ends (String.◌∷◌ c s) = (if nat_eq (code c) b'\n' then 1 else 0) + line_ends s

line_ends-append : (s t : String) → line_ends (s <> t) ≡ line_ends s + line_ends t
unfolding line_ends
line_ends-append String.[] t = rw (nil-append t) (ground arith)
line_ends-append (String.◌∷◌ c s) t = rw (cons-append c s t) (ground (arith, line_ends-append s t))

line_ends-spaces : (n : ℕ) → line_ends (spaces n) ≡ 0
unfolding line_ends spaces
line_ends-spaces zero = refl
line_ends-spaces (suc n) = ground (arith, line_ends-spaces n)

-- No line end in the parts of a problem.
pub record OneLine (d : ConfigErrorDetail) : Type 0 where
  pub location : line_ends d.location ≡ 0
  pub field_name : line_ends d.field_name ≡ 0
  pub reason : line_ends d.reason ≡ 0

line_ends-field_part : (f : String) → line_ends f ≡ 0 → line_ends (field_part f) ≡ 0
unfolding line_ends
line_ends-field_part f h = elim (Bool-cases (f == "")) [
  | inl none ↦ rw none refl
  | inr some ↦ rw (some, line_ends-append, line_ends-append) (ground arith)
]

line_ends-detail_line : (d : ConfigErrorDetail) → OneLine d → line_ends (detail_line d) ≡ 0
unfolding line_ends
line_ends-detail_line d one =
    simp
      (
        line_ends-append,
        line_ends-spaces,
        one.location,
        line_ends-field_part d.field_name one.field_name,
        one.reason,
      )
      (ground arith)

line_ends-join :
    (s : String) (ss : List String)
    → line_ends s ≡ 0
    → All (λ t. line_ends t ≡ 0) ss
    → line_ends (join "\n" (s ∷ ss)) ≡ length ss
unfolding line_ends join
line_ends-join s [] h hs = h
line_ends-join s (t ∷ ss) h (ht, hs) =
    rw (line_ends-append, line_ends-append) (ground (arith, line_ends-join t ss ht hs))

-- The lines behind the first one.
details_one :
    (errors : List ConfigErrorDetail) (rest : List String)
    → All OneLine errors
    → All (λ t. line_ends t ≡ 0) rest
    → All (λ t. line_ends t ≡ 0) (map detail_line errors ++ rest)
details_one [] rest one more = more
details_one (d ∷ errors) rest (o, one) more =
    (line_ends-detail_line d o, details_one errors rest one more)

length-details :
    (errors : List ConfigErrorDetail) (rest : List String)
    → length (map detail_line errors ++ rest) ≡ length errors + length rest
length-details [] rest = ground arith
length-details (d ∷ errors) rest = ground (arith, length-details errors rest)

hint_one : (hint : String) → line_ends hint ≡ 0 → All (λ t. line_ends t ≡ 0) (hint_lines hint)
unfolding line_ends
hint_one hint h = elim (Bool-cases (hint == "")) [
  | inl none ↦ rw none tt
  | inr some ↦ rw some (rw line_ends-append (ground arith), tt)
]

line_ends-first_line :
    (shown : String) (n : ℕ) → line_ends shown ≡ 0 → line_ends (first_line shown n) ≡ 0
unfolding line_ends
line_ends-first_line shown n h = elim (Bool-cases (nat_eq n 1)) [
  | inl one ↦ rw one (simp (line_ends-append, h) (ground arith))
  | inr many ↦ rw many (simp (line_ends-append, h) (ground arith))
]

-- Every problem has a line of its own: behind the first line, the text of the error has one for each
-- of them and one for the hint, if there is a hint, where no part has a line end.
pub line_ends-format :
    (show : ℕ → String) (errors : List ConfigErrorDetail) (hint : String)
    → line_ends (show (length errors)) ≡ 0
    → All OneLine errors
    → line_ends hint ≡ 0
    → line_ends (format show errors hint) ≡ length errors + (if hint == "" then 0 else 1)
unfolding format
line_ends-format show errors hint digits one plain =
    line_ends-join (first_line (show (length errors)) (length errors))
      (map detail_line errors ++ hint_lines hint)
      (line_ends-first_line (show (length errors)) (length errors) digits)
      (details_one errors (hint_lines hint) one (hint_one hint plain))
    ∙ ground (arith, length-details errors (hint_lines hint))
