-- ===== src/Introspection/Heuristics.antt =====
-- `_looks_like_enum_candidate` of platform_sdk/schema_introspection.py, which chooses the columns
-- whose values are probed.
use Prim.Native.Char.{code}
use ai_platform_sdk.Prelude.{
  ℕ, ◌+◌, String, Bool, true, false, not, ◌&&◌, ◌||◌, List, [], ◌∷◌, ◌++◌, leb, nat_eq, strip,
  is_empty, if◌then◌else◌,
}
use ai_platform_sdk.Prelude.Sorting.{codes}

-- `data_type.split("(", 1)[0]`
unfoldable pub before_paren : String → String
before_paren String.[] = String.[]
before_paren (String.◌∷◌ c s) =
    let rest = before_paren s in if nat_eq (code c) b'(' then String.[] else String.◌∷◌ c rest

abbrev lower_code : ℕ → List ℕ
lower_code n =
    if leb 65 n && leb n 90
    then (n + 32) ∷ []
    else if nat_eq n 304
    then 105 ∷ 775 ∷ []
    else if nat_eq n 8490
    then 107 ∷ []
    else n ∷ []

-- The code points of `s.lower()`, as far as they are those of ASCII characters: besides the capital
-- letters, the dotted I and the Kelvin sign have a lower case that has some.
unfoldable pub lower : String → List ℕ
lower String.[] = []
lower (String.◌∷◌ c s) = lower_code (code c) ++ lower s

unfoldable pub begins : List ℕ → List ℕ → Bool
begins [] s = true
begins (a ∷ p) [] = false
begins (a ∷ p) (b ∷ s) = nat_eq a b && begins p s

-- `p in s`
unfoldable pub is_within : List ℕ → List ℕ → Bool
unfolding begins
is_within p [] = is_empty p
is_within p (b ∷ s) = begins p (b ∷ s) || is_within p s

unfoldable pub same_codes : List ℕ → List ℕ → Bool
same_codes [] [] = true
same_codes [] (b ∷ s) = false
same_codes (a ∷ p) [] = false
same_codes (a ∷ p) (b ∷ s) = nat_eq a b && same_codes p s

abbrev pub enum_base_types : List String
enum_base_types = "character varying" ∷ "text" ∷ "varchar" ∷ []

abbrev pub enum_skip_patterns : List String
enum_skip_patterns =
    "id" ∷ "key" ∷ "number" ∷ "date" ∷ "time" ∷ "name" ∷ "description" ∷ "subject" ∷ "email"
    ∷ "phone" ∷ "website" ∷ "address" ∷ "street" ∷ "comment" ∷ "note" ∷ "step" ∷ "secret"
    ∷ "swiftbic" ∷ "routingnumber" ∷ "postalcode" ∷ "taxid" ∷ "amount" ∷ "value" ∷ []

-- `s in types` for a lowered text.
unfoldable pub is_one_of : List String → List ℕ → Bool
unfolding codes same_codes
is_one_of [] s = false
is_one_of (t ∷ ts) s = same_codes (codes t) s || is_one_of ts s

-- `any(p in s for p in patterns)` for a lowered text.
unfoldable pub has_any : List String → List ℕ → Bool
unfolding codes is_within
has_any [] s = false
has_any (p ∷ ps) s = is_within (codes p) s || has_any ps s

-- `_looks_like_enum_candidate`
unfoldable pub looks_like_enum_candidate : String → String → Bool
unfolding before_paren lower is_one_of has_any
looks_like_enum_candidate col_name data_type =
    if not (is_one_of enum_base_types (lower (strip (before_paren data_type))))
    then false
    else not (has_any enum_skip_patterns (lower col_name))
