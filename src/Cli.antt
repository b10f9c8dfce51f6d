-- ===== src/Cli.antt =====
-- The check of `.env.example` in platform_sdk/cli/main.py. A text is the list of its characters, and
-- a file of declarations the list of its lines; a Python set is a list.
pub mod Command
pub mod Coverage
pub mod Scan
pub mod Templates
use Prim.Native.Char.{Char, code}
use ai_platform_sdk.Prelude.{
  ℕ, zero, suc, String, Bool, true, false, ◌&&◌, ◌||◌, Option, none, some, List, [], ◌∷◌, ◌++◌, map,
  length, nat_eq, ◌==◌, strip, if◌then◌else◌,
}
use ai_platform_sdk.Prelude.Texts.{starts_with}
use ai_platform_sdk.Config.Text.{is, Piece, char, match_var}
use ai_platform_sdk.Config.Load.{of_chars}

-- `text.replace("$$", "")`
unfoldable pub drop_escapes : List Char → List Char
drop_escapes [] = []
drop_escapes (c ∷ []) = c ∷ []
drop_escapes (c ∷ d ∷ s) =
    let dropped = drop_escapes s in
    let kept = c ∷ drop_escapes (d ∷ s) in if is c b'$' && is d b'$' then dropped else kept

abbrev pub found :
    (List Piece → List (List Char))
    → List Piece
    → Option (List Char × List Piece)
    → List (List Char)
found run ps none = run ps
found run ps (some (name, rest)) = name ∷ run rest

-- `_VAR_REF_RE.findall(text)`: every round consumes a character, so their number is enough fuel.
unfoldable pub find_all : ℕ → List Piece → List (List Char)
unfolding match_var
find_all zero ps = []
find_all (suc fuel) [] = []
find_all (suc fuel) (p ∷ ps) = found (find_all fuel) ps (match_var (p ∷ ps))

-- The names that one file refers to.
unfoldable pub scan_text : List Char → List (List Char)
unfolding drop_escapes find_all
scan_text s = let ps = map char (drop_escapes s) in find_all (length ps) ps

-- `_scan_yaml_vars`
unfoldable pub scan_yaml_vars : List (List Char) → List String
unfolding scan_text of_chars
scan_yaml_vars [] = []
scan_yaml_vars (s ∷ texts) = map of_chars (scan_text s) ++ scan_yaml_vars texts

-- `line.split("=", 1)[0]`, and `none` for a line without `=`.
unfoldable pub before_equals : String → Option String
before_equals String.[] = none
before_equals (String.◌∷◌ c s) = elim (nat_eq (code c) b'=') [
  | true ↦ some String.[]
  | false ↦ elim (before_equals s) [ none ↦ none | some k ↦ some (String.◌∷◌ c k) ]
]

abbrev pub declared : Option String → List String
declared none = []
declared (some key) = if strip key == "" then [] else strip key ∷ []

-- `_parse_env_example`
unfoldable pub parse_env_example : List String → List String
unfolding before_equals strip starts_with
parse_env_example [] = []
parse_env_example (line ∷ lines) =
    let l = strip line in
    (if l == "" || starts_with "#" l then [] else declared (before_equals l))
    ++ parse_env_example lines
