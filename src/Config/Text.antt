-- ===== src/Config/Text.antt =====
-- The substitution of `${VAR}` in one text, from `_substitute` of platform_sdk/config/loader.py. A
-- text is the list of its characters. The source marks `$$` by a sentinel that occurs in no YAML
-- scalar and in no variable; here the mark is a constructor.
pub mod Laws
use Prim.Native.Char.{Char, code}
use ai_platform_sdk.Prelude.{
  ℕ, zero, suc, ◌+◌, ◌≤◌, ◌<◌, ◌≡◌, refl, ap, ◌∙◌, Bool, true, false, ◌&&◌, ◌||◌, Option, none,
  some, List, [], ◌∷◌, ◌++◌, map, arith, nat_eq, leb, length, if◌then◌else◌, Bool-cases, inl, inr,
  All, keep,
}

-- A character that the source writes.
abbrev pub is : Char → ℕ → Bool
is c n = nat_eq (code c) n

pub data Piece : Type 0 where
  char : Char → Piece
  sentinel : Piece

-- `node.replace("$$", SENTINEL)`
unfoldable pub mark : List Char → List Piece
mark [] = []
mark (c ∷ []) = char c ∷ []
mark (c ∷ d ∷ s) =
    let marked = sentinel ∷ mark s in
    let kept = char c ∷ mark (d ∷ s) in if is c b'$' && is d b'$' then marked else kept

-- `work.replace(SENTINEL, "$")`
unfoldable pub unmark : List Piece → List Char
unmark [] = []
unmark (char c ∷ ps) = c ∷ unmark ps
unmark (sentinel ∷ ps) = "$" ∷ unmark ps

-- `[A-Z_]` and `[A-Z0-9_]`
abbrev pub starts_name : Char → Bool
starts_name c = (leb b'A' (code c) && leb (code c) b'Z') || is c b'_'

abbrev pub continues_name : Char → Bool
continues_name c = starts_name c || (leb b'0' (code c) && leb (code c) b'9')

abbrev pub prepend : Char → Option (List Char × List Piece) → Option (List Char × List Piece)
prepend c none = none
prepend c (some (n, rest)) = some (c ∷ n, rest)

-- `[A-Z0-9_]*\}`: the rest of the name, and what follows the brace.
unfoldable pub name_rest : List Piece → Option (List Char × List Piece)
name_rest [] = none
name_rest (sentinel ∷ ps) = none
name_rest (char c ∷ ps) =
    let longer = prepend c (name_rest ps) in
    if is c b'}' then some ([], ps) else if continues_name c then longer else none

-- A match of `\$\{([A-Z_][A-Z0-9_]*)\}` at the start: the name, and what follows the match.
unfoldable pub match_var : List Piece → Option (List Char × List Piece)
unfolding name_rest
match_var (char d ∷ char b ∷ char c ∷ ps) =
    if is d b'$' && is b b'{' && starts_name c then prepend c (name_rest ps) else none
match_var _ = none

abbrev pub unresolved : List Char → Option (List Char) → List (List Char)
unresolved name none = name ∷ []
unresolved name (some v) = []

abbrev pub is_none : Option (List Char) → Bool
is_none none = true
is_none (some v) = false

module _ (environ : List Char → Option (List Char)) where
  -- `match.group(0)`
  abbrev pub reference : List Char → List Piece
  reference name = char "$" ∷ char "{" ∷ (map char name ++ (char "}" ∷ []))

  -- `_resolve`: the replacement of a reference.
  abbrev pub replacement : List Char → List Piece
  replacement name = elim (environ name) [ none ↦ reference name | some v ↦ map char v ]

  abbrev pub missing : List Char → List (List Char)
  missing name = unresolved name (environ name)

  -- One match, and one piece that starts no match, before what the rest gives.
  abbrev pub resolved : List Char → List Piece × List (List Char) → List Piece × List (List Char)
  resolved name (out, errors) = (replacement name ++ out, missing name ++ errors)

  abbrev pub kept : Piece → List Piece × List (List Char) → List Piece × List (List Char)
  kept p (out, errors) = (p ∷ out, errors)

  -- What a place of the text gives: a match is replaced, a piece that starts none is kept.
  abbrev pub round :
      (List Piece → List Piece × List (List Char))
      → Piece
      → List Piece
      → Option (List Char × List Piece)
      → List Piece × List (List Char)
  round run p ps none = kept p (run ps)
  round run p ps (some (name, rest)) = resolved name (run rest)

  -- `_VAR_RE.sub(_resolve, work)`: the result, and the names that are not set, in order. Every
  -- round consumes a piece, so the number of pieces is enough fuel.
  unfoldable pub sub : ℕ → List Piece → List Piece × List (List Char)
  unfolding match_var
  sub zero ps = ([], [])
  sub (suc fuel) [] = ([], [])
  sub (suc fuel) (p ∷ ps) = round (sub fuel) p ps (match_var (p ∷ ps))

  unfoldable pub substitute_text : List Char → List Char × List (List Char)
  unfolding mark unmark sub
  substitute_text s =
      let ps = mark s in let (out, errors) = sub (length ps) ps in (unmark out, errors)
