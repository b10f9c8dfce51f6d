-- ===== src/Cli/Templates.antt =====
-- The scaffolding of platform_sdk/cli/main.py: `_substitute` and `_render_tree`. A text is the list
-- of its code points, and its letters are those of ASCII. No two new names in a directory are the
-- same, so that a renaming never meets another file.
pub mod Braces
pub mod Filled
pub mod Tree
use ai_platform_sdk.Prelude.{
  ℕ, zero, suc, ◌+◌, ◌-◌, Bool, true, false, ◌&&◌, ◌||◌, Option, none, some, List, [], ◌∷◌, ◌++◌,
  map, length, leb, nat_eq, if◌then◌else◌,
}

-- `s.startswith(pattern)`
unfoldable pub begins : List ℕ → List ℕ → Bool
begins [] s = true
begins (a ∷ p) [] = false
begins (a ∷ p) (b ∷ s) = nat_eq a b && begins p s

-- `pattern in s`
unfoldable pub is_within : List ℕ → List ℕ → Bool
unfolding begins
is_within p [] = begins p []
is_within p (c ∷ s) = begins p (c ∷ s) || is_within p s

-- `s.replace(pattern, text)` for a pattern that is not empty, behind so many characters that belong
-- to the last match.
unfoldable pub replace : List ℕ → List ℕ → ℕ → List ℕ → List ℕ
unfolding begins
replace pattern_text text skip [] = []
replace pattern_text text zero (c ∷ s) =
    let matched = text ++ replace pattern_text text (length pattern_text - 1) s in
    let kept = c ∷ replace pattern_text text zero s in
    if begins pattern_text (c ∷ s) then matched else kept
replace pattern_text text (suc skip) (c ∷ s) = replace pattern_text text skip s

-- `s.upper()` and `s.lower()` of one letter
abbrev pub upper : ℕ → ℕ
upper c = if leb b'a' c && leb c b'z' then c - 32 else c

abbrev pub lower : ℕ → ℕ
lower c = if leb b'A' c && leb c b'Z' then c + 32 else c

abbrev pub capitalize : List ℕ → List ℕ
capitalize [] = []
capitalize (c ∷ s) = upper c ∷ map lower s

-- `"".join(part.capitalize() for part in s.split("-"))`, behind the letters of the first part that
-- have been read.
unfoldable pub cap_parts : List ℕ → List ℕ → List ℕ
cap_parts part [] = capitalize part
cap_parts part (c ∷ s) =
    let ended = capitalize part ++ cap_parts [] s in
    let longer = cap_parts (part ++ (c ∷ [])) s in if nat_eq c b'-' then ended else longer

abbrev pub cap_words : List ℕ → List ℕ
cap_words name = cap_parts [] name

abbrev pub dash_to_line : ℕ → ℕ
dash_to_line c = if nat_eq c b'-' then b'_' else c

-- `name.upper().replace("-", "_")`
abbrev pub shout : List ℕ → List ℕ
shout name = map dash_to_line (map upper name)

-- What stands for the name in a template.
pub data Placeholder : Type 0 where
  all_caps : Placeholder
  capitals : Placeholder
  as_given : Placeholder

abbrev pub word : Placeholder → List ℕ
word all_caps = b'N' ∷ b'A' ∷ b'M' ∷ b'E' ∷ []
word capitals = b'N' ∷ b'a' ∷ b'm' ∷ b'e' ∷ []
word as_given = b'n' ∷ b'a' ∷ b'm' ∷ b'e' ∷ []

-- `{{NAME}}`, `{{Name}}` and `{{name}}`
abbrev pub written : Placeholder → List ℕ
written p = b'{' ∷ b'{' ∷ (word p ++ (b'}' ∷ b'}' ∷ []))

-- `_substitute`
unfoldable pub substitute_name : List ℕ → List ℕ → List ℕ
unfolding replace cap_parts
substitute_name text name =
    replace (written as_given) name 0 (
      replace (written capitals) (cap_words name) 0
        (replace (written all_caps) (shout name) 0 text))

-- A directory of a template; a file that does not decode has no text.
mutual
  pub data Node : Type 0 where
    file : List ℕ → Option (List ℕ) → Node
    folder : List ℕ → Nodes → Node

  pub data Nodes : Type 0 where
    nothing : Nodes
    entry : Node → Nodes → Nodes

-- The second pass on one name.
unfoldable pub renamed : List ℕ → List ℕ → List ℕ
unfolding is_within substitute_name
renamed name n =
    if is_within (written as_given) n
      || is_within (written capitals) n
      || is_within (written all_caps) n
    then substitute_name n name
    else n

abbrev pub rewritten : List ℕ → Option (List ℕ) → Option (List ℕ)
rewritten name none = none
rewritten name (some text) = some (substitute_name text name)

unfoldable mutual
  unfolding renamed substitute_name

  pub render_node : List ℕ → Node → Node
  render_node name (file n text) = file (renamed name n) (rewritten name text)
  render_node name (folder n ns) = folder (renamed name n) (render_nodes name ns)

  pub render_nodes : List ℕ → Nodes → Nodes
  render_nodes name nothing = nothing
  render_nodes name (entry n ns) = entry (render_node name n) (render_nodes name ns)

-- `_render_tree`: `none` is the refusal to overwrite a target that exists.
unfoldable pub render_tree : Bool → List ℕ → Nodes → Option Nodes
unfolding render_nodes
render_tree exists name template = if exists then none else some (render_nodes name template)
