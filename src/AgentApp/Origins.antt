-- ===== src/AgentApp/Origins.antt =====
-- `add_cors` of platform_sdk/fastapi_app/base.py, and which origins may send credentials.
use Prim.Native.Char.{code}
use ai_platform_sdk.Prelude.{
  String, ◌≡◌, refl, Bool, true, false, not, ◌&&◌, ◌||◌, Option, none, some, List, [], ◌∷◌, arith,
  nat_eq, ◌==◌, eq_iff, strip, cons_head, contains, Bool-cases, inl, inr, if◌then◌else◌,
}

-- `s.split(",")`
unfoldable pub split_commas : String → List String
unfolding cons_head
split_commas String.[] = String.[] ∷ []
split_commas (String.◌∷◌ c s) =
    let rest = split_commas s in if nat_eq (code c) b',' then String.[] ∷ rest else cons_head c rest

unfoldable pub stripped : List String → List String
unfolding strip
stripped [] = []
stripped (o ∷ os) = let rest = stripped os in if strip o == "" then rest else strip o ∷ rest

pub record Cors : Type 0 where
  pub allow_origins : List String
  pub allow_credentials : Bool

-- `add_cors`, on `os.getenv("ALLOWED_ORIGINS")`
unfoldable pub add_cors : Option String → Cors
unfolding split_commas stripped
add_cors none = record { allow_origins = "*" ∷ []; allow_credentials = false }
add_cors (some raw) =
    if not (raw == "") && not (raw == "*")
    then record { allow_origins = stripped (split_commas raw); allow_credentials = true }
    else record { allow_origins = "*" ∷ []; allow_credentials = false }

-- Some part of the text is the wildcard, with spaces around it or not.
abbrev pub any_wildcard : List String → Bool
any_wildcard [] = false
any_wildcard (p ∷ ps) = strip p == "*" || any_wildcard ps

-- The setting names the wildcard among other things.
abbrev pub hides_wildcard : Option String → Bool
hides_wildcard none = false
hides_wildcard (some raw) = not (raw == "*") && any_wildcard (split_commas raw)

same_text : (s t : String) → (s == t) ≡ (t == s)
same_text s t = ground (arith, eq_iff s t, eq_iff t s)

keep_wildcard :
    (o : String) (os : List String) (b : Bool)
    → contains os "*" ≡ b
    → contains (if o == "" then os else o ∷ os) "*" ≡ (o == "*" || b)
unfolding contains
keep_wildcard o os b h = elim (Bool-cases (o == "")) [
  | inl e ↦ rw ((eq_iff o "").0 e) h
  | inr e ↦ rw (e, same_text o "*", h) refl
]

contains-stripped-wildcard :
    (parts : List String) → contains (stripped parts) "*" ≡ any_wildcard parts
unfolding contains stripped
contains-stripped-wildcard [] = refl
contains-stripped-wildcard (p ∷ ps) =
    keep_wildcard (strip p) (stripped ps) (any_wildcard ps) (contains-stripped-wildcard ps)

contains-stripped-empty : (parts : List String) → contains (stripped parts) "" ≡ false
unfolding contains stripped
contains-stripped-empty [] = refl
contains-stripped-empty (p ∷ ps) =
    ground (arith, contains-stripped-empty ps, eq_iff (strip p) "", eq_iff "" (strip p))

-- Credentials are allowed together with every origin exactly if the setting names the wildcard
-- among other things, such as a comma or a space, and never if it is unset or the wildcard alone.
-- No origin is the empty text.
pub add_cors_wildcard :
    (raw : Option String)
    → let c = add_cors raw in
      ((c.allow_credentials && contains c.allow_origins "*") ≡ hides_wildcard raw)
      × (contains c.allow_origins "" ≡ false)
unfolding add_cors split_commas contains
add_cors_wildcard none = (refl, refl)
add_cors_wildcard (some raw) = elim (Bool-cases (raw == "")) [
  | inl e ↦ rw ((eq_iff raw "").0 e) (refl, refl)
  | inr e ↦ rw e (
    ground (arith, contains-stripped-wildcard (split_commas raw)),
    ground (arith, contains-stripped-empty (split_commas raw)),
  )
]
