-- ===== src/Introspection/Relationships/Names.antt =====
-- Which column `_split_qualified` of platform_sdk/schema_introspection.py reads in a text.
use Prim.Native.Char.{Char, code}
use text.Mathlib.TextLemmas.{cons-append, cons-ne-nil}
use ai_platform_sdk.Prelude.{
  ℕ, suc, String, ◌<>◌, ◌≡◌, refl, ◌∙◌, ◌↔◌, ◌≢◌, Bool, true, false, ◌&&◌, none, some, List, [],
  ◌∷◌, map, arith, length, nat_eq, ◌==◌, eq_iff, strip, lstrip, rstrip, split_dots, cons_head,
  has_dot, max, split_dots_single, split_dots-append, if◌then◌else◌, Bool-cases, inl, inr,
}
use ai_platform_sdk.Introspection.Relationships.{
  lstrip_quotes, rstrip_quotes, bare, three, split_qualified,
}

abbrev pub quoted : String → String
quoted p = String.◌∷◌ "\"" (p <> "\"")

-- A name as it is written, with or without double quotes.
abbrev pub written : Bool → String → String
written true p = quoted p
written false p = p

-- A name without a dot that does not begin or end with a space or a double quote.
abbrev pub Plain : String → Type 0
Plain p = (has_dot p ≡ false) × (strip p ≡ p) × (lstrip_quotes p ≡ p) × (rstrip_quotes p ≡ p)

has_dot-end : (p : String) → has_dot (p <> "\"") ≡ has_dot p
unfolding has_dot
has_dot-end String.[] = refl
has_dot-end (String.◌∷◌ c p) = rw cons-append (ground (arith, has_dot-end p))

cons-eq-nil : (c : Char) (s : String) → (String.◌∷◌ c s == "") ≡ false
cons-eq-nil c s = elim (Bool-cases (String.◌∷◌ c s == "")) [
  | inl h ↦ absurd (cons-ne-nil c s (((eq_iff (String.◌∷◌ c s) "").0 h)))
  | inr h ↦ h
]

-- A text that ends with a quote is not empty.
end-ne-nil : (p : String) → ((p <> "\"") == "") ≡ false
end-ne-nil String.[] = refl
end-ne-nil (String.◌∷◌ c p) = rw cons-append (cons-eq-nil c (p <> "\""))

rstrip-end : (p : String) → rstrip (p <> "\"") ≡ p <> "\""
unfolding rstrip
rstrip-end String.[] = refl
rstrip-end (String.◌∷◌ c p) = rw (cons-append, rstrip-end p, end-ne-nil p) refl

rstrip_quotes-end : (p : String) → rstrip_quotes (p <> "\"") ≡ rstrip_quotes p
unfolding rstrip_quotes
rstrip_quotes-end String.[] = refl
rstrip_quotes-end (String.◌∷◌ c p) = rw (cons-append, rstrip_quotes-end p) refl

strip-quoted : (p : String) → strip (quoted p) ≡ quoted p
unfolding strip rstrip lstrip
strip-quoted p = rw (rstrip-end p, end-ne-nil p) refl

bare_quoted :
    (p : String)
    → lstrip_quotes p ≡ p
    → lstrip_quotes (if p == "" && true then "" else String.◌∷◌ "\"" p) ≡ p
unfolding lstrip_quotes
bare_quoted String.[] l = refl
bare_quoted (String.◌∷◌ c p) l = rw (cons-eq-nil c p) l

bare-written : (b : Bool) (p : String) → Plain p → bare (written b p) ≡ p
unfolding bare rstrip_quotes
bare-written false p (dot, s, l, r) = rw (s, r) l
bare-written true p (dot, s, l, r) = rw (strip-quoted p, rstrip_quotes-end p, r) (bare_quoted p l)

has_dot-written : (b : Bool) (p : String) → Plain p → has_dot (written b p) ≡ false
has_dot-written false p (dot, s, l, r) = dot
has_dot-written true p (dot, s, l, r) = unfold has_dot in (has_dot-end p ∙ dot)

-- A column whose schema, table and column are joined by dots is read back, each of the names with
-- or without double quotes, if no name contains a dot or begins or ends with a space or a quote.
pub split_qualified-written :
    (a b c : Bool) (schema table column : String)
    → Plain schema
    → Plain table
    → Plain column
    → split_qualified (written a schema <> "." <> written b table <> "." <> written c column)
      ≡ some (schema, table, column)
unfolding split_qualified
split_qualified-written a b c schema table column hs ht hc =
    rw
      (
        split_dots-append (written a schema) (written b table <> "." <> written c column)
            (has_dot-written a schema hs),
        split_dots-append (written b table) (written c column) (has_dot-written b table ht),
        split_dots_single (written c column) (has_dot-written c column hc),
        bare-written a schema hs,
        bare-written b table ht,
        bare-written c column hc,
      )
      refl

unfoldable pub count_dots : String → ℕ
count_dots String.[] = 0
count_dots (String.◌∷◌ c s) = let n = count_dots s in if nat_eq (code c) b'.' then suc n else n

length-cons_head :
    (c : Char) (parts : List String) → length (cons_head c parts) ≡ max 1 (length parts)
unfolding cons_head
length-cons_head c [] = refl
length-cons_head c (p ∷ ps) = omega arith

length-split_dots : (s : String) → length (split_dots s) ≡ suc (count_dots s)
unfolding split_dots count_dots
length-split_dots String.[] = refl
length-split_dots (String.◌∷◌ c s) =
    ground (arith, length-split_dots s, length-cons_head c (split_dots s))

three-none : (parts : List String) → (three (map bare parts) ≡ none) ↔ (length parts ≢ 3)
three-none [] = ground arith
three-none (a ∷ []) = ground arith
three-none (a ∷ b ∷ []) = ground arith
three-none (a ∷ b ∷ c ∷ []) = ground arith
three-none (a ∷ b ∷ c ∷ d ∷ rest) = ground arith

-- A text is refused exactly if it does not have two dots; the quotes play no part in it.
pub split_qualified-none : (s : String) → (split_qualified s ≡ none) ↔ (count_dots s ≢ 2)
unfolding split_qualified
split_qualified-none s = ground (arith, length-split_dots s, three-none (split_dots s))
