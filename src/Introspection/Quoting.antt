-- ===== src/Introspection/Quoting.antt =====
-- What a database reads where platform_sdk/schema_introspection.py writes a quoted identifier.
use Prim.Native.Char.{Char}
use text.Mathlib.TextLemmas.{cons-append, nil-append, append_assoc}
use ai_platform_sdk.Prelude.{
  String, ◌<>◌, ◌≡◌, refl, ap, ◌∙◌, Bool, true, false, Option, none, some, Bool-cases, inl, inr,
  if◌then◌else◌,
}
use ai_platform_sdk.Introspection.{is_quote, double_quotes, qident}

abbrev pub cons_name : Char → Option (String × String) → Option (String × String)
cons_name c none = none
cons_name c (some (name, rest)) = some (String.◌∷◌ c name, rest)

-- SQL's reading of a quoted identifier behind its opening quote: two quotes are one of the name, a
-- single quote ends it. The name, and what follows the identifier.
unfoldable pub read_quoted : String → Option (String × String)
read_quoted String.[] = none
read_quoted (String.◌∷◌ c String.[]) = if is_quote c then some ("", "") else none
read_quoted (String.◌∷◌ c (String.◌∷◌ d s)) =
    let doubled = cons_name c (read_quoted s) in
    let plain = cons_name c (read_quoted (String.◌∷◌ d s)) in
    if is_quote c then (if is_quote d then doubled else some ("", String.◌∷◌ d s)) else plain

unfoldable pub read_ident : String → Option (String × String)
unfolding read_quoted
read_ident String.[] = none
read_ident (String.◌∷◌ c s) = if is_quote c then read_quoted s else none

abbrev pub starts_with_quote : String → Bool
starts_with_quote String.[] = false
starts_with_quote (String.◌∷◌ c s) = is_quote c

read_plain :
    (c : Char) (t : String)
    → is_quote c ≡ false
    → read_quoted (String.◌∷◌ c t) ≡ cons_name c (read_quoted t)
unfolding read_quoted
read_plain c String.[] h = rw h refl
read_plain c (String.◌∷◌ d t) h = rw h refl

read_doubled :
    (c : Char) (t : String)
    → is_quote c ≡ true
    → read_quoted (String.◌∷◌ c (String.◌∷◌ c t)) ≡ cons_name c (read_quoted t)
unfolding read_quoted
read_doubled c t h = rw h refl

read_end :
    (t : String) → starts_with_quote t ≡ false → read_quoted (String.◌∷◌ "\"" t) ≡ some ("", t)
unfolding read_quoted
read_end String.[] h = refl
read_end (String.◌∷◌ d t) h = rw h refl

quote_append : (t : String) → "\"" <> t ≡ String.◌∷◌ "\"" t
quote_append t = cons-append "\"" "" t ∙ ap (λ s. String.◌∷◌ "\"" s) (nil-append t)

read_name :
    (s t : String)
    → starts_with_quote t ≡ false
    → read_quoted (double_quotes s <> (String.◌∷◌ "\"" t)) ≡ some (s, t)
unfolding double_quotes
read_name String.[] t h = rw nil-append (read_end t h)
read_name (String.◌∷◌ c s) t h =
    let after = String.◌∷◌ "\"" t in
    elim (Bool-cases (is_quote c)) [
      | inl quote ↦
          rw
            (
              quote,
              cons-append,
              cons-append,
              read_doubled c (double_quotes s <> after) quote,
              read_name s t h,
            )
            refl
      | inr other ↦
          rw (other, cons-append, read_plain c (double_quotes s <> after) other, read_name s t h)
            refl
    ]

-- No identifier breaks out of its quotes: whatever characters a name has, the database reads back
-- exactly that name from its quoted form, and goes on with the text that follows it, if that does
-- not begin with a quote.
pub read_ident-qident :
    (s t : String) → starts_with_quote t ≡ false → read_ident (qident s <> t) ≡ some (s, t)
unfolding read_ident qident
read_ident-qident s t h = rw (cons-append, append_assoc, quote_append t) (read_name s t h)
