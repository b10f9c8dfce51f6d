-- ===== src/Cli/Templates/Filled.antt =====
-- That the scaffolding of platform_sdk/cli/main.py fills in every placeholder of a template.
use ai_platform_sdk.Prelude.{
  ℕ, ◌≡◌, refl, sym, ap, ◌∙◌, true, false, List, [], ◌∷◌, ◌++◌, map, arith, All,
}
use ai_platform_sdk.Cli.Templates.Braces.{
  is_plain, Braceless, Braceless-plain, map-Braceless, upper_ok, dash_ok, cap_parts-Braceless,
}
use ai_platform_sdk.Cli.Templates.{
  begins, replace, upper, cap_words, dash_to_line, shout, Placeholder, all_caps, capitals, as_given,
  written, substitute_name,
}

-- A template as its author sees it.
pub data Part : Type 0 where
  plain : List ℕ → Part
  place : Placeholder → Part

unfoldable pub template_text : List Part → List ℕ
template_text [] = []
template_text (plain s ∷ ps) = s ++ template_text ps
template_text (place p ∷ ps) = written p ++ template_text ps

-- What is filled in.
abbrev pub spelled : Placeholder → List ℕ → List ℕ
spelled all_caps name = shout name
spelled capitals name = cap_words name
spelled as_given name = name

unfoldable pub filled : List ℕ → List Part → List ℕ
filled name [] = []
filled name (plain s ∷ ps) = s ++ filled name ps
filled name (place p ∷ ps) = spelled p name ++ filled name ps

-- The plain texts are plain.
abbrev pub PlainPart : Part → Type 0
PlainPart (plain s) = is_plain s ≡ true
PlainPart (place p) = Unit

begins-plain :
    (p : Placeholder) (c : ℕ) (s rest : List ℕ)
    → is_plain (c ∷ s) ≡ true
    → begins (written p) (c ∷ s ++ rest) ≡ false
unfolding begins is_plain
begins-plain p c [] rest h = ground arith
begins-plain p c (d ∷ s) rest h = ground arith

plain_tail : (c : ℕ) (s : List ℕ) → is_plain (c ∷ s) ≡ true → is_plain s ≡ true
unfolding is_plain
plain_tail c [] h = refl
plain_tail c (d ∷ s) h = ground arith

replace-plain :
    (p : Placeholder) (text s rest : List ℕ)
    → is_plain s ≡ true
    → replace (written p) text 0 (s ++ rest) ≡ s ++ replace (written p) text 0 rest
unfolding replace
replace-plain p text [] rest h = refl
replace-plain p text (c ∷ s) rest h =
    rw (begins-plain p c s rest h)
      (ap (λ r. c ∷ r) (replace-plain p text s rest (plain_tail c s h)))

-- One call of `replace`, on the parts.
abbrev set_place : Placeholder → List ℕ → Part → Part
set_place p text (plain s) = plain s
set_place all_caps text (place all_caps) = plain text
set_place all_caps text (place capitals) = place capitals
set_place all_caps text (place as_given) = place as_given
set_place capitals text (place all_caps) = place all_caps
set_place capitals text (place capitals) = plain text
set_place capitals text (place as_given) = place as_given
set_place as_given text (place all_caps) = place all_caps
set_place as_given text (place capitals) = place capitals
set_place as_given text (place as_given) = plain text

part_text : Part → List ℕ
part_text (plain s) = s
part_text (place p) = written p

template_text-cons :
    (q : Part) (ps : List Part) → template_text (q ∷ ps) ≡ part_text q ++ template_text ps
unfolding template_text part_text
template_text-cons (plain s) ps = refl
template_text-cons (place p) ps = refl

replace-place :
    (p q : Placeholder) (text rest : List ℕ)
    → replace (written p) text 0 (written q ++ rest)
      ≡ part_text (set_place p text (place q)) ++ replace (written p) text 0 rest
unfolding replace begins part_text
replace-place all_caps all_caps text rest = refl
replace-place all_caps capitals text rest = refl
replace-place all_caps as_given text rest = refl
replace-place capitals all_caps text rest = refl
replace-place capitals capitals text rest = refl
replace-place capitals as_given text rest = refl
replace-place as_given all_caps text rest = refl
replace-place as_given capitals text rest = refl
replace-place as_given as_given text rest = refl

replace-part :
    (p : Placeholder) (text : List ℕ) (q : Part) (rest : List ℕ)
    → PlainPart q
    → replace (written p) text 0 (part_text q ++ rest)
      ≡ part_text (set_place p text q) ++ replace (written p) text 0 rest
unfolding part_text
replace-part p text (plain s) rest h = replace-plain p text s rest h
replace-part p text (place q) rest h = replace-place p q text rest

replace-template :
    (p : Placeholder) (text : List ℕ) (ps : List Part)
    → All PlainPart ps
    → replace (written p) text 0 (template_text ps) ≡ template_text (map (set_place p text) ps)
unfolding replace template_text
replace-template p text [] h = refl
replace-template p text (q ∷ ps) (h, hs) =
    ap (replace (written p) text 0) (template_text-cons q ps)
    ∙ replace-part p text q (template_text ps) h
    ∙ ap (λ r. part_text (set_place p text q) ++ r) (replace-template p text ps hs)
    ∙ sym (template_text-cons (set_place p text q) (map (set_place p text) ps))

set_place-place :
    (p q : Placeholder) (text : List ℕ)
    → is_plain text ≡ true
    → PlainPart (set_place p text (place q))
set_place-place all_caps all_caps text h = h
set_place-place all_caps capitals text h = tt
set_place-place all_caps as_given text h = tt
set_place-place capitals all_caps text h = tt
set_place-place capitals capitals text h = h
set_place-place capitals as_given text h = tt
set_place-place as_given all_caps text h = tt
set_place-place as_given capitals text h = tt
set_place-place as_given as_given text h = h

set_place-PlainPart :
    (p : Placeholder) (text : List ℕ) (ps : List Part)
    → is_plain text ≡ true
    → All PlainPart ps
    → All PlainPart (map (set_place p text) ps)
set_place-PlainPart p text [] e h = tt
set_place-PlainPart p text (plain s ∷ ps) e (h, hs) = (h, set_place-PlainPart p text ps e hs)
set_place-PlainPart p text (place q ∷ ps) e (h, hs) =
    (set_place-place p q text e, set_place-PlainPart p text ps e hs)

spelled-Braceless : (p : Placeholder) (name : List ℕ) → Braceless name → Braceless (spelled p name)
spelled-Braceless all_caps name h =
    map-Braceless dash_to_line (map upper name) dash_ok (map-Braceless upper name upper_ok h)
spelled-Braceless capitals name h = cap_parts-Braceless [] name tt h
spelled-Braceless as_given name h = h

-- The three calls together.
set_places : List ℕ → List Part → List Part
set_places name ps =
    map (set_place as_given name)
      (map (set_place capitals (cap_words name)) (map (set_place all_caps (shout name)) ps))

set_places-filled :
    (name : List ℕ) (ps : List Part) → template_text (set_places name ps) ≡ filled name ps
unfolding template_text filled set_places
set_places-filled name [] = refl
set_places-filled name (plain s ∷ ps) = ap (λ r. s ++ r) (set_places-filled name ps)
set_places-filled name (place all_caps ∷ ps) = ap (λ r. shout name ++ r) (set_places-filled name ps)
set_places-filled name (place capitals ∷ ps) =
    ap (λ r. cap_words name ++ r) (set_places-filled name ps)
set_places-filled name (place as_given ∷ ps) = ap (λ r. name ++ r) (set_places-filled name ps)

-- Every placeholder of a template becomes the spelling of the name that belongs to it, and every
-- other character stays where it is: for a name without an opening brace, and for a template in
-- which no two opening braces stand together, nor one at the end, between the placeholders.
pub substitute_name-filled :
    (name : List ℕ) (ps : List Part)
    → Braceless name
    → All PlainPart ps
    → substitute_name (template_text ps) name ≡ filled name ps
unfolding substitute_name set_places
substitute_name-filled name ps b h =
    let ps1 = map (set_place all_caps (shout name)) ps in
    let ps2 = map (set_place capitals (cap_words name)) ps1 in
    let ok = λ (p : Placeholder). Braceless-plain (spelled p name) (spelled-Braceless p name b) in
    let h1 = set_place-PlainPart all_caps (shout name) ps (ok all_caps) h in
    let h2 = set_place-PlainPart capitals (cap_words name) ps1 (ok capitals) h1 in
    rw
      (
        replace-template all_caps (shout name) ps h,
        replace-template capitals (cap_words name) ps1 h1,
        replace-template as_given name ps2 h2,
      )
      (set_places-filled name ps)
