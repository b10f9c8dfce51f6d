-- ===== src/Config/Text/Laws.antt =====
-- What `_substitute` of platform_sdk/config/loader.py does with one text.
use Prim.Native.Char.{Char}
use ai_platform_sdk.Prelude.{
  ℕ, zero, suc, ◌≤◌, ◌<◌, ◌≡◌, refl, ap, Bool, false, ◌&&◌, Option, none, some, List, [], ◌∷◌, ◌++◌,
  map, arith, length, if◌then◌else◌, Bool-cases, inl, inr, All, keep,
}
use ai_platform_sdk.Config.Text.{
  is, Piece, char, sentinel, mark, unmark, continues_name, starts_name, prepend, name_rest,
  match_var, missing, unresolved, is_none, kept, resolved, round, sub, substitute_text,
}

-- What follows a match is shorter than what was matched.
abbrev pub Shorter : List Piece → Option (List Char × List Piece) → Type 0
Shorter ps none = Unit
Shorter ps (some (n, rest)) = length rest < length ps

Shorter-prepend :
    (p : Piece) (ps : List Piece) (c : Char) (o : Option (List Char × List Piece))
    → Shorter ps o
    → Shorter (p ∷ ps) (prepend c o)
Shorter-prepend p ps c none h = tt
Shorter-prepend p ps c (some (n, rest)) h = omega arith

name_rest-Shorter : (ps : List Piece) → Shorter ps (name_rest ps)
unfolding name_rest
name_rest-Shorter [] = tt
name_rest-Shorter (sentinel ∷ ps) = tt
name_rest-Shorter (char c ∷ ps) = elim (Bool-cases (is c b'}')) [
  | inl ends ↦ rw ends (omega arith)
  | inr more ↦ elim (Bool-cases (continues_name c)) [
    | inl goes ↦
        rw (more, goes) (Shorter-prepend (char c) ps c (name_rest ps) (name_rest-Shorter ps))
    | inr stops ↦ rw (more, stops) tt
  ]
]

two_more :
    (p q : Piece) (ps : List Piece) (o : Option (List Char × List Piece))
    → Shorter ps o
    → Shorter (p ∷ q ∷ ps) o
two_more p q ps none h = tt
two_more p q ps (some (n, rest)) h = omega arith

pub match_var-Shorter : (ps : List Piece) → Shorter ps (match_var ps)
unfolding match_var
match_var-Shorter (char d ∷ char b ∷ char c ∷ ps) =
    elim (Bool-cases (is d b'$' && is b b'{' && starts_name c)) [
      | inl found ↦ rw found (
          two_more (char d) (char b) (char c ∷ ps) (prepend c (name_rest ps))
            (Shorter-prepend (char c) ps c (name_rest ps) (name_rest-Shorter ps)))
      | inr other ↦ rw other tt
    ]
match_var-Shorter _ = tt

module _ (environ : List Char → Option (List Char)) where
  -- A piece of fuel for every piece of the text is enough: more fuel changes nothing.
  pub sub_enough :
      (f g : ℕ) (ps : List Piece)
      → length ps ≤ f
      → length ps ≤ g
      → sub environ f ps ≡ sub environ g ps
  unfolding sub
  sub_enough zero zero ps hf hg = refl
  sub_enough zero (suc g) [] hf hg = refl
  sub_enough zero (suc g) (p ∷ ps) hf hg = absurd (omega arith)
  sub_enough (suc f) zero [] hf hg = refl
  sub_enough (suc f) zero (p ∷ ps) hf hg = absurd (omega arith)
  sub_enough (suc f) (suc g) [] hf hg = refl
  sub_enough (suc f) (suc g) (p ∷ ps) hf hg =
      go (match_var (p ∷ ps)) (match_var-Shorter (p ∷ ps))
        (λ rest h. sub_enough f g rest (omega arith) (omega arith))
    where
      go :
          (o : Option (List Char × List Piece))
          → Shorter (p ∷ ps) o
          → ((rest : List Piece)
              → length rest ≤ length ps
              → sub environ f rest ≡ sub environ g rest)
          → round environ (sub environ f) p ps o ≡ round environ (sub environ g) p ps o
      go none h same = ap (kept environ p) (same ps (omega arith))
      go (some (name, rest)) h same = ap (resolved environ name) (same rest (omega arith))

  -- Whether the environment lacks a name.
  abbrev pub unset : List Char → Bool
  unset name = is_none (environ name)

  missing_named :
      (name : List Char) (rest names : List (List Char))
      → rest ≡ keep unset names
      → missing environ name ++ rest ≡ keep unset (name ∷ names)
  unfolding keep
  missing_named name rest names h = go (environ name)
    where
      go :
          (o : Option (List Char))
          → unresolved name o ++ rest
            ≡ (if is_none o then name ∷ keep unset names else keep unset names)
      go none = ap (name ∷◌) h
      go (some v) = h

  missing_names :
      (f : ℕ) (ps : List Piece) → (sub environ f ps).1 ≡ keep unset (sub (λ _. none) f ps).1
  unfolding sub
  missing_names zero ps = unfold keep in refl
  missing_names (suc f) [] = unfold keep in refl
  missing_names (suc f) (p ∷ ps) = go (match_var (p ∷ ps)) (missing_names f)
    where
      go :
          (o : Option (List Char × List Piece))
          → ((rest : List Piece) → (sub environ f rest).1 ≡ keep unset (sub (λ _. none) f rest).1)
          → (round environ (sub environ f) p ps o).1
            ≡ keep unset (round (λ _. none) (sub (λ _. none) f) p ps o).1
      go none same = same ps
      go (some (name, rest)) same =
          missing_named name (sub environ f rest).1 (sub (λ _. none) f rest).1 (same rest)

  -- The names reported are the unset ones among all the names the text refers to, in the order
  -- of the references, a repeated one once for each reference; the names it refers to are those
  -- reported when nothing is set.
  pub substitute_text_reports :
      (s : List Char) → (substitute_text environ s).1 ≡ keep unset (substitute_text (λ _. none) s).1
  unfolding substitute_text
  substitute_text_reports s = missing_names (length (mark s)) (mark s)

  -- `$$` is an escape: it becomes one `$`, takes part in no reference, and what follows it is
  -- substituted as it would be alone.
  pub substitute_text_escape :
      (s : List Char)
      → substitute_text environ ("$" ∷ "$" ∷ s)
        ≡ ("$" ∷ (substitute_text environ s).0, (substitute_text environ s).1)
  unfolding substitute_text mark unmark sub match_var
  substitute_text_escape s = refl

  plain_mark : (s : List Char) → All (λ c. is c b'$' ≡ false) s → mark s ≡ map char s
  unfolding mark
  plain_mark [] h = refl
  plain_mark (c ∷ []) h = refl
  plain_mark (c ∷ d ∷ s) (hc, h) = rw hc (ap (char c ∷◌) (plain_mark (d ∷ s) h))

  plain_match : (s : List Char) → All (λ c. is c b'$' ≡ false) s → match_var (map char s) ≡ none
  unfolding match_var
  plain_match (d ∷ b ∷ c ∷ s) (hd, h) = rw hd refl
  plain_match [] h = refl
  plain_match (d ∷ []) h = refl
  plain_match (d ∷ b ∷ []) h = refl

  plain_sub :
      (f : ℕ) (s : List Char)
      → All (λ c. is c b'$' ≡ false) s
      → length (map char s) ≤ f
      → sub environ f (map char s) ≡ (map char s, [])
  unfolding sub
  plain_sub zero [] h enough = refl
  plain_sub zero (c ∷ s) h enough = absurd (omega arith)
  plain_sub (suc f) [] h enough = refl
  plain_sub (suc f) (c ∷ s) (hc, h) enough =
      rw (sub, plain_match (c ∷ s) (hc, h))
        (ap (kept environ (char c)) (plain_sub f s h (omega arith)))

  unmark-map : (s : List Char) → unmark (map char s) ≡ s
  unfolding unmark
  unmark-map [] = refl
  unmark-map (c ∷ s) = ap (c ∷◌) (unmark-map s)

  -- A text without `$` is unchanged, and nothing is reported.
  pub substitute_text_plain :
      (s : List Char) → All (λ c. is c b'$' ≡ false) s → substitute_text environ s ≡ (s, [])
  unfolding substitute_text
  substitute_text_plain s h =
      rw (plain_mark s h, plain_sub (length (map char s)) s h (omega arith), unmark-map s) refl
