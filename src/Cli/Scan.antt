-- ===== src/Cli/Scan.antt =====
-- `_VAR_REF_RE.findall` of platform_sdk/cli/main.py on a text and on a part of it.
use Prim.Native.Char.{Char}
use ai_platform_sdk.Prelude.{
  ℕ, zero, suc, ◌≤◌, ◌≡◌, refl, ap, ◌∙◌, subst, false, ◌&&◌, Option, none, some, List, [], ◌∷◌,
  ◌++◌, length, arith, All, Bool-cases, inl, inr,
}
use ai_platform_sdk.Config.Text.{
  is, Piece, char, sentinel, name_rest, match_var, prepend, starts_name, continues_name, sub, round,
}
use ai_platform_sdk.Config.Text.Laws.{Shorter, match_var-Shorter, sub_enough}
use ai_platform_sdk.Cli.{found, find_all}

found-round :
    (run : List Piece → List (List Char)) (fuel : ℕ) (p : Piece) (ps : List Piece)
    (o : Option (List Char × List Piece))
    → ((rest : List Piece) → run rest ≡ (sub (λ n. none) fuel rest).1)
    → found run ps o ≡ (round (λ n. none) (sub (λ n. none) fuel) p ps o).1
found-round run fuel p ps none h = h ps
found-round run fuel p ps (some (name, rest)) h = ap (λ r. name ∷ r) (h rest)

-- The regular expression finds what the substitution meets.
pub find_all-sub : (fuel : ℕ) (ps : List Piece) → find_all fuel ps ≡ (sub (λ n. none) fuel ps).1
unfolding find_all sub
find_all-sub zero ps = refl
find_all-sub (suc fuel) [] = refl
find_all-sub (suc fuel) (p ∷ ps) =
    found-round (find_all fuel) fuel p ps (match_var (p ∷ ps)) (λ rest. find_all-sub fuel rest)

-- The names that are found, with as much fuel as there are pieces.
abbrev pub names : List Piece → List (List Char)
names ps = find_all (length ps) ps

find_all_enough : (fuel : ℕ) (ps : List Piece) → length ps ≤ fuel → find_all fuel ps ≡ names ps
find_all_enough fuel ps enough =
    rw (find_all-sub fuel ps, find_all-sub (length ps) ps)
      (ap (λ r. r.1) (sub_enough (λ n. none) fuel (length ps) ps enough (omega arith)))

names_step : (p : Piece) (ps : List Piece) → names (p ∷ ps) ≡ found names ps (match_var (p ∷ ps))
unfolding find_all
names_step p ps = go (match_var (p ∷ ps)) (match_var-Shorter (p ∷ ps))
  where
    go :
        (o : Option (List Char × List Piece))
        → Shorter (p ∷ ps) o
        → found (find_all (length ps)) ps o ≡ found names ps o
    go none h = refl
    go (some (name, rest)) h = ap (name ∷◌) (find_all_enough (length ps) rest (omega arith))

match_other : (c : Char) (ps : List Piece) → is c b'$' ≡ false → match_var (char c ∷ ps) ≡ none
unfolding match_var
match_other c [] h = refl
match_other c (sentinel ∷ ps) h = refl
match_other c (char b ∷ []) h = refl
match_other c (char b ∷ sentinel ∷ ps) h = refl
match_other c (char b ∷ char e ∷ ps) h = rw h refl

skip_char : (c : Char) (ps : List Piece) → is c b'$' ≡ false → names (char c ∷ ps) ≡ names ps
skip_char c ps h = names_step (char c) ps ∙ ap (found names ps) (match_other c ps h)

-- What is found is found behind a match.
abbrev Skips : List Piece → Option (List Char × List Piece) → Type 0
Skips ps none = Unit
Skips ps (some (n, rest)) = names ps ≡ names rest

Skips-front :
    (c : Char) (ps : List Piece) (o : Option (List Char × List Piece))
    → is c b'$' ≡ false
    → Skips ps o
    → Skips (char c ∷ ps) o
Skips-front c ps none h s = tt
Skips-front c ps (some (n, rest)) h s = skip_char c ps h ∙ s

Skips-prepend :
    (c : Char) (ps : List Piece) (o : Option (List Char × List Piece))
    → Skips ps o
    → Skips ps (prepend c o)
Skips-prepend c ps none s = tt
Skips-prepend c ps (some (n, rest)) s = s

skip_name : (ps : List Piece) → Skips ps (name_rest ps)
unfolding name_rest
skip_name [] = tt
skip_name (sentinel ∷ ps) = tt
skip_name (char c ∷ ps) = elim (Bool-cases (is c b'}')) [
  | inl ends ↦ rw ends (skip_char c ps (ground arith))
  | inr more ↦ elim (Bool-cases (continues_name c)) [
    | inl goes ↦
        rw (more, goes)
          (Skips-prepend c (char c ∷ ps) (name_rest ps)
            (Skips-front c ps (name_rest ps) (ground arith) (skip_name ps)))
    | inr stops ↦ rw (more, stops) tt
  ]
]

skip_match : (p : Piece) (ps : List Piece) → Skips ps (match_var (p ∷ ps))
unfolding match_var
skip_match (char d) (char b ∷ char c ∷ ps) =
    elim (Bool-cases (is d b'$' && is b b'{' && starts_name c)) [
      | inl found ↦ rw found (
          Skips-prepend c (char b ∷ char c ∷ ps) (name_rest ps) (
            Skips-front b (char c ∷ ps) (name_rest ps) (ground arith)
              (Skips-front c ps (name_rest ps) (ground arith) (skip_name ps))))
      | inr other ↦ rw other tt
    ]
skip_match _ _ = tt

-- A match goes on as it did where the text is longer.
abbrev Extends :
    List Piece → Option (List Char × List Piece) → Option (List Char × List Piece) → Type 0
Extends post longer none = Unit
Extends post longer (some (n, rest)) = longer ≡ some (n, rest ++ post)

Extends-prepend :
    (post : List Piece) (c : Char) (longer o : Option (List Char × List Piece))
    → Extends post longer o
    → Extends post (prepend c longer) (prepend c o)
Extends-prepend post c longer none h = tt
Extends-prepend post c longer (some (n, rest)) h = ap (prepend c) h

name_rest-append : (post ps : List Piece) → Extends post (name_rest (ps ++ post)) (name_rest ps)
unfolding name_rest
name_rest-append post [] = tt
name_rest-append post (sentinel ∷ ps) = tt
name_rest-append post (char c ∷ ps) = elim (Bool-cases (is c b'}')) [
  | inl ends ↦ rw ends refl
  | inr more ↦ elim (Bool-cases (continues_name c)) [
    | inl goes ↦
        rw (more, goes)
          (Extends-prepend post c (name_rest (ps ++ post)) (name_rest ps)
            (name_rest-append post ps))
    | inr stops ↦ rw (more, stops) tt
  ]
]

match_var-append : (post ps : List Piece) → Extends post (match_var (ps ++ post)) (match_var ps)
unfolding match_var
match_var-append post (char d ∷ char b ∷ char c ∷ ps) =
    elim (Bool-cases (is d b'$' && is b b'{' && starts_name c)) [
      | inl found ↦ rw found (
          Extends-prepend post c (name_rest (ps ++ post)) (name_rest ps) (name_rest-append post ps))
      | inr other ↦ rw other tt
    ]
match_var-append post _ = tt

module _ (P : List Char → Type 0) where
  names_tail : (p : Piece) (ps : List Piece) → All P (names (p ∷ ps)) → All P (names ps)
  names_tail p ps a = go (match_var (p ∷ ps)) (skip_match p ps) (rw (← names_step p ps) a)
    where
      go :
          (o : Option (List Char × List Piece))
          → Skips ps o
          → All P (found names ps o)
          → All P (names ps)
      go none s all = all
      go (some (n, rest)) s (first, all) = rw s all

  -- What is found in the second part of a text is found in the text.
  pub names-behind : (pre ps : List Piece) → All P (names (pre ++ ps)) → All P (names ps)
  names-behind [] ps a = a
  names-behind (p ∷ pre) ps a = names-behind pre ps (names_tail p (pre ++ ps) a)

  names_before :
      (post : List Piece) (fuel : ℕ) (ps : List Piece)
      → length ps ≤ fuel
      → All P (names (ps ++ post))
      → All P (names ps)
  unfolding find_all
  names_before post fuel [] h a = tt
  names_before post zero (p ∷ ps) h a = absurd (omega arith)
  names_before post (suc fuel) (p ∷ ps) h a = rw (names_step p ps) (
      go (match_var (p ∷ ps)) (match_var-Shorter (p ∷ ps)) (match_var-append post (p ∷ ps))
        (names_before post fuel))
    where
      go :
          (o : Option (List Char × List Piece))
          → Shorter (p ∷ ps) o
          → Extends post (match_var (p ∷ (ps ++ post))) o
          → ((rest : List Piece)
              → length rest ≤ fuel
              → All P (names (rest ++ post))
              → All P (names rest))
          → All P (found names ps o)
      go none s e shorter = shorter ps (omega arith) (names_tail p (ps ++ post) a)
      go (some (n, rest)) s e shorter =
          let scanned : All P (found names (ps ++ post) (match_var (p ∷ (ps ++ post)))) =
            rw (← names_step p (ps ++ post)) a in
          let both = subst (λ o. All P (found names (ps ++ post) o)) e scanned in
          (both.0, shorter rest (omega arith) both.1)

  -- What is found in a part of a text is found in the text.
  pub names-part :
      (pre ps post : List Piece) → All P (names (pre ++ (ps ++ post))) → All P (names ps)
  names-part pre ps post a =
      names_before post (length ps) ps (omega arith) (names-behind pre (ps ++ post) a)
