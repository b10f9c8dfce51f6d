-- ===== src/Cli/Templates/Braces.antt =====
-- Where opening braces stand in the names that platform_sdk/cli/main.py fills in.
use ai_platform_sdk.Prelude.{
  ℕ, ◌≡◌, refl, Bool, true, false, not, ◌&&◌, List, [], ◌∷◌, ◌++◌, map, nat_eq, arith, All,
  Bool-cases, inl, inr,
}
use ai_platform_sdk.Cli.Templates.{upper, lower, capitalize, cap_parts, dash_to_line}

-- Nowhere two opening braces, and none at the end.
unfoldable pub is_plain : List ℕ → Bool
is_plain [] = true
is_plain (c ∷ []) = not (nat_eq b'{' c)
is_plain (c ∷ d ∷ s) = not (nat_eq b'{' c && nat_eq b'{' d) && is_plain (d ∷ s)

-- No opening brace.
abbrev pub Braceless : List ℕ → Type 0
Braceless s = All (λ c. nat_eq b'{' c ≡ false) s

pub Braceless-plain : (s : List ℕ) → Braceless s → is_plain s ≡ true
unfolding is_plain
Braceless-plain [] h = refl
Braceless-plain (c ∷ []) h = ground arith
Braceless-plain (c ∷ d ∷ s) (h, hs) = ground (arith, Braceless-plain (d ∷ s) hs)

pub map-Braceless :
    (f : ℕ → ℕ) (s : List ℕ)
    → ((c : ℕ) → nat_eq b'{' c ≡ false → nat_eq b'{' (f c) ≡ false)
    → Braceless s
    → Braceless (map f s)
map-Braceless f [] ok h = tt
map-Braceless f (c ∷ s) ok (h, hs) = (ok c h, map-Braceless f s ok hs)

pub upper_ok : (c : ℕ) → nat_eq b'{' c ≡ false → nat_eq b'{' (upper c) ≡ false
upper_ok c h = ground arith

lower_ok : (c : ℕ) → nat_eq b'{' c ≡ false → nat_eq b'{' (lower c) ≡ false
lower_ok c h = ground arith

pub dash_ok : (c : ℕ) → nat_eq b'{' c ≡ false → nat_eq b'{' (dash_to_line c) ≡ false
dash_ok c h = ground arith

append-Braceless : (s t : List ℕ) → Braceless s → Braceless t → Braceless (s ++ t)
append-Braceless [] t h k = k
append-Braceless (c ∷ s) t (h, hs) k = (h, append-Braceless s t hs k)

capitalize-Braceless : (s : List ℕ) → Braceless s → Braceless (capitalize s)
capitalize-Braceless [] h = tt
capitalize-Braceless (c ∷ s) (h, hs) = (upper_ok c h, map-Braceless lower s lower_ok hs)

pub cap_parts-Braceless :
    (part s : List ℕ) → Braceless part → Braceless s → Braceless (cap_parts part s)
unfolding cap_parts
cap_parts-Braceless part [] h k = capitalize-Braceless part h
cap_parts-Braceless part (c ∷ s) h (k, ks) = elim (Bool-cases (nat_eq c b'-')) [
  | inl e ↦ rw e (
      append-Braceless (capitalize part) (cap_parts [] s) (capitalize-Braceless part h)
        (cap_parts-Braceless [] s tt ks))
  | inr e ↦
      rw e (cap_parts-Braceless (part ++ (c ∷ [])) s (append-Braceless part (c ∷ []) h (k, tt)) ks)
]
