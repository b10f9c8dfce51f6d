-- ===== src/Prelude/Sorting.antt =====
-- `sorted` on texts: by their code points, keeping the order of elements with equal keys.
pub mod Laws
use Prim.Native.Char.{code}
use Prim.Native.String
use ai_platform_sdk.Prelude.{
  ℕ, String, Bool, true, false, List, [], ◌∷◌, ltb, nat_eq, if◌then◌else◌,
}

-- The code points of a text.
unfoldable pub codes : String → List ℕ
codes String.[] = []
codes (String.◌∷◌ c s) = code c ∷ codes s

-- `s <= t` on texts, by their code points.
unfoldable pub at_most : List ℕ → List ℕ → Bool
at_most [] t = true
at_most (a ∷ s) [] = false
at_most (a ∷ s) (b ∷ t) = if nat_eq a b then at_most s t else ltb a b

module _ {ℓ} {A : Type ℓ} (key : A → List ℕ) where
  unfoldable pub place : A → List A → List A
  place x [] = x ∷ []
  place x (y ∷ ys) =
      let rest = place x ys in if at_most (key x) (key y) then x ∷ y ∷ ys else y ∷ rest

  -- `sorted(xs, key=key)`, which keeps the order of elements with equal keys.
  unfoldable pub sort : List A → List A
  unfolding place
  sort [] = []
  sort (x ∷ xs) = place x (sort xs)
