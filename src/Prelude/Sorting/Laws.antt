-- ===== src/Prelude/Sorting/Laws.antt =====
-- `sorted` orders its elements and keeps all of them.
use mathlib.Core.List.{Perm}
use mathlib.Core.List.Perm
use ai_platform_sdk.Prelude.{ℕ, ◌≡◌, refl, true, false, List, [], ◌∷◌, arith, Bool-cases, inl, inr}
use ai_platform_sdk.Prelude.Sorting.{at_most, place, sort}

at_most_total : (s t : List ℕ) → at_most s t ≡ false → at_most t s ≡ true
unfolding at_most
at_most_total [] t h = cc
at_most_total (a ∷ s) [] h = refl
at_most_total (a ∷ s) (b ∷ t) h = ground (arith, at_most_total s t)

module _ {ℓ} {A : Type ℓ} (key : A → List ℕ) where
  abbrev pub Ordered : List A → Type 0
  Ordered [] = Unit
  Ordered (x ∷ []) = Unit
  Ordered (x ∷ y ∷ ys) = (at_most (key x) (key y) ≡ true) × Ordered (y ∷ ys)

  place-Ordered : (x : A) (ys : List A) → Ordered ys → Ordered (place key x ys)
  unfolding place
  place-Ordered x [] o = tt
  place-Ordered x (y ∷ []) o = ground (arith, at_most_total (key x) (key y))
  place-Ordered x (y ∷ z ∷ zs) (h, o) =
      ground (arith, at_most_total (key x) (key y), place-Ordered x (z ∷ zs) o)

  pub sort-Ordered : (xs : List A) → Ordered (sort key xs)
  unfolding sort
  sort-Ordered [] = tt
  sort-Ordered (x ∷ xs) = place-Ordered x (sort key xs) (sort-Ordered xs)

  place-perm : (x : A) (ys : List A) → Perm (place key x ys) (x ∷ ys)
  unfolding place
  place-perm x [] = Perm.rfl
  place-perm x (y ∷ ys) = elim (Bool-cases (at_most (key x) (key y))) [
    | inl h ↦ rw h Perm.rfl
    | inr h ↦ rw h (Perm.trans (Perm.cons y (place-perm x ys)) (Perm.swap x y ys))
  ]

  pub sort-perm : (xs : List A) → Perm (sort key xs) xs
  unfolding sort
  sort-perm [] = Perm.rfl
  sort-perm (x ∷ xs) = Perm.trans (place-perm x (sort key xs)) (Perm.cons x (sort-perm xs))
