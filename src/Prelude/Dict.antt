-- ===== src/Prelude/Dict.antt =====
-- Python's `dict` with text keys, in insertion order. Other modules reason by the laws.
use Prim.Native.String.{String}
use mathlib.Core.Path.{◌≡◌, refl}
use mathlib.Core.Bool.{Bool, true, false, ◌||◌}
use mathlib.Core.Option.{Option, none, some}
use mathlib.Core.List.{List, [], ◌∷◌}
use native.Mathlib.Omega.{arith}
use ai_platform_sdk.Prelude.Tests.{◌==◌, eq_iff, if◌then◌else◌}

abbrev pub Dict {ℓ} : Type ℓ → Type ℓ
Dict V = List (String × V)

module _ {ℓ} {V : Type ℓ} where
  -- `d.get(k)`
  unfoldable pub lookup : String → Dict V → Option V
  lookup k [] = none
  lookup k ((j, v) ∷ d) = if k == j then some v else lookup k d

  -- `d[k] = v`: an old key keeps its place, a new one goes to the end.
  unfoldable pub insert : String → V → Dict V → Dict V
  insert k v [] = (k, v) ∷ []
  insert k v ((j, w) ∷ d) = if k == j then (j, v) ∷ d else (j, w) ∷ insert k v d

  -- `{**d, **e}`
  unfoldable pub update : Dict V → Dict V → Dict V
  unfolding insert
  update d [] = d
  update d ((k, v) ∷ e) = update (insert k v d) e

  -- `k in d`
  unfoldable pub has_key : String → Dict V → Bool
  has_key k [] = false
  has_key k ((j, v) ∷ d) = k == j || has_key k d

  -- No key is listed twice.
  abbrev pub NodupKeys : Dict V → Type 0
  NodupKeys [] = Unit
  NodupKeys ((k, v) ∷ d) = (has_key k d ≡ false) × NodupKeys d

  pub lookup-insert :
      (j k : String) (v : V) (d : Dict V)
      → lookup j (insert k v d) ≡ (if j == k then some v else lookup j d)
  unfolding lookup insert
  lookup-insert j k v [] = refl
  lookup-insert j k v ((i, w) ∷ d) =
      ground (arith, eq_iff k j, eq_iff k i, eq_iff j k, eq_iff j i, lookup-insert j k v d)

  pub has_key-insert :
      (j k : String) (v : V) (d : Dict V) → has_key j (insert k v d) ≡ (j == k || has_key j d)
  unfolding has_key insert
  has_key-insert j k v [] = refl
  has_key-insert j k v ((i, w) ∷ d) =
      ground (arith, eq_iff k i, eq_iff j k, eq_iff j i, has_key-insert j k v d)

  pub insert-NodupKeys : (k : String) (v : V) (d : Dict V) → NodupKeys d → NodupKeys (insert k v d)
  unfolding insert has_key
  insert-NodupKeys k v [] u = (refl, tt)
  insert-NodupKeys k v ((j, w) ∷ d) (fresh, u) =
      ground (arith, eq_iff k j, eq_iff j k, insert-NodupKeys k v d u, has_key-insert j k v d)

  pub lookup-nil : (k : String) → lookup k [] ≡ none
  unfolding lookup
  lookup-nil k = refl

  pub lookup-cons :
      (k j : String) (v : V) (d : Dict V)
      → lookup k ((j, v) ∷ d) ≡ (if k == j then some v else lookup k d)
  unfolding lookup
  lookup-cons k j v d = refl

  pub has_key-lookup-none : (k : String) (d : Dict V) → has_key k d ≡ false → lookup k d ≡ none
  unfolding has_key lookup
  has_key-lookup-none k [] h = refl
  has_key-lookup-none k ((j, v) ∷ d) h = ground (arith, has_key-lookup-none k d)

  pub lookup-has_key : (k : String) (d : Dict V) (v : V) → lookup k d ≡ some v → has_key k d ≡ true
  unfolding has_key lookup
  lookup-has_key k [] v h = cc
  lookup-has_key k ((j, w) ∷ d) v h = ground (arith, lookup-has_key k d v)

pub ruleset dict_laws = (lookup-insert, has_key-insert)
