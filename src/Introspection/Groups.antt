-- ===== src/Introspection/Groups.antt =====
-- The dictionaries by which platform_sdk/schema_introspection.py sorts catalogue rows, in insertion
-- order and with keys of any type that has a Boolean equality.
use mathlib.Core.List.{append_assoc, append-nil}
use ai_platform_sdk.Prelude.{
  ◌≡◌, refl, sym, ◌↔◌, Bool, true, false, not, ◌||◌, List, [], ◌∷◌, ◌++◌, arith, keep, is_empty,
  if◌then◌else◌,
}

pub record Equality {ℓ} (K : Type ℓ) : Type ℓ where
  pub eq : K → K → Bool
  pub eq_iff : (j k : K) → (eq j k ≡ true) ↔ (j ≡ k)

abbrev pub Groups {ℓ} : Type ℓ → Type ℓ → Type ℓ
Groups K V = List (K × List V)

module _ {ℓ} {K V : Type ℓ} (E : Equality K) where
  -- `groups.setdefault(k, []).append(v)`
  unfoldable pub append_to : K → V → Groups K V → Groups K V
  append_to k v [] = (k, v ∷ []) ∷ []
  append_to k v ((j, vs) ∷ groups) =
      let rest = append_to k v groups in
      if E.eq j k then (j, vs ++ (v ∷ [])) ∷ groups else (j, vs) ∷ rest

  -- `groups.get(k, [])`
  unfoldable pub group : K → Groups K V → List V
  group k [] = []
  group k ((j, vs) ∷ groups) = let rest = group k groups in if E.eq j k then vs else rest

  unfoldable pub has_group : K → Groups K V → Bool
  has_group k [] = false
  has_group k ((j, vs) ∷ groups) = E.eq j k || has_group k groups

  abbrev pub NodupGroups : Groups K V → Type 0
  NodupGroups [] = Unit
  NodupGroups ((k, vs) ∷ groups) = (has_group k groups ≡ false) × NodupGroups groups

  -- The loop over the rows.
  unfoldable pub group_onto : (V → K) → List V → Groups K V → Groups K V
  unfolding append_to
  group_onto key [] groups = groups
  group_onto key (v ∷ vs) groups = group_onto key vs (append_to (key v) v groups)

  abbrev pub groups_of : (V → K) → List V → Groups K V
  groups_of key vs = group_onto key vs []

  group-append_to :
      (j k : K) (v : V) (groups : Groups K V)
      → group j (append_to k v groups)
        ≡ (if E.eq k j then group j groups ++ (v ∷ []) else group j groups)
  unfolding group append_to
  group-append_to j k v [] = ground arith
  group-append_to j k v ((i, vs) ∷ groups) =
      ground (arith, E.eq_iff i k, E.eq_iff i j, E.eq_iff k j, group-append_to j k v groups)

  has_group-append_to :
      (j k : K) (v : V) (groups : Groups K V)
      → has_group j (append_to k v groups) ≡ (E.eq k j || has_group j groups)
  unfolding has_group append_to
  has_group-append_to j k v [] = ground arith
  has_group-append_to j k v ((i, vs) ∷ groups) =
      ground (arith, E.eq_iff i k, E.eq_iff i j, E.eq_iff k j, has_group-append_to j k v groups)

  append_to-NodupGroups :
      (k : K) (v : V) (groups : Groups K V)
      → NodupGroups groups
      → NodupGroups (append_to k v groups)
  unfolding append_to has_group
  append_to-NodupGroups k v [] u = (refl, tt)
  append_to-NodupGroups k v ((i, vs) ∷ groups) (fresh, u) = ground (
    arith,
    E.eq_iff i k,
    E.eq_iff k i,
    append_to-NodupGroups k v groups u,
    has_group-append_to i k v groups,
  )

  group-group_onto :
      (key : V → K) (j : K) (vs : List V) (groups : Groups K V)
      → group j (group_onto key vs groups) ≡ group j groups ++ keep (λ v. E.eq (key v) j) vs
  unfolding group_onto keep
  group-group_onto key j [] groups = sym (append-nil (group j groups))
  group-group_onto key j (v ∷ vs) groups = ground (
    arith,
    group-group_onto key j vs (append_to (key v) v groups),
    group-append_to j (key v) v groups,
    append_assoc (group j groups) (v ∷ []) (keep (λ w. E.eq (key w) j) vs),
  )

  pub group-groups_of :
      (key : V → K) (j : K) (vs : List V)
      → group j (groups_of key vs) ≡ keep (λ v. E.eq (key v) j) vs
  unfolding group
  group-groups_of key j vs = group-group_onto key j vs []

  group_onto-NodupGroups :
      (key : V → K) (vs : List V) (groups : Groups K V)
      → NodupGroups groups
      → NodupGroups (group_onto key vs groups)
  unfolding group_onto
  group_onto-NodupGroups key [] groups u = u
  group_onto-NodupGroups key (v ∷ vs) groups u =
      group_onto-NodupGroups key vs (append_to (key v) v groups)
        (append_to-NodupGroups (key v) v groups u)

  pub groups_of-NodupGroups : (key : V → K) (vs : List V) → NodupGroups (groups_of key vs)
  groups_of-NodupGroups key vs = group_onto-NodupGroups key vs [] tt

  has_group-group_onto :
      (key : V → K) (j : K) (vs : List V) (groups : Groups K V)
      → has_group j (group_onto key vs groups)
        ≡ (has_group j groups || not (is_empty (keep (λ v. E.eq (key v) j) vs)))
  unfolding group_onto keep
  has_group-group_onto key j [] groups = ground arith
  has_group-group_onto key j (v ∷ vs) groups = ground (
    arith,
    has_group-group_onto key j vs (append_to (key v) v groups),
    has_group-append_to j (key v) v groups,
  )

  pub has_group-groups_of :
      (key : V → K) (j : K) (vs : List V)
      → has_group j (groups_of key vs) ≡ not (is_empty (keep (λ v. E.eq (key v) j) vs))
  unfolding has_group
  has_group-groups_of key j vs = has_group-group_onto key j vs []
