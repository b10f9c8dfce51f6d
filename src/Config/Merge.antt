-- ===== src/Config/Merge.antt =====
-- `_deep_merge` of platform_sdk/config/loader.py.
pub mod Leaves
use ai_platform_sdk.Prelude.{
  String, ◌≡◌, refl, Bool, true, false, Option, none, some, List, [], ◌∷◌, arith, ◌==◌, eq_iff,
  subst, ap, sym, ◌∙◌, inl, inr, Bool-cases,
}
use mathlib.Core.Option.{some-injective}
use ai_platform_sdk.Json
use ai_platform_sdk.Json.{
  Json, Items, Fields, null, bool, nat, negsuc, str, arr, obj, end, field, put, get-put,
}

unfoldable mutual
  -- The loop over the overlay's entries, on the result so far.
  pub deep_merge : Fields → Fields → Fields
  deep_merge out end = out
  deep_merge out (field k v rest) = deep_merge (put k (merge_value (Json.get k out) v) out) rest

  -- Two mappings are merged; every other value of the overlay replaces what there is.
  pub merge_value : Option Json → Json → Json
  merge_value (some (obj b)) (obj o) = obj (deep_merge b o)
  merge_value _ v = v

-- What the merge holds under a key, by what the two mappings hold there.
abbrev pub merge_entry : Option Json → Option Json → Option Json
merge_entry base none = base
merge_entry base (some v) = some (merge_value base v)

-- A key that only the overlay's rest lacks is as it was put.
pub get-deep_merge :
    (out overlay : Fields) (k : String)
    → Json.Unique overlay
    → Json.get k (deep_merge out overlay) ≡ merge_entry (Json.get k out) (Json.get k overlay)
unfolding deep_merge Json.get
get-deep_merge out end k u = refl
get-deep_merge out (field j v rest) k (fresh, u) =
    rw (get-deep_merge (put j (merge_value (Json.get j out) v) out) rest k u, get-put)
      (ground (arith, eq_iff k j, Json.get-eq-none j rest fresh))

-- No key is listed twice, in the mapping or in a mapping below it.
abbrev mutual
  pub DeepUnique : Fields → Type 0
  DeepUnique end = Unit
  DeepUnique (field k v d) = (Json.has k d ≡ false) × DeepUniqueValue v × DeepUnique d

  pub DeepUniqueValue : Json → Type 0
  DeepUniqueValue (obj d) = DeepUnique d
  DeepUniqueValue _ = Unit

-- The value at a path of keys.
unfoldable pub get_path : List String → Json → Option Json
get_path [] v = some v
get_path (k ∷ ks) (obj d) = elim (Json.get k d) [ none ↦ none | some v ↦ get_path ks v ]
get_path (k ∷ ks) v = none

abbrev pub is_mapping : Json → Bool
is_mapping (obj d) = true
is_mapping _ = false

-- The overlay says nothing at a path: on the way down it has mappings, and then no key.
abbrev pub Silent : List String → Option Json → Type 0
Silent ks none = Unit
Silent [] (some v) = ⊥
Silent (k ∷ ks) (some (obj d)) = Silent ks (Json.get k d)
Silent (k ∷ ks) (some _) = ⊥

pub DeepUnique-Unique : (d : Fields) → DeepUnique d → Json.Unique d
DeepUnique-Unique end u = tt
DeepUnique-Unique (field k v d) (fresh, uv, u) = (fresh, DeepUnique-Unique d u)

DeepUnique-get :
    (d : Fields) (k : String) (v : Json) → DeepUnique d → Json.get k d ≡ some v → DeepUniqueValue v
unfolding Json.get
DeepUnique-get end k v u h = cc
DeepUnique-get (field j w d) k v (fresh, uv, u) h = elim (Bool-cases (k == j)) [
  | inl same ↦ subst DeepUniqueValue (some-injective w v (rw same at h)) uv
  | inr other ↦ DeepUnique-get d k v u (rw other at h)
]

-- The value at a path that ends below a key.
path_at : List String → Option Json → Option Json
path_at ks none = none
path_at ks (some v) = get_path ks v

get_path-cons :
    (k : String) (ks : List String) (d : Fields)
    → get_path (k ∷ ks) (obj d) ≡ path_at ks (Json.get k d)
unfolding get_path path_at
get_path-cons k ks d = ground arith

-- One step down: what holds below every value of the overlay's key holds at the path.
wins_step :
    (k : String) (ks : List String) (b o : Fields) (v : Json)
    → DeepUnique o
    → ((w : Json)
        → DeepUniqueValue w
        → get_path ks w ≡ some v
        → get_path ks (merge_value (Json.get k b) w) ≡ some v)
    → get_path (k ∷ ks) (obj o) ≡ some v
    → get_path (k ∷ ks) (obj (deep_merge b o)) ≡ some v
wins_step k ks b o v u below h =
    rw (get_path-cons, get-deep_merge b o k (DeepUnique-Unique o u))
      (go (Json.get k o) refl (rw get_path-cons at h))
  where
    go :
        (x : Option Json)
        → Json.get k o ≡ x
        → path_at ks x ≡ some v
        → path_at ks (merge_entry (Json.get k b) x) ≡ some v
    go none e h = unfold path_at in cc
    go (some w) e h = unfold path_at in below w (DeepUnique-get o k w u e) h

-- A leaf of the overlay, below a value `w` of it, is found below the merged value.
wins_below :
    (ks : List String) (b : Option Json) (w v : Json)
    → DeepUniqueValue w
    → get_path ks w ≡ some v
    → is_mapping v ≡ false
    → get_path ks (merge_value b w) ≡ some v
unfolding deep_merge merge_value
wins_below [] (some (obj b)) (obj o) v u h leaf = unfold get_path in ground arith
wins_below (k ∷ ks) (some (obj b)) (obj o) v u h leaf =
    wins_step k ks b o v u (λ w uw p. wins_below ks (Json.get k b) w v uw p leaf) h
wins_below ks b w v u h leaf = h

-- The overlay wins: a value of the overlay that is no mapping is, under the same path, a value of
-- the merge.
pub deep_merge_overlay :
    (base overlay : Fields) (path : List String) (v : Json)
    → DeepUnique overlay
    → get_path path (obj overlay) ≡ some v
    → is_mapping v ≡ false
    → get_path path (obj (deep_merge base overlay)) ≡ some v
deep_merge_overlay base overlay path v u h leaf =
    unfold deep_merge merge_value in wins_below path (some (obj base)) (obj overlay) v u h leaf

path_at-obj :
    (k : String) (ks : List String) (d : Fields)
    → path_at (k ∷ ks) (some (obj d)) ≡ path_at ks (Json.get k d)
unfolding path_at
path_at-obj k ks d = get_path-cons k ks d

-- Nothing is at a path where a value is silent.
Silent-none : (ks : List String) (o : Option Json) → Silent ks o → path_at ks o ≡ none
Silent-none [] none h = unfold path_at in refl
Silent-none (k ∷ ks) none h = unfold path_at in refl
Silent-none [] (some v) h = absurd h
Silent-none (k ∷ ks) (some (obj d)) h = path_at-obj k ks d ∙ Silent-none ks (Json.get k d) h
Silent-none (k ∷ ks) (some _) h = absurd h

abbrev pub DeepUniqueOption : Option Json → Type 0
DeepUniqueOption none = Unit
DeepUniqueOption (some v) = DeepUniqueValue v

pub DeepUnique-get_option :
    (d : Fields) (k : String) → DeepUnique d → DeepUniqueOption (Json.get k d)
unfolding Json.get
DeepUnique-get_option end k u = tt
DeepUnique-get_option (field j w d) k (fresh, uv, u) = elim (Bool-cases (k == j)) [
  | inl same ↦ rw same uv
  | inr other ↦ rw other (DeepUnique-get_option d k u)
]

-- A base value that is no mapping has nothing below a key, and neither has a silent overlay.
Silent-replaced :
    (k : String) (ks : List String) (b : Json) (o : Fields)
    → is_mapping b ≡ false
    → Silent ks (Json.get k o)
    → path_at (k ∷ ks) (some (merge_value (some b) (obj o))) ≡ path_at (k ∷ ks) (some b)
unfolding deep_merge merge_value
Silent-replaced k ks (obj d) o m h = cc
Silent-replaced k ks b o m h =
    path_at-obj k ks o ∙ Silent-none ks (Json.get k o) h ∙ (unfold path_at get_path in refl)

Silent-below :
    (ks : List String) (b o : Option Json)
    → DeepUniqueOption o
    → Silent ks o
    → path_at ks (merge_entry b o) ≡ path_at ks b
unfolding deep_merge merge_value
Silent-below ks b none u h = refl
Silent-below [] b (some v) u h = absurd h
Silent-below (k ∷ ks) none (some (obj o)) u h =
    Silent-none (k ∷ ks) (some (obj o)) h ∙ (unfold path_at in refl)
Silent-below (k ∷ ks) (some (obj b)) (some (obj o)) u h =
    path_at-obj k ks (deep_merge b o)
    ∙ ap (path_at ks) (get-deep_merge b o k (DeepUnique-Unique o u))
    ∙ Silent-below ks (Json.get k b) (Json.get k o) (DeepUnique-get_option o k u) h
    ∙ sym (path_at-obj k ks b)
Silent-below (k ∷ ks) (some b) (some (obj o)) u h = Silent-replaced k ks b o refl h
Silent-below (k ∷ ks) b (some v) u h = absurd h

-- The base shows through: where the overlay says nothing, the merge has what the base has.
pub deep_merge_base :
    (base overlay : Fields) (path : List String)
    → DeepUnique overlay
    → Silent path (some (obj overlay))
    → get_path path (obj (deep_merge base overlay)) ≡ get_path path (obj base)
deep_merge_base base overlay path u h =
    unfold deep_merge merge_value path_at in
    Silent-below path (some (obj base)) (some (obj overlay)) u h
