-- ===== src/Config/Merge/Leaves.antt =====
-- What `_deep_merge` of platform_sdk/config/loader.py makes of the layers of a configuration, by the
-- leaves: the values that are no mappings.
use ai_platform_sdk.Prelude.{
  String, ◌≡◌, refl, ap, ◌∙◌, Bool, true, false, Option, none, some, List, [], ◌∷◌, if◌then◌else◌,
}
use ai_platform_sdk.Json
use ai_platform_sdk.Json.{Json, null, bool, nat, negsuc, str, arr, obj, Fields}
use ai_platform_sdk.Config.Merge.{
  deep_merge, merge_value, merge_entry, get-deep_merge, DeepUnique, is_mapping, DeepUnique-Unique,
  DeepUniqueOption, DeepUnique-get_option,
}

-- The leaf at a path of keys, if there is one.
unfoldable pub leaf_at : List String → Option Json → Option Json
unfolding Json.get
leaf_at ks none = none
leaf_at [] (some v) = if is_mapping v then none else some v
leaf_at (k ∷ ks) (some (obj d)) = leaf_at ks (Json.get k d)
leaf_at (k ∷ ks) (some v) = none

-- A layer says nothing at a path: on the way down it has mappings, and then no key.
unfoldable pub is_silent : List String → Option Json → Bool
unfolding Json.get
is_silent ks none = true
is_silent [] (some v) = false
is_silent (k ∷ ks) (some (obj d)) = is_silent ks (Json.get k d)
is_silent (k ∷ ks) (some v) = false

-- The leaf of the overlay; where the overlay is silent the base's; else none.
abbrev pub layered : Option Json → Bool → Option Json → Option Json
layered (some v) silent base = some v
layered none true base = base
layered none false base = none

layered_alone : (o : Option Json) (silent : Bool) → o ≡ layered o silent none
layered_alone (some v) silent = refl
layered_alone none true = refl
layered_alone none false = refl

merged_leaf :
    (b : Option Json) (v : Json)
    → leaf_at [] (some (merge_value b v)) ≡ layered (leaf_at [] (some v)) false (leaf_at [] b)
unfolding leaf_at deep_merge merge_value
merged_leaf none (obj o) = refl
merged_leaf (some (obj b)) (obj o) = refl
merged_leaf (some b) (obj o) = refl
merged_leaf b v = refl

leaf_at-merge_entry :
    (ks : List String) (b o : Option Json)
    → DeepUniqueOption o
    → leaf_at ks (merge_entry b o) ≡ layered (leaf_at ks o) (is_silent ks o) (leaf_at ks b)
unfolding leaf_at is_silent deep_merge merge_value
leaf_at-merge_entry [] b none u = refl
leaf_at-merge_entry (k ∷ ks) b none u = refl
leaf_at-merge_entry [] b (some v) u = merged_leaf b v
leaf_at-merge_entry (k ∷ ks) (some (obj b)) (some (obj o)) u =
    ap (leaf_at ks) (get-deep_merge b o k (DeepUnique-Unique o u))
    ∙ leaf_at-merge_entry ks (Json.get k b) (Json.get k o) (DeepUnique-get_option o k u)
leaf_at-merge_entry (k ∷ ks) none (some (obj o)) u =
    layered_alone (leaf_at ks (Json.get k o)) (is_silent ks (Json.get k o))
leaf_at-merge_entry (k ∷ ks) (some b) (some (obj o)) u =
    layered_alone (leaf_at ks (Json.get k o)) (is_silent ks (Json.get k o))
leaf_at-merge_entry (k ∷ ks) b (some v) u = refl

-- The leaves of a merge: at every path it has the leaf of the overlay, if there is one; or the base's
-- where the overlay says nothing, having only mappings on the way and then no key; or else none.
-- This is for an overlay in which no key is listed twice.
pub deep_merge_leaves :
    (base overlay : Fields) (path : List String)
    → DeepUnique overlay
    → leaf_at path (some (obj (deep_merge base overlay)))
      ≡ layered
          (leaf_at path (some (obj overlay)))
          (is_silent path (some (obj overlay)))
          (leaf_at path (some (obj base)))
unfolding deep_merge merge_value
deep_merge_leaves base overlay path u =
    leaf_at-merge_entry path (some (obj base)) (some (obj overlay)) u
