-- ===== src/Config/Load/Shape.antt =====
-- That the substitution of platform_sdk/config/loader.py keeps the types of the values.
use ai_platform_sdk.Prelude.{String, ◌≡◌, refl, ap, Option}
use ai_platform_sdk.Json.{
  Json, null, bool, nat, negsuc, str, arr, obj, Items, nil, cons, Fields, end, field,
}
use ai_platform_sdk.Config.Load.{substitute, substitute_items, substitute_fields}

-- A value with its texts emptied: the types of all its parts, the keys of its mappings, the lengths
-- of its lists, and what is no text.
unfoldable mutual
  pub shape : Json → Json
  shape null = null
  shape (bool b) = bool b
  shape (nat n) = nat n
  shape (negsuc n) = negsuc n
  shape (str s) = str ""
  shape (arr vs) = arr (shape_items vs)
  shape (obj d) = obj (shape_fields d)

  pub shape_items : Items → Items
  shape_items nil = nil
  shape_items (cons v vs) = cons (shape v) (shape_items vs)

  pub shape_fields : Fields → Fields
  shape_fields end = end
  shape_fields (field k v d) = field k (shape v) (shape_fields d)

module _ (environ : String → Option String) (path : String) where
  mutual
    unfolding substitute shape

    shape-substitute_value : (v : Json) → shape (substitute environ path v).0 ≡ shape v
    shape-substitute_value null = refl
    shape-substitute_value (bool b) = refl
    shape-substitute_value (nat n) = refl
    shape-substitute_value (negsuc n) = refl
    shape-substitute_value (str s) = refl
    shape-substitute_value (arr vs) = ap arr (shape-substitute_items vs)
    shape-substitute_value (obj d) = ap obj (shape-substitute_fields d)

    shape-substitute_items :
        (vs : Items) → shape_items (substitute_items environ path vs).0 ≡ shape_items vs
    shape-substitute_items nil = refl
    shape-substitute_items (cons v vs) =
        rw (shape-substitute_value v, shape-substitute_items vs) refl

    shape-substitute_fields :
        (d : Fields) → shape_fields (substitute_fields environ path d).0 ≡ shape_fields d
    shape-substitute_fields end = refl
    shape-substitute_fields (field k v d) =
        rw (shape-substitute_value v, shape-substitute_fields d) refl

  -- The substitution of environment variables changes nothing but texts: every value keeps its
  -- type, a list its length, a mapping its keys in their order, whatever the environment holds and
  -- also where a variable is not set. No value can turn a text into a number or a mapping.
  pub shape-substitute : (v : Json) → shape (substitute environ path v).0 ≡ shape v
  shape-substitute v = shape-substitute_value v
