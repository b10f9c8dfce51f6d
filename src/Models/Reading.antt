-- ===== src/Models/Reading.antt =====
-- Lists, dicts and floats of the models of platform_sdk/models.py as JSON, and that what is written
-- of a value is read back.
use ai_platform_sdk.Prelude.{String, ◌≡◌, refl, Option, none, some, List, [], ◌∷◌}
use ai_platform_sdk.Prelude.Dict.{Dict}
use ai_platform_sdk.Json.{Json, str, arr, obj, Items, nil, cons, Fields, end, field}
use ai_platform_sdk.Config.Models.{ℤ, pos, negsuc}
use ai_platform_sdk.Models.{◌>>=◌, of_int, of_option, as_dict, optional, Lax, as_int, as_str}

-- Python's floats: how they are written and read, and the default `0.0`.
pub record Floats : Type 1 where
  pub Float : Type 0
  pub write : Float → Json
  pub read : Json → Option Float
  pub naught : Float

-- What is written of a float is a number that reads as the same float.
pub record Exact (floats : Floats) : Type 0 where
  pub reads : (x : floats.Float) → floats.read (floats.write x) ≡ some x
  pub number : (x : floats.Float) → optional floats.read (floats.write x) ≡ some (some x)

-- A list of values.
unfoldable pub write_items {ℓ} : {A : Type ℓ} → (A → Json) → List A → Items
write_items write [] = nil
write_items write (a ∷ xs) = cons (write a) (write_items write xs)

unfoldable pub read_items {ℓ} : {A : Type ℓ} → (Json → Option A) → Items → Option (List A)
read_items read nil = some []
read_items read (cons v vs) = do a ← read v; xs ← read_items read vs; some (a ∷ xs)

unfoldable pub write_list {ℓ} : {A : Type ℓ} → (A → Json) → List A → Json
unfolding write_items
write_list write xs = arr (write_items write xs)

unfoldable pub read_list {ℓ} : {A : Type ℓ} → (Json → Option A) → Json → Option (List A)
unfolding read_items
read_list read (arr vs) = read_items read vs
read_list read v = none

-- A dict from texts to values.
unfoldable pub write_dict {ℓ} : {A : Type ℓ} → (A → Json) → Dict A → Fields
write_dict write [] = end
write_dict write ((k, a) ∷ d) = field k (write a) (write_dict write d)

unfoldable pub read_fields {ℓ} : {A : Type ℓ} → (Json → Option A) → Fields → Option (Dict A)
read_fields read end = some []
read_fields read (field k v vs) = do a ← read v; d ← read_fields read vs; some ((k, a) ∷ d)

unfoldable pub read_dict {ℓ} : {A : Type ℓ} → (Json → Option A) → Json → Option (Dict A)
unfolding read_fields
read_dict read (obj d) = read_fields read d
read_dict read v = none

module _ {ℓ} {A : Type ℓ} (write : A → Json) (read : Json → Option A)
    (reads : (a : A) → read (write a) ≡ some a) where
  read_items-write_items : (xs : List A) → read_items read (write_items write xs) ≡ some xs
  unfolding read_items write_items
  read_items-write_items [] = refl
  read_items-write_items (a ∷ xs) = rw (reads a, read_items-write_items xs) refl

  pub read_list-write_list : (xs : List A) → read_list read (write_list write xs) ≡ some xs
  unfolding read_list write_list
  read_list-write_list xs = read_items-write_items xs

  read_fields-write_dict : (d : Dict A) → read_fields read (write_dict write d) ≡ some d
  unfolding read_fields write_dict
  read_fields-write_dict [] = refl
  read_fields-write_dict ((k, a) ∷ d) = rw (reads a, read_fields-write_dict d) refl

  pub read_dict-write_dict : (d : Dict A) → read_dict read (obj (write_dict write d)) ≡ some d
  unfolding read_dict
  read_dict-write_dict d = read_fields-write_dict d

-- A field that may be `None`, of each of the types that the models use.
pub optional-dict : (o : Option Fields) → optional as_dict (of_option obj o) ≡ some o
optional-dict none = refl
optional-dict (some d) = refl

pub optional-float :
    (floats : Floats) (exact : Exact floats) (o : Option floats.Float)
    → optional floats.read (of_option floats.write o) ≡ some o
optional-float floats exact none = refl
optional-float floats exact (some x) = exact.number x

module _ (lax : Lax) where
  pub as_int-of_int : (n : ℤ) → as_int lax (of_int n) ≡ some n
  as_int-of_int (pos n) = refl
  as_int-of_int (negsuc n) = refl

  pub optional-int : (o : Option ℤ) → optional (as_int lax) (of_option of_int o) ≡ some o
  optional-int none = refl
  optional-int (some (pos n)) = refl
  optional-int (some (negsuc n)) = refl

  pub optional-str : (o : Option String) → optional (as_str lax) (of_option str o) ≡ some o
  optional-str none = refl
  optional-str (some s) = refl
