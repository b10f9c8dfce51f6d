-- ===== src/Json.antt =====
-- Values of the dynamic language: what `json.loads` and `yaml.safe_load` return, and Python's
-- `bool()` of them. Numbers are integers; a mapping's keys are texts.
use ai_platform_sdk.Prelude.{
  ℕ, zero, suc, String, ◌≡◌, refl, Bool, true, false, not, ◌||◌, Option, none, some, List, [], ◌∷◌,
  arith, ◌==◌, eq_iff, if◌then◌else◌,
}

mutual
  pub data Json : Type 0 where
    null : Json
    bool : Bool → Json
    nat : ℕ → Json
    negsuc : ℕ → Json
    str : String → Json
    arr : Items → Json
    obj : Fields → Json

  pub data Items : Type 0 where
    nil : Items
    cons : Json → Items → Items

  pub data Fields : Type 0 where
    end : Fields
    field : String → Json → Fields → Fields

-- `d.get(k)`
unfoldable pub get : String → Fields → Option Json
get k end = none
get k (field j v d) = if k == j then some v else get k d

-- `k in d`
unfoldable pub has : String → Fields → Bool
has k end = false
has k (field j v d) = k == j || has k d

-- `d[k] = v`
unfoldable pub put : String → Json → Fields → Fields
put k v end = field k v end
put k v (field j w d) = if k == j then field j v d else field j w (put k v d)

-- `bool(v)`
unfoldable pub truthy : Json → Bool
truthy null = false
truthy (bool b) = b
truthy (nat zero) = false
truthy (nat (suc n)) = true
truthy (negsuc n) = true
truthy (str s) = not (s == "")
truthy (arr nil) = false
truthy (arr (cons v vs)) = true
truthy (obj end) = false
truthy (obj (field k v d)) = true

-- What iterating over a text, and over a mapping, gives.
abbrev pub characters : String → List String
characters String.[] = []
characters (String.◌∷◌ c s) = String.◌∷◌ c String.[] ∷ characters s

abbrev pub keys : Fields → List String
keys end = []
keys (field k v d) = k ∷ keys d

-- `[str(x), …]` as a JSON list.
unfoldable pub texts : List String → Items
texts [] = nil
texts (s ∷ ss) = cons (str s) (texts ss)

-- No key of the mapping itself is listed twice.
abbrev pub Unique : Fields → Type 0
Unique end = Unit
Unique (field k v d) = (has k d ≡ false) × Unique d

pub get-put :
    (j k : String) (v : Json) (d : Fields)
    → get j (put k v d) ≡ (if j == k then some v else get j d)
unfolding get put
get-put j k v end = refl
get-put j k v (field i w d) = ground (arith, eq_iff k i, eq_iff j k, eq_iff j i, get-put j k v d)

pub has-put : (j k : String) (v : Json) (d : Fields) → has j (put k v d) ≡ (j == k || has j d)
unfolding has put
has-put j k v end = refl
has-put j k v (field i w d) = ground (arith, eq_iff k i, eq_iff j k, eq_iff j i, has-put j k v d)

pub get-eq-none : (k : String) (d : Fields) → has k d ≡ false → get k d ≡ none
unfolding get has
get-eq-none k end h = refl
get-eq-none k (field j v d) h = ground (arith, get-eq-none k d)
