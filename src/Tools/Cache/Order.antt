-- ===== src/Tools/Cache/Order.antt =====
-- The key of a cached call in platform_sdk/cache.py does not depend on the order of the arguments.
-- A dict in which only the lookups count is an element of a quotient.
use Prim.Native.Char.{IsScalar}
use mathlib.Core.Quot
use mathlib.Core.Quot.{Quot}
use text.Mathlib.TextEquality.{IsScalar-prop}
use text.Mathlib.TextLemmas.{cons-append, nil-append}
use ai_platform_sdk.Prelude.{
  ℕ, String, ◌<>◌, ◌≡◌, ◌↔◌, refl, sym, ap, ◌∙◌, false, Option, none, some, [], ◌∷◌, ◌==◌, arith,
  eq_iff, if◌then◌else◌,
}
use ai_platform_sdk.Prelude.Dict.{
  Dict, has_key, lookup, insert, update, NodupKeys, lookup-insert, has_key-lookup-none,
}
use ai_platform_sdk.Json.{Json, str}
use ai_platform_sdk.Tools.Cache.{make_cache_key}

-- Two dicts that are equal in Python: the same value under every key.
abbrev pub SameLookups : Dict Json → Dict Json → Type 0
SameLookups d e = (k : String) → lookup k d ≡ lookup k e

-- `or`, on what is looked up.
abbrev or_else {ℓ} : {A : Type ℓ} → Option A → Option A → Option A
or_else (some v) o = some v
or_else none o = o

lookup-update :
    (k : String) (d e : Dict Json)
    → NodupKeys e
    → lookup k (update d e) ≡ or_else (lookup k e) (lookup k d)
unfolding update lookup
lookup-update k d [] u = refl
lookup-update k d ((j, v) ∷ e) (fresh, u) = ground (
  arith,
  lookup-update k (insert j v d) e u,
  lookup-insert k j v d,
  eq_iff k j,
  has_key-lookup-none k e,
)

-- Keyword arguments: no name is given twice.
abbrev pub Kwargs : Type 0
Kwargs = (d : Dict Json) × NodupKeys d

-- `sort_keys=True`: the text depends only on the lookups.
abbrev pub SortsKeys : (Dict Json → String) → Type 0
SortsKeys dumps = (d e : Dict Json) → SameLookups d e → dumps d ≡ dumps e

pub SameLookups-update :
    (d a b : Dict Json)
    → NodupKeys a
    → NodupKeys b
    → SameLookups a b
    → SameLookups (update d a) (update d b)
SameLookups-update d a b u w same k =
    lookup-update k d a u ∙ ap (λ o. or_else o (lookup k d)) (same k) ∙ sym (lookup-update k d b w)

-- A cached tool has one key for its arguments in whatever order they are given.
pub make_cache_key_order :
    (dumps : Dict Json → String) (digest : String → String) (fn_name : String) (a b : Dict Json)
    → SortsKeys dumps
    → NodupKeys a
    → NodupKeys b
    → SameLookups a b
    → make_cache_key dumps digest fn_name a ≡ make_cache_key dumps digest fn_name b
unfolding make_cache_key
make_cache_key_order dumps digest fn_name a b sorts u w same =
    ap (λ s. "tool_cache:" <> digest s)
      (sorts (update (("fn", str fn_name) ∷ []) a) (update (("fn", str fn_name) ∷ []) b)
        (SameLookups-update (("fn", str fn_name) ∷ []) a b u w same))

abbrev tail : String → String
tail String.[] = String.[]
tail (String.◌∷◌ c s) = s

append_injective : (p s t : String) → p <> s ≡ p <> t → s ≡ t
append_injective String.[] s t h = sym (nil-append s) ∙ h ∙ nil-append t
append_injective (String.◌∷◌ c p) s t h =
    append_injective p s t (ap tail (sym (cons-append c p s) ∙ h ∙ cons-append c p t))

-- What is hashed, under a key.
lookup-named :
    (k name : String) (d : Dict Json)
    → NodupKeys d
    → lookup k (update (("fn", str name) ∷ []) d)
      ≡ or_else (lookup k d) (if k == "fn" then some (str name) else none)
unfolding lookup
lookup-named k name d u = lookup-update k (("fn", str name) ∷ []) d u

named_same :
    (f g : String) (a b : Dict Json)
    → NodupKeys a
    → NodupKeys b
    → has_key "fn" a ≡ false
    → has_key "fn" b ≡ false
    → SameLookups (update (("fn", str f) ∷ []) a) (update (("fn", str g) ∷ []) b)
    → (f ≡ g) × SameLookups a b
named_same f g a b u w fresh fresh' same = (
  ground (
    arith,
    lookup-named "fn" f a u,
    lookup-named "fn" g b w,
    same "fn",
    has_key-lookup-none "fn" a,
    has_key-lookup-none "fn" b,
  ),
  λ k. ground (
    arith,
    lookup-named k f a u,
    lookup-named k g b w,
    same k,
    eq_iff k "fn",
    has_key-lookup-none "fn" a,
    has_key-lookup-none "fn" b,
  ),
)

-- What is hashed for a call.
abbrev pub named : String → Dict Json → Dict Json
named f d = update (("fn", str f) ∷ []) d

-- The calls of cached tools, none of whose arguments is called `fn`, have one key exactly if they call
-- the same tool with the same arguments, in whatever order: if the texts of the two calls are equal
-- only for the same arguments, and the digest does not collide on them.
pub make_cache_key_same :
    (dumps : Dict Json → String) (digest : String → String) (f g : String) (a b : Dict Json)
    → SortsKeys dumps
    → (dumps (named f a) ≡ dumps (named g b) → SameLookups (named f a) (named g b))
    → (digest (dumps (named f a)) ≡ digest (dumps (named g b))
        → dumps (named f a) ≡ dumps (named g b))
    → NodupKeys a
    → NodupKeys b
    → has_key "fn" a ≡ false
    → has_key "fn" b ≡ false
    → (make_cache_key dumps digest f a ≡ make_cache_key dumps digest g b)
      ↔ ((f ≡ g) × SameLookups a b)
unfolding make_cache_key
make_cache_key_same dumps digest f g a b sorts reads apart u w fresh fresh' = (
  λ h. named_same f g a b u w fresh fresh' (reads (apart (append_injective "tool_cache:" _ _ h))),
  λ (e, same).
      ap (λ n. make_cache_key dumps digest n a) e
      ∙ make_cache_key_order dumps digest g a b sorts u w same,
)

IsScalar-IsSet : (n : ℕ) → IsSet (IsScalar n)
IsScalar-IsSet n = hlevel (IsScalar-prop)

-- Arguments with their order forgotten.
abbrev pub Arguments : Type 0
Arguments = Quot (λ (a b : Kwargs). SameLookups a.0 b.0)

module _ (dumps : Dict Json → String) (digest : String → String) (fn_name : String)
    (sorts : SortsKeys dumps) where
  -- So the key is a function of the arguments without their order.
  pub cache_key : Arguments → String
  cache_key =
      Quot.lift (hlevel IsScalar-IsSet) (λ a. make_cache_key dumps digest fn_name a.0)
        (λ a b same. make_cache_key_order dumps digest fn_name a.0 b.0 sorts a.1 b.1 same)

  pub cache_key_lem : (a : Kwargs) → cache_key (Quot.mk a) ≡ make_cache_key dumps digest fn_name a.0
  unfolding cache_key make_cache_key
  cache_key_lem a = refl
