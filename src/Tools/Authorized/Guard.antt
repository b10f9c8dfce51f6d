-- ===== src/Tools/Authorized/Guard.antt =====
-- What the decorator lets through to the policy engine and to the function.
use Prim.Native.String.{count}
use text.Mathlib.TextLemmas.{length-cons}
use ai_platform_sdk.Prelude.{
  ℕ, zero, suc, ◌≤◌, String, ◌≡◌, refl, ◌≢◌, Bool, true, false, Option, none, some, arith, eq_iff,
  strip, truncate,
}
use ai_platform_sdk.Prelude.Dict.{Dict, lookup, insert, lookup-insert}
use ai_platform_sdk.Json.{Json, str, obj}
use ai_platform_sdk.Tools.Errors.{
  JsonText, error_fields, is_error_response, is_error_response-make_error,
}
use ai_platform_sdk.Tools.Authorized.{ToolSpec, text_of, or_empty, validate, wrapper, invalid_input}

count-truncate : (n : ℕ) (s : String) → count (truncate n s) ≤ n
unfolding truncate
count-truncate zero s = omega arith
count-truncate (suc n) String.[] = omega arith
count-truncate (suc n) (String.◌∷◌ c s) = rw length-cons (omega (arith, count-truncate n s))

-- Arguments that pass the validation of a required input hold, under its name, a text no longer
-- than the limit, and every other argument as the caller gave it.
pub validate_bounds :
    (spec : ToolSpec) (name : String) (kwargs kwargs' : Dict Json)
    → name ≢ ""
    → validate spec (some name) kwargs ≡ some kwargs'
    → (t : String) × (lookup name kwargs' ≡ some (str t))
      × (count t ≤ spec.max_input_length)
      × ((j : String) → j ≢ name → lookup j kwargs' ≡ lookup j kwargs)
validate_bounds spec name kwargs kwargs' named passed =
    let t =
      truncate spec.max_input_length
        (strip (text_of spec.str_of (or_empty (lookup name kwargs)))) in
    let e : kwargs' ≡ insert name (str t) kwargs =
      unfold validate in ground (arith, eq_iff name "") in
    (
      t,
      rw (e, lookup-insert) (ground (arith, eq_iff name name)),
      count-truncate spec.max_input_length _,
      λ j other. rw (e, lookup-insert) (ground (arith, eq_iff j name)),
    )

module _ (json : JsonText) {S : Type 0} (authorize : String → Dict Json → S → Bool × S) where
  -- Under a policy that now denies the tool on every input, the wrapper answers with what is
  -- recognised as an error, whatever the function and the input are, and its answer
  -- and its effect do not depend on the function.
  pub wrapper_denied :
      (fn fn' : Dict Json → S → Option String × S) (ready : Bool) (spec : ToolSpec)
      (kwargs : Dict Json) (s : S)
      → ((code message : String)
          → json.loads (json.dumps (error_fields code message))
            ≡ some (obj (error_fields code message)))
      → ((k : Dict Json) → (authorize spec.tool_name k s).0 ≡ false)
      → (wrapper json authorize fn ready spec kwargs s
          ≡ wrapper json authorize fn' ready spec kwargs s)
        × (is_error_response json (wrapper json authorize fn ready spec kwargs s).0 ≡ true)
  unfolding wrapper
  wrapper_denied fn fn' false spec kwargs s reads denies =
      (refl, is_error_response-make_error json _ _ (reads _ _))
  wrapper_denied fn fn' true spec kwargs s reads denies =
      go (validate spec spec.require_input kwargs) refl
    where
      invalid :
          (o : Option String) → is_error_response json (invalid_input json authorize fn o) ≡ true
      invalid none = is_error_response-make_error json _ _ (reads _ _)
      invalid (some name) = is_error_response-make_error json _ _ (reads _ _)

      go :
          (o : Option (Dict Json))
          → validate spec spec.require_input kwargs ≡ o
          → (wrapper json authorize fn true spec kwargs s
              ≡ wrapper json authorize fn' true spec kwargs s)
            × (is_error_response json (wrapper json authorize fn true spec kwargs s).0 ≡ true)
      go none e = rw (e, wrapper) (refl, invalid spec.require_input)
      go (some k) e =
          rw (e, wrapper, denies k) (refl, is_error_response-make_error json _ _ (reads _ _))
