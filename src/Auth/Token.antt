-- ===== src/Auth/Token.antt =====
-- The `X-Agent-Context` header and the JWT of platform_sdk/auth.py. The digest (HMAC-SHA256 in hex)
-- and the encoding of a payload (base64 of its JSON) are the parameter `Codec`.
use ai_platform_sdk.Prelude.{
  String, ◌<>◌, true, false, Option, none, some, List, [], ◌∷◌, compare_digest, split_dots,
}
use ai_platform_sdk.Json
use ai_platform_sdk.Json.{
  Json, Items, Fields, str, arr, obj, nil, cons, end, field, texts, characters, keys,
}
use ai_platform_sdk.Auth.{AgentContext, post_init}
use ai_platform_sdk.Auth.Secrets.{
  Environ, get_jwt_secret, get_hmac_secret, get_previous_hmac_secret, get_previous_jwt_secret,
}

pub record Codec : Type 0 where
  -- `hmac.new(key, message, hashlib.sha256).hexdigest()`
  pub digest : String → String → String
  -- `base64.b64encode(json.dumps(d).encode()).decode()`
  pub encode : Fields → String
  -- `json.loads(base64.b64decode(s))`, and `none` where that raises
  pub decode : String → Option Json

-- What a decoding can raise: the `ValueError`s for the number of segments and for the signature,
-- the `TypeError` of `compare_digest`, an error in the payload's encoding, a payload that is no
-- mapping, and one that holds a field of another type than `to_dict` writes.
pub data AuthError : Type 0 where
  wrong_segment_count signature_mismatch non_ascii undecodable not_a_mapping : AuthError
  ill_typed missing_subject invalid_signature invalid_token : AuthError

pub data Checked {ℓ} (A : Type ℓ) : Type ℓ where
  yields : A → Checked A
  raises : AuthError → Checked A

infixl 5 ◌>>=◌
abbrev pub ◌>>=◌ {ℓ κ} : {A : Type ℓ} {B : Type κ} → Checked A → (A → Checked B) → Checked B
yields value >>= next = next value
raises error >>= next = raises error

unfoldable pub to_dict : AgentContext → Fields
unfolding texts
to_dict ctx = field "rm_id" (str ctx.rm_id) (
    field "rm_name" (str ctx.rm_name) (
      field "role" (str ctx.role) (
        field "team_id" (str ctx.team_id) (
          field "assigned_account_ids" (arr (texts ctx.assigned_account_ids)) (
            field "compliance_clearance" (arr (texts ctx.compliance_clearance)) (
              field "user_email" (str ctx.user_email)
                (field "user_role" (str ctx.user_role) end)))))))

-- `data.get(key, default)` for a text and for a list of texts.
-- A field of a context is a text, and its lists hold texts. The source stores a claim of another type
-- as it is; such a context is outside of the model, and `ill_typed` stands for it.
abbrev text_value : String → Option Json → Checked String
text_value default none = yields default
text_value default (some (str s)) = yields s
text_value default (some _) = raises ill_typed

unfoldable pub text_items : Items → Checked (List String)
text_items nil = yields []
text_items (cons (str s) rest) = text_items rest >>= λ ss. yields (s ∷ ss)
text_items (cons _ rest) = raises ill_typed

-- `tuple(data.get(k, default))`: of a text the characters, of a mapping the keys.
abbrev texts_value : List String → Option Json → Checked (List String)
texts_value default none = yields default
texts_value default (some (arr items)) = text_items items
texts_value default (some (str s)) = yields (characters s)
texts_value default (some (obj d)) = yields (keys d)
texts_value default (some _) = raises ill_typed

-- The claims that a header's payload and a JWT share, read after the subject and the name.
unfoldable pub from_claims : String → String → String → Fields → Checked AgentContext
unfolding text_items
from_claims rm_id rm_name default_role d = do
  role ← text_value default_role (Json.get "role" d)
  team_id ← text_value "" (Json.get "team_id" d)
  accounts ← texts_value [] (Json.get "assigned_account_ids" d)
  clearance ← texts_value ("standard" ∷ []) (Json.get "compliance_clearance" d)
  user_email ← text_value "" (Json.get "user_email" d)
  user_role ← text_value "" (Json.get "user_role" d)
  yields (
      post_init (record {
        rm_id = rm_id;
        rm_name = rm_name;
        role = role;
        team_id = team_id;
        assigned_account_ids = accounts;
        compliance_clearance = clearance;
        user_email = user_email;
        user_role = user_role;
      }))

unfoldable pub from_dict : Option Json → Checked AgentContext
unfolding from_claims
from_dict none = raises undecodable
from_dict (some (obj d)) = do
  rm_id ← text_value "unknown" (Json.get "rm_id" d)
  rm_name ← text_value "" (Json.get "rm_name" d)
  from_claims rm_id rm_name "readonly" d
from_dict (some _) = raises not_a_mapping

module _ (codec : Codec) (env : Environ) where
  open codec use {digest, encode, decode}

  unfoldable pub sign : String → String
  sign payload_b64 = digest (get_hmac_secret env) payload_b64

  -- The second comparison, made in a rotation window.
  unfoldable pub verify_previous : Option String → String → String → Checked String
  verify_previous none payload_b64 sig = raises signature_mismatch
  verify_previous (some previous) payload_b64 sig =
      elim (compare_digest sig (digest previous payload_b64)) [
        | none ↦ raises non_ascii
        | some true ↦ yields payload_b64
        | some false ↦ raises signature_mismatch
      ]

  unfoldable pub verify_segments : List String → Checked String
  unfolding sign verify_previous
  verify_segments (payload_b64 ∷ sig ∷ []) = elim (compare_digest sig (sign payload_b64)) [
    | none ↦ raises non_ascii
    | some true ↦ yields payload_b64
    | some false ↦ verify_previous (get_previous_hmac_secret env) payload_b64 sig
  ]
  verify_segments _ = raises wrong_segment_count

  unfoldable pub verify_and_split : String → Checked String
  unfolding verify_segments
  verify_and_split raw = verify_segments (split_dots raw)

  unfoldable pub to_header_value : AgentContext → String
  unfolding sign
  to_header_value ctx =
      let payload_b64 = encode (to_dict ctx) in payload_b64 <> "." <> sign payload_b64

  unfoldable pub from_header : String → Checked AgentContext
  unfolding verify_and_split from_dict
  from_header raw = do payload_b64 ← verify_and_split raw; from_dict (decode payload_b64)

-- How `pyjwt.decode` ends for a token and a secret.
pub data Decoded : Type 0 where
  claims : Fields → Decoded
  bad_signature bad_token : Decoded

abbrev subject : Option Json → Checked String
subject none = raises missing_subject
subject (some (str s)) = yields s
subject (some _) = raises ill_typed

unfoldable pub from_payload : Decoded → Checked AgentContext
unfolding from_claims
from_payload bad_signature = raises invalid_signature
from_payload bad_token = raises invalid_token
from_payload (claims d) = do
  rm_id ← subject (Json.get "sub" d)
  rm_name ← text_value "" (Json.get "name" d)
  from_claims rm_id rm_name "rm" d

-- The fallback of the `except InvalidSignatureError` clause.
abbrev decode_previous : (String → Decoded) → Option String → Decoded
decode_previous decode none = bad_signature
decode_previous decode (some previous) = decode previous

unfoldable pub from_jwt : (String → String → Decoded) → Environ → String → Checked AgentContext
unfolding from_payload
from_jwt decode env token = elim (decode token (get_jwt_secret env)) [
  | bad_signature ↦ from_payload (decode_previous (decode token) (get_previous_jwt_secret env))
  | bad_token ↦ raises invalid_token
  | claims d ↦ from_payload (claims d)
]
