-- ===== src/Auth/Rotation.antt =====
-- Signed contexts round-trip, also across a rotation of the secret, and nothing else is accepted.
use ai_platform_sdk.Prelude.{
  String, ◌≡◌, refl, ◌∙◌, ◌⊎◌, Bool, true, false, Option, none, some, List, [], ◌∷◌, arith, ◌==◌,
  eq_iff, inl, inr, contains, is_ascii, compare_digest, has_dot, split_dots, split_dots_single,
  split_dots-append,
}
use ai_platform_sdk.Json
use ai_platform_sdk.Json.{texts, obj}
use ai_platform_sdk.Auth.{AgentContext, post_init}
use ai_platform_sdk.Auth.Secrets.{Environ, get_hmac_secret, get_previous_hmac_secret}
use ai_platform_sdk.Auth.Token.{
  Codec, Checked, yields, raises, ◌>>=◌, to_dict, text_items, from_claims, from_dict,
  verify_previous, verify_segments, verify_and_split, to_header_value, from_header,
}

-- A hex digest holds neither a dot nor a character outside of ASCII.
pub record IsHex (codec : Codec) : Type 0 where
  pub no_dot : (key message : String) → has_dot (codec.digest key message) ≡ false
  pub ascii : (key message : String) → is_ascii (codec.digest key message) ≡ true

-- The encoding carries this context: base64 has no dot in it, and what it encodes is read back.
pub record Carries (codec : Codec) (ctx : AgentContext) : Type 0 where
  pub no_dot : has_dot (codec.encode (to_dict ctx)) ≡ false
  pub decodes : codec.decode (codec.encode (to_dict ctx)) ≡ some (obj (to_dict ctx))

>>=-eq-yields {ℓ κ} :
    {A : Type ℓ} {B : Type κ} (first : Checked A) (next : A → Checked B) {result : B}
    → (first >>= next) ≡ yields result
    → (value : A) × (first ≡ yields value) × (next value ≡ yields result)
>>=-eq-yields (yields value) next h = (value, refl, h)
>>=-eq-yields (raises error) next h = cc

pub text_items-texts : (ss : List String) → text_items (texts ss) ≡ yields ss
unfolding text_items texts
text_items-texts [] = refl
text_items-texts (s ∷ ss) = rw (text_items-texts ss)

from_dict-to_dict :
    (ctx : AgentContext) → from_dict (some (obj (to_dict ctx))) ≡ yields (post_init ctx)
unfolding from_dict from_claims Json.get
from_dict-to_dict ctx =
    unfold to_dict in
    simp (text_items-texts ctx.assigned_account_ids, text_items-texts ctx.compliance_clearance)

-- A constructed context is one that `__post_init__` leaves as it is.
pub post_init_idem : (ctx : AgentContext) → post_init (post_init ctx) ≡ post_init ctx
unfolding post_init contains
post_init_idem ctx = ground arith

compare_digest_self : (s : String) → is_ascii s ≡ true → compare_digest s s ≡ some true
unfolding compare_digest
compare_digest_self s h = ground (arith, eq_iff s s)

compare_digest-true : (s t : String) → compare_digest s t ≡ some true → s ≡ t
unfolding compare_digest
compare_digest-true s t h = ground (arith, eq_iff s t)

compare_digest-ascii :
    (s t : String) → is_ascii s ≡ true → is_ascii t ≡ true → compare_digest s t ≡ some (s == t)
unfolding compare_digest
compare_digest-ascii s t h k = ground arith

module _ (codec : Codec) (hex : IsHex codec) (env : Environ) (p : String) where
  verify_segments_current :
      verify_segments codec env (p ∷ codec.digest (get_hmac_secret env) p ∷ []) ≡ yields p
  unfolding verify_segments
  verify_segments_current =
      ground (arith, compare_digest_self (codec.digest (get_hmac_secret env) p) (hex.ascii _ _))

  verify_segments_previous :
      (previous : String)
      → get_previous_hmac_secret env ≡ some previous
      → verify_segments codec env (p ∷ codec.digest previous p ∷ []) ≡ yields p
  unfolding verify_segments
  verify_segments_previous previous kept =
      let sig = codec.digest previous p in
      let current = codec.digest (get_hmac_secret env) p in
      ground (
        arith,
        compare_digest-ascii sig current (hex.ascii _ _) (hex.ascii _ _),
        compare_digest_self sig (hex.ascii _ _),
      )

module _ (codec : Codec) (hex : IsHex codec) (env : Environ) where
  -- The header that `env` signs, and its two segments.
  split_dots-to_header_value :
      (ctx : AgentContext)
      → Carries codec ctx
      → let payload = codec.encode (to_dict ctx) in
        split_dots (to_header_value codec env ctx)
        ≡ payload ∷ codec.digest (get_hmac_secret env) payload ∷ []
  unfolding to_header_value
  split_dots-to_header_value ctx c =
      let payload = codec.encode (to_dict ctx) in
      let sig = codec.digest (get_hmac_secret env) payload in
      split_dots-append payload sig c.no_dot ∙ rw (split_dots_single sig (hex.no_dot _ _))

-- What `to_header_value` signs, `from_header` reads back: every constructed context that the
-- encoding carries.
pub from_header-to_header_value :
    (codec : Codec) (env : Environ) (ctx : AgentContext)
    → IsHex codec
    → Carries codec (post_init ctx)
    → from_header codec env (to_header_value codec env (post_init ctx)) ≡ yields (post_init ctx)
unfolding from_header verify_and_split
from_header-to_header_value codec env ctx hex c = rw (
  split_dots-to_header_value codec hex env (post_init ctx) c,
  verify_segments_current codec hex env _,
  c.decodes,
  from_dict-to_dict,
  post_init_idem,
)

-- During a rotation, a service that has the new secret and keeps the sender's as its previous one
-- reads the contexts that the sender signs with its own.
pub from_header_rotation :
    (codec : Codec) (sender receiver : Environ) (ctx : AgentContext)
    → IsHex codec
    → Carries codec (post_init ctx)
    → get_previous_hmac_secret receiver ≡ some (get_hmac_secret sender)
    → from_header codec receiver (to_header_value codec sender (post_init ctx))
      ≡ yields (post_init ctx)
unfolding from_header verify_and_split
from_header_rotation codec sender receiver ctx hex c kept = rw (
  split_dots-to_header_value codec hex sender (post_init ctx) c,
  verify_segments_previous codec hex receiver _ (get_hmac_secret sender) kept,
  c.decodes,
  from_dict-to_dict,
  post_init_idem,
)

-- The segments of an accepted header: a payload, and its digest under the current secret or
-- under the previous one.
abbrev pub IsSigned : Codec → Environ → String → String → Type 0
IsSigned codec env payload sig =
    (sig ≡ codec.digest (get_hmac_secret env) payload)
    ⊎ ((previous : String) × (get_previous_hmac_secret env ≡ some previous)
        × (sig ≡ codec.digest previous payload))

module _ (codec : Codec) (env : Environ) where
  verify_previous-yields :
      (previous p sig q : String)
      → verify_previous codec env (some previous) p sig ≡ yields q
      → (q ≡ p) × (sig ≡ codec.digest previous p)
  unfolding verify_previous
  verify_previous-yields previous p sig q h =
      ground (arith, compare_digest-true sig (codec.digest previous p))

  verify_previous-IsSigned :
      (o : Option String) (p sig q : String)
      → get_previous_hmac_secret env ≡ o
      → verify_previous codec env o p sig ≡ yields q
      → (q ≡ p) × IsSigned codec env p sig
  verify_previous-IsSigned none p sig q e h = unfold verify_previous in cc
  verify_previous-IsSigned (some previous) p sig q e h =
      let (same, signed) = verify_previous-yields previous p sig q h in
      (same, inr (previous, e, signed))

  verify_pair-IsSigned :
      (p sig q : String)
      → verify_segments codec env (p ∷ sig ∷ []) ≡ yields q
      → (q ≡ p) × IsSigned codec env p sig
  unfolding verify_segments
  verify_pair-IsSigned p sig q h =
      go (compare_digest sig (codec.digest (get_hmac_secret env) p)) refl
    where
      go :
          (o : Option Bool)
          → compare_digest sig (codec.digest (get_hmac_secret env) p) ≡ o
          → (q ≡ p) × IsSigned codec env p sig
      go none e = cc
      go (some true) e = ((cc), inl (compare_digest-true sig _ e))
      go (some false) e =
          verify_previous-IsSigned (get_previous_hmac_secret env) p sig q refl
            (rw (e, verify_segments) at h)

  verify_segments-IsSigned :
      (parts : List String) (q : String)
      → verify_segments codec env parts ≡ yields q
      → (sig : String) × (parts ≡ q ∷ sig ∷ []) × IsSigned codec env q sig
  verify_segments-IsSigned (p ∷ sig ∷ []) q h =
      let (same, signed) = verify_pair-IsSigned p sig q h in (sig, rw same, rw same signed)
  verify_segments-IsSigned [] q h = unfold verify_segments in cc
  verify_segments-IsSigned (p ∷ []) q h = unfold verify_segments in cc
  verify_segments-IsSigned (p ∷ s ∷ t ∷ ts) q h = unfold verify_segments in cc

  -- An accepted header is signed: it has exactly two segments, the second of which is the digest
  -- of the first under the current secret or the previous one, and the context is the one that
  -- the first segment encodes.
  pub from_header-IsSigned :
      (raw : String) (ctx : AgentContext)
      → from_header codec env raw ≡ yields ctx
      → (payload : String) × ((sig : String) × (split_dots raw ≡ payload ∷ sig ∷ [])
          × IsSigned codec env payload sig)
        × (from_dict (codec.decode payload) ≡ yields ctx)
  unfolding from_header verify_and_split
  from_header-IsSigned raw ctx h =
      let (payload, e, d) =
        >>=-eq-yields (verify_and_split codec env raw) (λ p. from_dict (codec.decode p)) h in
      (payload, verify_segments-IsSigned (split_dots raw) payload e, d)
