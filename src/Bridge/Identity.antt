-- ===== src/Bridge/Identity.antt =====
-- `_build_auth_headers` of platform_sdk/mcp_bridge.py, and the way of an identity from the bridge of
-- an agent to the tool of a server behind platform_sdk/mcp_auth.py.
use ai_platform_sdk.Prelude.{
  String, ◌≡◌, refl, sym, ◌∙◌, true, Option, none, some, [], ◌∷◌, ◌==◌, eq_iff, ap, Bool-cases, inl,
  inr, split_dots,
}
use ai_platform_sdk.Prelude.Dict.{Dict, lookup}
use ai_platform_sdk.Auth.{AgentContext, post_init}
use ai_platform_sdk.Auth.Secrets.{Environ}
use ai_platform_sdk.Auth.Token.{
  Codec, yields, to_header_value, from_header, verify_and_split, verify_segments,
}
use ai_platform_sdk.Auth.Rotation.{IsHex, Carries, from_header-to_header_value}
use ai_platform_sdk.Mcp.Middleware.{Scope, Exit, carries_headers, raw_header, with_header, call}

abbrev pub agent_context_header : String
agent_context_header = "X-Agent-Context"

module _ (codec : Codec) (env : Environ) where
  -- `_build_auth_headers`; the encoding of a context does not raise.
  unfoldable pub build_auth_headers : Option AgentContext → Dict String
  build_auth_headers none = []
  build_auth_headers (some ctx) = (agent_context_header, to_header_value codec env ctx) ∷ []

  empty_header : (ctx : AgentContext) → from_header codec env "" ≡ yields ctx → ⊥
  unfolding from_header verify_and_split verify_segments split_dots
  empty_header ctx h = cc

  -- A request over a bridge runs the server's application once, with the context variable bound to
  -- the identity of the bridge, ends as the application does, and leaves the variable as it was: if
  -- both sides hold the same secret, and the server hands the header on as it was sent.
  pub call-build_auth_headers :
      {S : Type 0} (app : Option AgentContext → S → Exit × S) (ctx : AgentContext) (scope : Scope)
      (before : Option AgentContext) (s : S)
      → IsHex codec
      → Carries codec (post_init ctx)
      → carries_headers scope.kind ≡ true
      → raw_header scope ≡ lookup agent_context_header (build_auth_headers (some (post_init ctx)))
      → let served = app (some (post_init ctx)) s in
        call (from_header codec env) app scope before s ≡ (served.0, served.1, before)
  unfolding call with_header build_auth_headers lookup
  call-build_auth_headers app ctx scope before s hex carries kind delivered =
      let raw = to_header_value codec env (post_init ctx) in
      let read = from_header-to_header_value codec env ctx hex carries in
      elim (Bool-cases (raw == "")) [
        | inl e ↦ absurd (
            empty_header (post_init ctx)
              (ap (λ r. from_header codec env r) (sym ((eq_iff raw "").0 e)) ∙ read))
        | inr e ↦ rw (kind, delivered, e, read) refl
      ]
