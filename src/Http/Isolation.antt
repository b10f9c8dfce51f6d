-- ===== src/Http/Isolation.antt =====
-- Which services take the requests of a client of platform_sdk/http.py.
use ai_platform_sdk.Prelude.{
  String, ◌<>◌, ◌≡◌, ◌≢◌, ◌↔◌, true, Option, none, some, [], ◌∷◌, arith, eq_iff, is_ascii,
}
use ai_platform_sdk.Prelude.Dict.{Dict, lookup, lookup-insert, lookup-has_key}
use ai_platform_sdk.Security.ApiKey.{Verdict, accepted, rejected, text_or, verify}
use ai_platform_sdk.Security.ApiKey.Laws.{verify-accepted}
use ai_platform_sdk.Http.{env_header, set_default, add_extra, safety_headers, make_headers}

lookup-set_default :
    (j k v w : String) (headers : Dict String)
    → lookup j headers ≡ some w
    → lookup j (set_default k v headers) ≡ some w
unfolding set_default
lookup-set_default j k v w headers h =
    ground (arith, eq_iff j k, lookup-insert j k v headers, lookup-has_key j headers w)

lookup-add_extra :
    (j w : String) (headers extra : Dict String)
    → lookup j headers ≡ some w
    → lookup j (add_extra headers extra) ≡ some w
unfolding add_extra
lookup-add_extra j w headers [] h = h
lookup-add_extra j w headers ((k, v) ∷ extra) h =
    lookup-add_extra j w (set_default k v headers) extra (lookup-set_default j k v w headers h)

own_environment :
    (environment api_key : String)
    → lookup env_header (safety_headers environment api_key) ≡ some environment
unfolding lookup
own_environment environment api_key = ground arith

own_authorization :
    (environment api_key : String)
    → api_key ≢ ""
    → lookup "Authorization" (safety_headers environment api_key) ≡ some ("Bearer " <> api_key)
unfolding lookup
own_authorization environment api_key h = ground (arith, eq_iff api_key "")

-- No header of the caller replaces the environment, or the authorization of a client that has a
-- key.
pub lookup-make_headers :
    (environment api_key : String) (extra : Dict String)
    → (lookup env_header (make_headers environment api_key extra) ≡ some environment)
      × (api_key ≢ ""
          → lookup "Authorization" (make_headers environment api_key extra)
            ≡ some ("Bearer " <> api_key))
unfolding make_headers
lookup-make_headers environment api_key extra = (
  lookup-add_extra env_header environment (safety_headers environment api_key) extra
      (own_environment environment api_key),
  λ h.
      lookup-add_extra "Authorization" ("Bearer " <> api_key) (safety_headers environment api_key)
        extra (own_authorization environment api_key h),
)

-- FastAPI's `HTTPBearer`, which finds the credentials in the `Authorization` header: what it documents
-- of a header that has them.
abbrev pub ReadsBearer : (Option String → Option String) → Type 0
ReadsBearer bearer = (token : String) → token ≢ "" → bearer (some ("Bearer " <> token)) ≡ some token

-- A request with these headers at a service: `HTTPBearer` rejects it, or the verifier of the service
-- decides.
abbrev pub by_credentials :
    Option String → Option String → Option String → Option String → Option String → Verdict
by_credentials key env_key environment header none = rejected 403
by_credentials key env_key environment header (some credentials) =
    verify key env_key environment header credentials

abbrev pub serve :
    (Option String → Option String)
    → Option String
    → Option String
    → Option String
    → Dict String
    → Verdict
serve bearer key env_key environment headers =
    by_credentials key env_key environment (lookup env_header headers)
      (bearer (lookup "Authorization" headers))

-- The isolation of the environments, from the headers of a client to the verdict of a service: with
-- a key that is not empty and is ASCII, a request is accepted exactly if the service runs in the
-- client's environment and holds the client's key, whatever headers the caller adds.
pub verify-make_headers :
    (bearer : Option String → Option String) (environment server_environment api_key : String)
    (server_key env_key : Option String) (extra : Dict String)
    → ReadsBearer bearer
    → api_key ≢ ""
    → is_ascii api_key ≡ true
    → (serve bearer server_key env_key
          (some server_environment)
          (make_headers environment api_key extra)
        ≡ accepted api_key)
      ↔ ((environment ≡ server_environment) × (api_key ≡ text_or server_key env_key))
verify-make_headers bearer environment server_environment api_key server_key env_key extra reads
      given ascii =
    let (env, auth) = lookup-make_headers environment api_key extra in
    rw (env, auth given, reads api_key given)
      (ground (
        arith,
        verify-accepted server_key env_key (some server_environment) (some environment) api_key
            api_key,
      ))
