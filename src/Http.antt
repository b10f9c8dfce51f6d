-- ===== src/Http.antt =====
-- platform_sdk/http.py: the headers that every internal HTTP client carries.
pub mod Isolation
use ai_platform_sdk.Prelude.{String, ◌<>◌, Bool, [], ◌∷◌, ◌==◌, if◌then◌else◌}
use ai_platform_sdk.Prelude.Dict.{Dict, insert, has_key}

abbrev pub env_header : String
env_header = "X-Environment"

-- `headers.setdefault(k, v)`
unfoldable pub set_default : String → String → Dict String → Dict String
set_default k v headers = if has_key k headers then headers else insert k v headers

unfoldable pub add_extra : Dict String → Dict String → Dict String
unfolding set_default
add_extra headers [] = headers
add_extra headers ((k, v) ∷ extra) = add_extra (set_default k v headers) extra

abbrev pub safety_headers : String → String → Dict String
safety_headers environment api_key =
    if api_key == ""
    then (env_header, environment) ∷ []
    else (env_header, environment) ∷ ("Authorization", "Bearer " <> api_key) ∷ []

-- The headers of `make_internal_http_client`, for the caller's own.
unfoldable pub make_headers : String → String → Dict String → Dict String
unfolding add_extra
make_headers environment api_key extra = add_extra (safety_headers environment api_key) extra
