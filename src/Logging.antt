-- ===== src/Logging.antt =====
-- platform_sdk/logging.py: what `configure_logging` leaves in structlog and in the root logger. A
-- handler is the renderer of its formatter, and what others have put at the root is its name. A text
-- is in upper case by an argument.
pub mod Again
use ai_platform_sdk.Prelude.{
  String, ◌≡◌, ◌↔◌, ◌≢◌, refl, Bool, true, false, not, ◌&&◌, Option, none, some, List, [], ◌∷◌,
  ◌==◌, eq_iff, arith, if◌then◌else◌, Bool-cases, inl, inr,
}
use ai_platform_sdk.Prelude.Dict.{Dict, lookup, insert}

pub data Renderer : Type 0 where
  console : Renderer
  json_lines : Renderer

pub data Handler : Type 0 where
  stream : Renderer → Handler
  foreign : String → Handler

-- The renderer that structlog is configured with, the root logger's handlers and level, and the
-- levels of the named loggers.
pub record Logging : Type 0 where
  pub handlers : List Handler
  pub level : String
  pub levels : Dict String

abbrev pub text_or : String → Option String → String
text_or default none = default
text_or default (some v) = v

-- `level or os.getenv("LOG_LEVEL", "INFO")`
abbrev pub level_or : Option String → Option String → String
level_or none variable = text_or "INFO" variable
level_or (some level) variable = if level == "" then text_or "INFO" variable else level

abbrev pub is_set : Option String → Bool
is_set none = false
is_set (some v) = true

abbrev pub is_truthy : Option String → Bool
is_truthy none = false
is_truthy (some v) = not (v == "")

abbrev pub is_json : Option String → Bool
is_json none = false
is_json (some v) = v == "json"

-- The choice of the renderer by `TERM`, `CI` and `LOG_FORMAT`
unfoldable pub choose_renderer : (String → Option String) → Renderer
choose_renderer getenv =
    if is_truthy (getenv "TERM")
      && not (is_set (getenv "CI"))
      && not (is_json (getenv "LOG_FORMAT"))
    then console
    else json_lines

-- The loop over the noisy loggers.
unfoldable pub quieted : List String → Dict String → Dict String
unfolding insert
quieted [] levels = levels
quieted (name ∷ names) levels = quieted names (insert name "WARNING" levels)

abbrev pub noisy : List String
noisy = "httpx" ∷ "asyncpg" ∷ "openai" ∷ "urllib3" ∷ []

-- `configure_logging`, and whether it returns: `setLevel` raises for a name that is no level, when
-- the handler is there already.
unfoldable pub configure_logging :
    (String → String)
    → (String → Bool)
    → (String → Option String)
    → Option String
    → Logging
    → Bool × Logging
unfolding choose_renderer quieted
configure_logging upper is_level getenv level s =
    let log_level = upper (level_or level (getenv "LOG_LEVEL")) in
    let s' = record s { handlers = stream (choose_renderer getenv) ∷ [] } in
    if is_level log_level
    then (true, record s' { level = log_level; levels = quieted noisy s.levels })
    else (false, s')
