-- ===== src/Telemetry.antt =====
-- platform_sdk/telemetry.py: the start of tracing and of the LangFuse client, which are kept in the
-- module. What OpenTelemetry and LangFuse do is a parameter, and what is logged is left out.
pub mod Once
use ai_platform_sdk.Prelude.{
  String, Bool, true, false, Option, none, some, List, [], ◌∷◌, ◌++◌, ◌==◌, not, ◌||◌,
  if◌then◌else◌,
}

-- What a call of a library does.
pub data Attempt : Type 0 where
  done : Attempt
  import_error : Attempt
  raises : Attempt

-- What a constructor of LangFuse does.
pub data Construct : Type 0 where
  built : String → Construct
  type_error : Construct
  fails : Construct

-- The environment and the libraries at a call. The constructors get the public key, the secret key
-- and the host; the handler's constructor also the session, the user and the name of the trace.
pub record World : Type 0 where
  pub getenv : String → Option String
  pub exporter : String → String → Bool
  pub openai : Attempt
  pub langchain : Attempt
  pub langfuse : Bool
  pub langfuse_v3 : String → String → String → Construct
  pub langfuse_v2 : String → String → String → Construct
  pub callback : Bool
  pub callback_handler :
      String → String → String → Option String → Option String → Option String → Construct

-- `_otel_initialized`, `_langfuse_client`, and the names and end points of the tracer providers
-- that were handed to OpenTelemetry.
pub record Telemetry : Type 0 where
  pub otel_initialized : Bool
  pub langfuse_client : Option String
  pub providers : List (String × String)

-- `os.getenv(k)` where it is tested, and `os.getenv(k, default)`
abbrev pub set_text : Option String → Option String
set_text none = none
set_text (some v) = if v == "" then none else some v

abbrev pub text_or : String → Option String → String
text_or default none = default
text_or default (some v) = v

-- `service_name or os.getenv("SERVICE_NAME", "enterprise-ai-service")`
abbrev pub named : World → Option String → String
named w none = text_or "enterprise-ai-service" (w.getenv "SERVICE_NAME")
named w (some name) = name

-- Whether the part of the start runs on: an `ImportError` is caught, nothing else.
abbrev pub tried : Attempt → Bool
tried done = true
tried import_error = true
tried raises = false

-- The part on tracing, for the end point that is set: whether it returns, and the state.
abbrev pub start_tracing : World → Option String → Option String → Telemetry → Bool × Telemetry
start_tracing w service_name none s = (true, s)
start_tracing w service_name (some endpoint) s =
    let name = named w (set_text service_name) in
    let s' = record s { providers = s.providers ++ ((name, endpoint) ∷ []) } in
    if not (w.exporter name endpoint)
    then (false, s)
    else if tried w.openai
    then (tried w.langchain, s')
    else (false, s')

abbrev pub host_of : World → String
host_of w = text_or "http://langfuse:3000" (w.getenv "LANGFUSE_HOST")

abbrev pub built_or_none : Construct → Option String
built_or_none (built client) = some client
built_or_none type_error = none
built_or_none fails = none

-- Version 3 of the interface, and version 2 after a `TypeError`.
abbrev pub v3_or_v2 : Construct → Construct → Option String
v3_or_v2 (built client) v2 = some client
v3_or_v2 type_error v2 = built_or_none v2
v3_or_v2 fails v2 = none

-- The client for the two keys.
abbrev pub make_client : World → Option String → Option String → Option String
make_client w none secret_key = none
make_client w (some public_key) none = none
make_client w (some public_key) (some secret_key) =
    if w.langfuse
    then v3_or_v2 (w.langfuse_v3 public_key secret_key (host_of w))
        (w.langfuse_v2 public_key secret_key (host_of w))
    else none

abbrev pub langfuse_keys : World → Option String × Option String
langfuse_keys w =
    (set_text (w.getenv "LANGFUSE_PUBLIC_KEY"), set_text (w.getenv "LANGFUSE_SECRET_KEY"))

-- `setup_telemetry`: whether it returns, and the state.
unfoldable pub setup_telemetry : World → Option String → Telemetry → Bool × Telemetry
setup_telemetry w service_name s =
    let (public_key, secret_key) = langfuse_keys w in
    let (ok, s') =
      start_tracing w service_name (set_text (w.getenv "OTEL_EXPORTER_OTLP_ENDPOINT")) s in
    if s.otel_initialized
    then (true, s)
    else if ok
    then (
      true,
      record s' { langfuse_client = make_client w public_key secret_key; otel_initialized = true },
    )
    else (false, s')

abbrev pub get_langfuse : Telemetry → Option String
get_langfuse s = s.langfuse_client

abbrev pub handler_for :
    World
    → Option String
    → Option String
    → Option String × Option String × Option String
    → Option String
handler_for w none secret_key labels = none
handler_for w (some public_key) none labels = none
handler_for w (some public_key) (some secret_key) (session_id, user_id, trace_name) =
    if w.callback
    then built_or_none
        (w.callback_handler public_key secret_key (host_of w) session_id user_id trace_name)
    else none

-- `get_langfuse_callback_handler`
unfoldable pub get_langfuse_callback_handler :
    World → Option String → Option String → Option String → Option String
get_langfuse_callback_handler w session_id user_id trace_name =
    let (public_key, secret_key) = langfuse_keys w in
    handler_for w public_key secret_key (session_id, user_id, trace_name)

-- `reset_telemetry_for_tests`, which leaves the tracer provider in place
unfoldable pub reset_telemetry_for_tests : Telemetry → Telemetry
reset_telemetry_for_tests s = record s { otel_initialized = false; langfuse_client = none }

-- The calls of a process, one after another.
unfoldable pub setup_all : List (World × Option String) → Telemetry → Telemetry
unfolding setup_telemetry
setup_all [] s = s
setup_all ((w, service_name) ∷ calls) s = setup_all calls (setup_telemetry w service_name s).1
