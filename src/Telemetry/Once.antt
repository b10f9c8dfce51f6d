-- ===== src/Telemetry/Once.antt =====
-- How often platform_sdk/telemetry.py starts the tracing.
use ai_platform_sdk.Prelude.{
  ℕ, suc, ◌+◌, ◌≤◌, String, ◌≡◌, refl, ◌∙◌, ap, true, Option, none, some, List, [], ◌∷◌, length,
  length-append, arith, if◌then◌else◌, Bool-cases, inl, inr,
}
use ai_platform_sdk.Telemetry.{
  World, Telemetry, set_text, named, start_tracing, setup_telemetry, setup_all,
}

setup_telemetry_initialized :
    (w : World) (name : Option String) (s : Telemetry)
    → s.otel_initialized ≡ true
    → setup_telemetry w name s ≡ (true, s)
unfolding setup_telemetry
setup_telemetry_initialized w name s h = rw h refl

setup_telemetry_returned :
    (w : World) (name : Option String) (s : Telemetry)
    → (setup_telemetry w name s).0 ≡ true
    → (setup_telemetry w name s).1.otel_initialized ≡ true
unfolding setup_telemetry
setup_telemetry_returned w name s h = ground arith

setup_all_initialized :
    (calls : List (World × Option String)) (s : Telemetry)
    → s.otel_initialized ≡ true
    → setup_all calls s ≡ s
unfolding setup_all
setup_all_initialized [] s h = refl
setup_all_initialized ((w, name) ∷ calls) s h =
    ap (λ r. setup_all calls r.1) (setup_telemetry_initialized w name s h)
    ∙ setup_all_initialized calls s h

-- How many of the calls raise.
unfoldable pub raised : List (World × Option String) → Telemetry → ℕ
unfolding setup_telemetry
raised [] s = 0
raised ((w, name) ∷ calls) s =
    let (ok, s') = setup_telemetry w name s in
    let rest = raised calls s' in if ok then rest else suc rest

start_tracing_providers :
    (w : World) (name endpoint : Option String) (s : Telemetry)
    → length (start_tracing w name endpoint s).1.providers ≤ length s.providers + 1
start_tracing_providers w name none s = omega arith
start_tracing_providers w name (some endpoint) s =
    ground (arith, length-append s.providers ((named w (set_text name), endpoint) ∷ []))

setup_telemetry_providers :
    (w : World) (name : Option String) (s : Telemetry)
    → length (setup_telemetry w name s).1.providers ≤ length s.providers + 1
unfolding setup_telemetry
setup_telemetry_providers w name s =
    ground
      (arith, start_tracing_providers w name (set_text (w.getenv "OTEL_EXPORTER_OTLP_ENDPOINT")) s)

setup_all_providers :
    (calls : List (World × Option String)) (s : Telemetry)
    → length (setup_all calls s).providers ≤ length s.providers + raised calls s + 1
unfolding setup_all raised
setup_all_providers [] s = omega arith
setup_all_providers ((w, name) ∷ calls) s =
    let s' = (setup_telemetry w name s).1 in
    elim (Bool-cases (setup_telemetry w name s).0) [
      | inl h ↦
          rw (h, setup_all_initialized calls s' (setup_telemetry_returned w name s h))
            (omega (arith, setup_telemetry_providers w name s))
      | inr h ↦
          rw h (omega (arith, setup_telemetry_providers w name s, setup_all_providers calls s'))
    ]

-- A process that starts its telemetry as often as it likes hands OpenTelemetry at most one tracer
-- provider more than there are calls that raise; and after a call that has returned nothing
-- changes any more, whatever the environment and the libraries are then.
pub setup_all_once :
    (before after : List (World × Option String)) (w : World) (name : Option String) (s : Telemetry)
    → (setup_telemetry w name (setup_all before s)).0 ≡ true
    → (length (setup_all before s).providers ≤ length s.providers + raised before s + 1)
      × (setup_all after (setup_telemetry w name (setup_all before s)).1
          ≡ (setup_telemetry w name (setup_all before s)).1)
setup_all_once before after w name s h = (
  setup_all_providers before s,
  setup_all_initialized after (setup_telemetry w name (setup_all before s)).1
      (setup_telemetry_returned w name (setup_all before s) h),
)
