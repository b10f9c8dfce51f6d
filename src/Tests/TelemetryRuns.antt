-- ===== src/Tests/TelemetryRuns.antt =====
-- platform_sdk/metrics.py and telemetry.py at concrete inputs.
use ai_platform_sdk.Prelude.{◌≡◌, refl, true, false, List, [], ◌∷◌}
use ai_platform_sdk.Metrics.{Otel, Recording, cache_state, opa_decision, record_all, initial}
use ai_platform_sdk.Metrics.Totals.{value, amount, total, record_all-total}

abbrev working : Otel
working = record { imports = true; creates = λ i. true }

-- The circuit opens, closes and opens again.
abbrev reports : List (Otel × Recording)
reports =
    (working, cache_state true 5)
    ∷ (working, cache_state false 0)
    ∷ (working, opa_decision "read" true 3)
    ∷ (working, cache_state true 2)
    ∷ []

-- The gauge shows 2.
record_all-total_example :
    value "cache.circuit_breaker.state" (record_all reports initial).calls ≡ 2
unfolding total amount
record_all-total_example =
    record_all-total reports "cache.circuit_breaker.state"
      ((refl, λ i. refl), ((refl, λ i. refl), ((refl, λ i. refl), ((refl, λ i. refl), tt))))
