-- ===== src/Resilience.antt =====
-- platform_sdk/resilience.py: the circuit breaker. Times are readings of `time.monotonic()` in
-- whole ticks, and each method takes the reading that it makes as an argument.
pub mod History
use ai_platform_sdk.Prelude.{ℕ, ◌+◌, String, Bool, true, false, ltb, leb, if◌then◌else◌}

pub record CircuitBreaker : Type 0 where
  pub name : String
  pub failure_threshold : ℕ
  pub recovery_timeout : ℕ
  pub failures : ℕ
  pub open_until : ℕ

-- The dataclass's constructor: the internal fields start at 0.
abbrev pub circuit_breaker : String → ℕ → ℕ → CircuitBreaker
circuit_breaker name threshold timeout = record {
  name = name;
  failure_threshold = threshold;
  recovery_timeout = timeout;
  failures = 0;
  open_until = 0;
}

unfoldable pub is_open : ℕ → CircuitBreaker → Bool
is_open now cb =
    if ltb cb.failures cb.failure_threshold
    then false
    else if leb cb.open_until now
    then false
    else true

unfoldable pub consecutive_failures : CircuitBreaker → ℕ
consecutive_failures cb = cb.failures

unfoldable pub record_success : CircuitBreaker → CircuitBreaker
record_success cb = record cb { failures = 0 }

unfoldable pub record_failure : ℕ → CircuitBreaker → CircuitBreaker
record_failure now cb =
    let n = cb.failures + 1 in
    if leb cb.failure_threshold n
    then record cb { failures = n; open_until = now + cb.recovery_timeout }
    else record cb { failures = n }
