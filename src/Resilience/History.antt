-- ===== src/Resilience/History.antt =====
-- The breaker against the history of the calls that it saw.
use ai_platform_sdk.Prelude.{
  ℕ, suc, ◌+◌, ◌≤◌, ◌<◌, String, ◌≡◌, false, ◌&&◌, List, [], ◌∷◌, arith, ltb, leb,
}
use ai_platform_sdk.Resilience.{
  CircuitBreaker, circuit_breaker, is_open, consecutive_failures, record_success, record_failure,
}

-- A call that ended: by a success, or by a failure at a time.
pub data Event : Type 0 where
  success : Event
  failure : ℕ → Event

abbrev observe : Event → CircuitBreaker → CircuitBreaker
observe success cb = record_success cb
observe (failure t) cb = record_failure t cb

-- The breaker after a history, the latest event first.
unfoldable pub replay : List Event → CircuitBreaker → CircuitBreaker
replay [] cb = cb
replay (e ∷ older) cb = observe e (replay older cb)

-- The failures since the last success.
unfoldable pub trailing_failures : List Event → ℕ
trailing_failures [] = 0
trailing_failures (success ∷ older) = 0
trailing_failures (failure t ∷ older) = suc (trailing_failures older)

-- The time until which the latest failure, if it is the latest event, keeps the circuit open.
unfoldable pub deadline : ℕ → List Event → ℕ
deadline timeout [] = 0
deadline timeout (success ∷ older) = 0
deadline timeout (failure t ∷ older) = t + timeout

module _ (name : String) (threshold timeout : ℕ) where
  abbrev after : List Event → CircuitBreaker
  after h = replay h (circuit_breaker name threshold timeout)

  replay_constants :
      (h : List Event)
      → ((after h).failure_threshold ≡ threshold) × ((after h).recovery_timeout ≡ timeout)
  unfolding replay record_success record_failure
  replay_constants [] = omega arith
  replay_constants (success ∷ older) = replay_constants older
  replay_constants (failure t ∷ older) = ground (arith, replay_constants older)

  -- The count that the breaker keeps is the number of failures since the last success.
  pub consecutive_failures-replay :
      (h : List Event) → consecutive_failures (after h) ≡ trailing_failures h
  unfolding replay consecutive_failures record_success record_failure trailing_failures
  consecutive_failures-replay [] = omega arith
  consecutive_failures-replay (success ∷ older) = omega arith
  consecutive_failures-replay (failure t ∷ older) =
      ground (arith, consecutive_failures-replay older, replay_constants older)

  -- With a positive threshold, the circuit is open exactly when the failures since the last
  -- success have reached the threshold and the recovery timeout has not elapsed since the
  -- latest of them.
  pub is_open-replay :
      (h : List Event) (now : ℕ)
      → 0 < threshold
      → is_open now (after h)
        ≡ (leb threshold (trailing_failures h) && ltb now (deadline timeout h))
  unfolding replay is_open record_success record_failure trailing_failures deadline
      consecutive_failures
  is_open-replay [] now pos = ground arith
  is_open-replay (success ∷ older) now pos = ground (arith, replay_constants older)
  is_open-replay (failure t ∷ older) now pos =
      ground (arith, replay_constants older, consecutive_failures-replay older)

-- Once a circuit lets a call through, it lets every later call through, as many as come, until a
-- further failure is recorded.
pub is_open-later :
    (cb : CircuitBreaker) (now later : ℕ)
    → now ≤ later
    → is_open now cb ≡ false
    → is_open later cb ≡ false
unfolding is_open
is_open-later cb now later h closed = ground arith
