-- ===== src/Bridge/Reconnect.antt =====
-- `MCPToolBridge._reconnect_loop` of platform_sdk/mcp_bridge.py: the attempts, the failure counter
-- and the backoff. The events of the network and of `disconnect()` are arguments.
use native.Mathlib.Nat.{pow-suc}
use native.Mathlib.Numerals.{add-one}
use native.Mathlib.Decide.{dec_lt}
use ai_platform_sdk.Prelude.{
  ℕ, zero, suc, ◌+◌, ◌*◌, ◌^◌, ◌≤◌, ◌<◌, min, ◌≡◌, Bool, true, false, ◌&&◌, not, Option, none, some,
  List, [], ◌∷◌, arith, ltb, lt→ltb, All, if◌then◌else◌,
}

-- How one pass through the `try` ends: an exception before the session is initialised, an
-- exception after it, the stop event while the connection is held, or a cancellation.
pub data Attempt : Type 0 where
  refused dropped stopped cancelled : Attempt

-- The counter of consecutive failures after an attempt, or `none` where the loop ends.
unfoldable pub after_attempt : Attempt → ℕ → Option ℕ
after_attempt refused failures = some (failures + 1)
after_attempt dropped failures = some (0 + 1)
after_attempt stopped failures = none
after_attempt cancelled failures = none

-- `min(2 ** consecutive_failures, 60)`
unfoldable pub delay : ℕ → ℕ
delay failures = min (2 ^ failures) 60

-- The sleep in slices of a second: how many slices pass, with the stop event read before each.
-- `fuel` bounds the rounds.
unfoldable pub sleep_slices : ℕ → (ℕ → Bool) → ℕ → ℕ → ℕ
sleep_slices zero stop seconds elapsed = elapsed
sleep_slices (suc fuel) stop seconds elapsed =
    let rest = sleep_slices fuel stop seconds (elapsed + 1) in
    if ltb elapsed seconds && not (stop elapsed) then rest else elapsed

-- The delays between the attempts of a loop, from the counter at its start.
unfoldable pub delays : List Attempt → ℕ → List ℕ
unfolding after_attempt delay
delays [] failures = []
delays (a ∷ rest) failures = elim (after_attempt a failures) [
  | none ↦ []
  | some n ↦ delay n ∷ delays rest n
]

one-le-pow : (n : ℕ) → 1 ≤ 2 ^ n
one-le-pow zero = omega arith
one-le-pow (suc n) = rw pow-suc (omega (arith, one-le-pow n))

delay_bounds : (n : ℕ) → (2 ≤ delay (suc n)) × (delay (suc n) ≤ 60)
unfolding delay
delay_bounds n = rw pow-suc (omega (arith, one-le-pow n))

-- Every delay of the loop is at least two seconds and at most sixty, whatever the attempts are.
pub delays_bounds :
    (attempts : List Attempt) (failures : ℕ)
    → All (λ d. (2 ≤ d) × (d ≤ 60)) (delays attempts failures)
unfolding delays
delays_bounds [] failures = tt
delays_bounds (refused ∷ rest) failures =
    rw add-one (delay_bounds failures, delays_bounds rest (suc failures))
delays_bounds (dropped ∷ rest) failures = (delay_bounds 0, delays_bounds rest 1)
delays_bounds (stopped ∷ rest) failures = tt
delays_bounds (cancelled ∷ rest) failures = tt

-- The backoff doubles up to its cap: after one more failure in a row the loop waits twice as long,
-- or sixty seconds.
pub delay_doubles : (n : ℕ) → delay (suc n) ≡ min (2 * delay n) 60
unfolding delay
delay_doubles n = rw pow-suc (omega arith)

sleep_slices_from :
    (fuel : ℕ) (stop : ℕ → Bool) (seconds elapsed at : ℕ)
    → elapsed ≤ at
    → at ≤ seconds
    → seconds ≤ elapsed + fuel
    → ((k : ℕ) → k < at → stop k ≡ false)
    → (at < seconds → stop at ≡ true)
    → sleep_slices fuel stop seconds elapsed ≡ at
unfolding sleep_slices
sleep_slices_from zero stop seconds elapsed at a b c before signalled = omega arith
sleep_slices_from (suc fuel) stop seconds elapsed at a b c before signalled =
    elim (dec_lt elapsed at) [
      | yes more ↦
          rw (lt→ltb elapsed seconds (omega arith), before elapsed more)
            (sleep_slices_from fuel stop seconds (elapsed + 1) at (omega arith) b (omega arith)
              before signalled)
      | no done ↦
          let here : elapsed ≡ at = omega arith in
          elim (dec_lt at seconds) [
            | yes cut ↦ rw (here, lt→ltb at seconds cut, signalled cut)
            | no full ↦ ground arith
          ]
    ]

-- The sleep ends: sixty slices of fuel are enough for every delay. It lasts the whole delay if no
-- stop is signalled before, and otherwise it ends with the first slice before which there is one.
pub sleep_slices_exact :
    (stop : ℕ → Bool) (failures at : ℕ)
    → at ≤ delay failures
    → ((k : ℕ) → k < at → stop k ≡ false)
    → (at < delay failures → stop at ≡ true)
    → sleep_slices 60 stop (delay failures) 0 ≡ at
sleep_slices_exact stop failures at inside before signalled =
    sleep_slices_from 60 stop (delay failures) 0 at (omega arith) inside
      (unfold delay in omega arith) before signalled
