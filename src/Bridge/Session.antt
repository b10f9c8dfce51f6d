-- ===== src/Bridge/Session.antt =====
-- The state of an `MCPToolBridge` of platform_sdk/mcp_bridge.py under its reconnect loop, as a step
-- relation between the points at which the loop awaits. The events of the network, the calls of
-- `disconnect` and a cancellation may come in any order.
pub mod Invariant
use mathlib.Core.Option.{some-injective}
use ai_platform_sdk.Prelude.{
  ℕ, zero, suc, ◌+◌, ◌≤◌, ◌≡◌, refl, Bool, true, false, not, ◌&&◌, Option, none, some, arith, ltb,
  if◌then◌else◌, subst, Bool-cases, inl, inr,
}
use ai_platform_sdk.Bridge.Reconnect.{delay}

-- Where the loop is: at its `while` test, opening the streams, initialising the session, holding
-- the connection, asleep for so many slices, or ended.
pub data Phase : Type 0 where
  testing opening initializing holding : Phase
  sleeping : ℕ → Phase
  ended : Phase

pub record Loop : Type 0 where
  pub phase : Phase
  pub session : Bool
  pub connected_event : Bool
  pub stop_event : Bool
  pub consecutive_failures : ℕ

-- `connect`: fresh events, and the loop as a new task.
abbrev pub connect : Loop
connect = record {
  phase = testing;
  session = false;
  connected_event = false;
  stop_event = false;
  consecutive_failures = 0;
}

-- What happens next: the loop goes on, its attempt raises, it is cancelled, or `disconnect` is
-- called.
pub data Happening : Type 0 where
  proceeds raises cancelled disconnects : Happening

-- Behind the `finally`: the stop event ends the loop, or else it sleeps.
unfoldable pub after_finally : Loop → Loop
after_finally l =
    if l.stop_event
    then record l { session = false; phase = ended }
    else record l { session = false; phase = sleeping 0 }

-- `await self._stop_event.wait()`
unfoldable pub woken : Bool → Loop → Option Loop
unfolding after_finally
woken true l = some (after_finally l)
woken false l = none

-- The loop goes on from where it awaits; `none` where it waits for something else. The session is
-- set when the streams are open, and is initialised after that.
unfoldable pub proceed : Phase → Loop → Option Loop
unfolding woken delay
proceed testing l = some (record l { phase = if l.stop_event then ended else opening })
proceed opening l = some (record l { session = true; phase = initializing })
proceed initializing l =
    some (record l { phase = holding; consecutive_failures = 0; connected_event = true })
proceed holding l = woken l.stop_event l
proceed (sleeping elapsed) l = some (record l {
  phase =
      if ltb elapsed (delay l.consecutive_failures) && not l.stop_event
      then sleeping (elapsed + 1)
      else testing;
})
proceed ended l = none

abbrev pub failed : Loop → Loop
failed l = after_finally (record l { consecutive_failures = l.consecutive_failures + 1 })

-- An exception in the `try`.
unfoldable pub raise : Phase → Loop → Option Loop
unfolding after_finally
raise opening l = some (failed l)
raise initializing l = some (failed l)
raise holding l = some (failed l)
raise _ l = none

-- A cancellation in the `try` breaks out of the loop; elsewhere it ends the task.
unfoldable pub cancel : Phase → Loop → Option Loop
cancel ended l = none
cancel _ l = some (record l { session = false; phase = ended })

unfoldable pub step : Happening → Loop → Option Loop
unfolding proceed raise cancel
step proceeds l = proceed l.phase l
step raises l = raise l.phase l
step cancelled l = cancel l.phase l
step disconnects l = some (record l { stop_event = true })

-- The states that a bridge can be in after `connect`.
pub data Reachable : Loop → Type 0 where
  connected : Reachable connect
  stepped : {l l' : Loop} → (h : Happening) → Reachable l → step h l ≡ some l' → Reachable l'
