-- ===== src/Bridge/Session/Invariant.antt =====
-- What holds of an `MCPToolBridge` of platform_sdk/mcp_bridge.py under its reconnect loop.
use mathlib.Core.Option.{some-injective}
use ai_platform_sdk.Prelude.{
  ℕ, zero, suc, ◌+◌, ◌≤◌, ◌≡◌, refl, Bool, true, false, not, ◌&&◌, Option, none, some, arith, ltb,
  if◌then◌else◌, subst, ap, ◌∙◌, Bool-cases, inl, inr,
}
use ai_platform_sdk.Bridge.Reconnect.{delay}
use ai_platform_sdk.Bridge.Session.{
  Phase, testing, opening, initializing, holding, sleeping, ended, Loop, connect, Happening,
  proceeds, raises, cancelled, disconnects, after_finally, woken, proceed, failed, raise, cancel,
  step, Reachable, connected, stepped,
}

-- Between the opening of the streams and the `finally`.
abbrev pub in_session : Phase → Bool
in_session initializing = true
in_session holding = true
in_session _ = false

-- What holds in every phase.
abbrev pub PhaseHolds : Phase → ℕ → Bool → Type 0
PhaseHolds holding failures signalled = (failures ≡ 0) × (signalled ≡ true)
PhaseHolds (sleeping elapsed) failures signalled = 1 ≤ failures
PhaseHolds _ failures signalled = Unit

abbrev pub SoundAt : Phase → Loop → Type 0
SoundAt p l = (l.session ≡ in_session p) × PhaseHolds p l.consecutive_failures l.connected_event

abbrev pub Sound : Loop → Type 0
Sound l = SoundAt l.phase l

after_finally-Sound :
    (l : Loop) → (l.stop_event ≡ false → 1 ≤ l.consecutive_failures) → Sound (after_finally l)
unfolding after_finally
after_finally-Sound l h = elim (Bool-cases l.stop_event) [
  | inl stop ↦ rw stop (refl, tt)
  | inr on ↦ rw on (refl, h on)
]

failed-Sound : (l : Loop) → Sound (failed l)
failed-Sound l =
    after_finally-Sound (record l { consecutive_failures = l.consecutive_failures + 1 })
      (λ h. omega arith)

-- A step to a known state is sound if that state is.
arrives : (l l' : Loop) → Sound l → some l ≡ some l' → Sound l'
arrives l l' s e = subst Sound (some-injective l l' e) s

moved :
    (b : Bool) (p q : Phase) (l : Loop)
    → SoundAt p l
    → SoundAt q l
    → Sound (record l { phase = if b then p else q })
moved true p q l sp sq = sp
moved false p q l sp sq = sq

woken-Sound : (b : Bool) (l l' : Loop) → l.stop_event ≡ b → woken b l ≡ some l' → Sound l'
unfolding woken
woken-Sound true l l' stop e = arrives _ l' (after_finally-Sound l (λ on. cc)) e
woken-Sound false l l' on e = cc

proceed-Sound : (p : Phase) (l l' : Loop) → SoundAt p l → proceed p l ≡ some l' → Sound l'
unfolding proceed
proceed-Sound testing l l' (same, at) e =
    arrives _ l' (moved l.stop_event ended opening l (same, tt) (same, tt)) e
proceed-Sound opening l l' (same, at) e = arrives _ l' (refl, tt) e
proceed-Sound initializing l l' (same, at) e = arrives _ l' (same, (refl, refl)) e
proceed-Sound holding l l' (same, at) e = woken-Sound l.stop_event l l' refl e
proceed-Sound (sleeping n) l l' (same, at) e =
    arrives _ l'
      (moved (ltb n (delay l.consecutive_failures) && not l.stop_event) (sleeping (n + 1)) testing l
        (same, at) (same, tt))
      e
proceed-Sound ended l l' (same, at) e = cc

raise-Sound : (p : Phase) (l l' : Loop) → raise p l ≡ some l' → Sound l'
unfolding raise
raise-Sound opening l l' e = arrives _ l' (failed-Sound l) e
raise-Sound initializing l l' e = arrives _ l' (failed-Sound l) e
raise-Sound holding l l' e = arrives _ l' (failed-Sound l) e
raise-Sound _ l l' e = cc

cancel-Sound : (p : Phase) (l l' : Loop) → cancel p l ≡ some l' → Sound l'
unfolding cancel
cancel-Sound ended l l' e = cc
cancel-Sound _ l l' e = arrives _ l' (refl, tt) e

step-Sound : (h : Happening) (l l' : Loop) → Sound l → step h l ≡ some l' → Sound l'
unfolding step
step-Sound proceeds l l' s e = proceed-Sound l.phase l l' s e
step-Sound raises l l' s e = raise-Sound l.phase l l' e
step-Sound cancelled l l' s e = cancel-Sound l.phase l l' e
step-Sound disconnects l l' s e = arrives (record l { stop_event = true }) l' s e

-- In every state that a bridge can reach after `connect`, it has a session exactly between the
-- opening of the streams and the clean-up; while it holds a connection its failures are counted
-- from zero and the waiters have been signalled; and it sleeps only after a failure.
pub Reachable-Sound : (l : Loop) → Reachable l → Sound l
Reachable-Sound _ connected = (refl, tt)
Reachable-Sound _ (stepped {l} {l'} h r e) = step-Sound h l l' (Reachable-Sound l r) e

streams_open : Loop
streams_open = record connect { session = true; phase = initializing }

-- A bridge can be reached that counts as connected, while its session is not initialised.
pub session_early : (l : Loop) × Reachable l × (l.session ≡ true) × (l.phase ≡ initializing)
unfolding step streams_open
session_early = (streams_open, stepped proceeds (stepped proceeds connected refl) refl, refl, refl)

abbrev or_stay : Loop → Option Loop → Loop
or_stay l none = l
or_stay l (some l') = l'

-- The loop, going on so many times without an exception.
unfoldable pub run : ℕ → Loop → Loop
unfolding step
run zero l = l
run (suc n) l = run n (or_stay l (step proceeds l))

run_ended :
    (p : Phase) (l : Loop) → l.stop_event ≡ true → (run 3 (record l { phase = p })).phase ≡ ended
unfolding run woken proceed after_finally
run_ended testing l stop = ground arith
run_ended opening l stop = ground arith
run_ended initializing l stop = ground arith
run_ended holding l stop = ground arith
run_ended (sleeping n) l stop = ground arith
run_ended ended l stop = ground arith

or_stay-Sound : (l : Loop) (o : Option Loop) → step proceeds l ≡ o → Sound l → Sound (or_stay l o)
or_stay-Sound l none e s = s
or_stay-Sound l (some l') e s = step-Sound proceeds l l' s e

run-Sound : (n : ℕ) (l : Loop) → Sound l → Sound (run n l)
unfolding run
run-Sound zero l s = s
run-Sound (suc n) l s =
    run-Sound n (or_stay l (step proceeds l)) (or_stay-Sound l (step proceeds l) refl s)

-- `disconnect` ends the loop: wherever it is when the stop event is set, it has ended after three
-- steps that do not raise, and a bridge that was reachable has no session then.
pub disconnect_ends :
    (l : Loop)
    → Reachable l
    → l.stop_event ≡ true
    → ((run 3 l).phase ≡ ended) × ((run 3 l).session ≡ false)
disconnect_ends l r stop =
    let ends = run_ended l.phase l stop in
    (ends, (run-Sound 3 l (Reachable-Sound l r)).0 ∙ ap in_session ends)
