-- ===== src/Security/Opa/Laws.antt =====
-- `authorize` fails closed, stamps its input on the server's side, and trips its breaker.
use native.Mathlib.Nat.{add-zero, zero-add}
use ai_platform_sdk.Prelude.{
  ℕ, zero, suc, ◌+◌, ◌≤◌, ◌<◌, String, ◌≡◌, refl, ap, ◌∙◌, subst, ◌↔◌, ◌⊎◌, inl, inr, true, false,
  some, arith, ◌==◌, if◌then◌else◌, Bool-cases,
}
use ai_platform_sdk.Prelude.Dict.{Dict, lookup, update, lookup-insert}
use ai_platform_sdk.Json.{Json, str}
use ai_platform_sdk.Resilience.{CircuitBreaker, is_open, record_failure}
use ai_platform_sdk.Security.Opa.{
  OpaClient, Reply, Outcome, decision, transient, outcome, input_data, attempts, authorize,
}

-- The policy engine is asked about the caller's payload with exactly three keys overwritten: the
-- tool, and the environment and the role of the client, whatever the caller put there.
pub input_data-stamped :
    (opa : OpaClient) (tool_name : String) (payload : Dict Json) (k : String)
    → lookup k (input_data opa tool_name payload) ≡ (
        if k == "agent_role"
        then some (str opa.agent_role)
        else if k == "environment"
        then some (str opa.environment)
        else if k == "tool"
        then some (str tool_name)
        else lookup k payload)
unfolding input_data update
input_data-stamped opa tool_name payload k = simp lookup-insert

-- A run of attempts, by their outcomes: within `n` attempts from number `from` on, one grants the
-- call, and every attempt before that one ended by a failure that is retried.
module _ (o : ℕ → Outcome) where
  abbrev Granted : ℕ → ℕ → Type 0
  Granted zero from = ⊥
  Granted (suc n) from = (o from ≡ decision true) ⊎ ((o from ≡ transient) × Granted n (suc from))

  -- The same, with the number of the attempt that grants.
  abbrev pub GrantedAt : ℕ → ℕ → ℕ → Type 0
  GrantedAt n from k =
      (k < n) × (o (from + k) ≡ decision true) × ((j : ℕ) → j < k → o (from + j) ≡ transient)

  next_number : (from k : ℕ) → suc from + k ≡ from + suc k
  next_number from k = omega arith

  Granted→GrantedAt : (n from : ℕ) → Granted n from → (k : ℕ) × GrantedAt n from k
  Granted→GrantedAt zero from g = absurd g
  Granted→GrantedAt (suc n) from (inl e) =
      (0, (omega arith, rw (add-zero from) e, λ j h. elim h [ ]))
  Granted→GrantedAt (suc n) from (inr (t, g)) =
      let (k, (lt, e, before)) = Granted→GrantedAt n (suc from) g in
      (suc k, (omega arith, rw (← next_number from k) e, earlier k before))
    where
      earlier :
          (k : ℕ)
          → ((j : ℕ) → j < k → o (suc from + j) ≡ transient)
          → (j : ℕ) → j < suc k
          → o (from + j) ≡ transient
      earlier k before zero h = rw (add-zero from) t
      earlier k before (suc j) h = rw (← next_number from j) (before j (omega arith))

  GrantedAt→Granted : (n from k : ℕ) → GrantedAt n from k → Granted n from
  GrantedAt→Granted zero from k (lt, e, before) = absurd (omega arith)
  GrantedAt→Granted (suc n) from zero (lt, e, before) = inl (rw (add-zero from) at e)
  GrantedAt→Granted (suc n) from (suc k) (lt, e, before) = inr (
    rw (add-zero from) at (before 0 (omega arith)),
    GrantedAt→Granted n (suc from) k
        (omega arith, rw next_number e, λ j h. rw next_number (before (suc j) (omega arith))),
  )

module _ (ask : ℕ → Dict Json → Reply) (clock : ℕ → ℕ) (input : Dict Json) where
  abbrev ends : ℕ → Outcome
  ends k = outcome (ask k input)

  attempts-Granted :
      (n from : ℕ) (cb : CircuitBreaker)
      → ((attempts ask clock input n from cb).0 ≡ true) ↔ Granted ends n from
  unfolding attempts
  attempts-Granted zero from cb = (λ h. cc, λ h. absurd h)
  attempts-Granted (suc n) from cb =
      ground (arith, attempts-Granted n (suc from) (record_failure (clock from) cb))

  -- Attempts that all fail transiently: the call is denied, each is counted, and when the count
  -- has reached the threshold the latest of them sets the time until which the circuit is open.
  record Exhausted (n from : ℕ) (cb : CircuitBreaker) : Type 0 where
    denied : (attempts ask clock input n from cb).0 ≡ false
    threshold : (attempts ask clock input n from cb).1.failure_threshold ≡ cb.failure_threshold
    recovery : (attempts ask clock input n from cb).1.recovery_timeout ≡ cb.recovery_timeout
    counted : (attempts ask clock input n from cb).1.failures ≡ cb.failures + n

  attempts_step :
      (n from : ℕ) (cb : CircuitBreaker)
      → ends from ≡ transient
      → attempts ask clock input (suc n) from cb
        ≡ attempts ask clock input n (suc from) (record_failure (clock from) cb)
  unfolding attempts
  attempts_step n from cb t = ground arith

  attempts-Exhausted :
      (n from : ℕ) (cb : CircuitBreaker)
      → ((j : ℕ) → j < n → ends (from + j) ≡ transient)
      → Exhausted n from cb
  unfolding attempts record_failure
  attempts-Exhausted zero from cb all = record {
    denied = refl;
    threshold = refl;
    recovery = refl;
    counted = omega arith;
  }
  attempts-Exhausted (suc n) from cb all =
      let e = attempts_step n from cb (rw (add-zero from) at (all 0 (omega arith))) in
      let ih =
        attempts-Exhausted n (suc from) (record_failure (clock from) cb)
          (λ j h. rw (next_number ends from j) (all (suc j) (omega arith))) in
      record {
        denied = rw e ih.denied;
        threshold = rw e (ground (arith, ih.threshold));
        recovery = rw e (ground (arith, ih.recovery));
        counted = rw e (ground (arith, ih.counted));
      }

  attempts_open_until :
      (n from : ℕ) (cb : CircuitBreaker)
      → ((j : ℕ) → j < suc n → ends (from + j) ≡ transient)
      → cb.failure_threshold ≤ cb.failures + suc n
      → (attempts ask clock input (suc n) from cb).1.open_until
        ≡ clock (from + n) + cb.recovery_timeout
  unfolding attempts record_failure
  attempts_open_until zero from cb all reached =
      rw (attempts_step 0 from cb (rw (add-zero from) at (all 0 (omega arith))), add-zero)
        (ground arith)
  attempts_open_until (suc n) from cb all reached =
      let e = attempts_step (suc n) from cb (rw (add-zero from) at (all 0 (omega arith))) in
      rw (e, ← next_number ends from n)
        (ground (
          arith,
          attempts_open_until n (suc from) (record_failure (clock from) cb)
              (λ j h. rw (next_number ends from j) (all (suc j) (omega arith))),
        ))

-- A breaker that has counted to its threshold is open until its time.
is_open_until :
    (cb : CircuitBreaker) (later : ℕ)
    → cb.failure_threshold ≤ cb.failures
    → later < cb.open_until
    → is_open later cb ≡ true
unfolding is_open
is_open_until cb later reached soon = ground arith

module _ (ask : ℕ → Dict Json → Reply) (clock : ℕ → ℕ) (now : ℕ) where
  authorize-open :
      (opa : OpaClient) (tool_name : String) (payload : Dict Json)
      → is_open now opa.cb ≡ true
      → authorize ask clock now opa tool_name payload ≡ (false, opa)
  unfolding authorize
  authorize-open opa tool_name payload h = ground arith

  authorize-closed :
      (opa : OpaClient) (tool_name : String) (payload : Dict Json)
      → is_open now opa.cb ≡ false
      → let r = attempts ask clock (input_data opa tool_name payload) opa.max_retries 0 opa.cb in
        authorize ask clock now opa tool_name payload ≡ (r.0, record opa { cb = r.1 })
  unfolding authorize
  authorize-closed opa tool_name payload h = ground arith

  -- Fail closed: a call is granted exactly when the circuit is not open and there is an attempt,
  -- within the configured number, to which the policy engine answers with a true result after
  -- attempts that all failed transiently.
  pub authorize_granted :
      (opa : OpaClient) (tool_name : String) (payload : Dict Json)
      → ((authorize ask clock now opa tool_name payload).0 ≡ true) ↔ (
          (is_open now opa.cb ≡ false)
          × ((k : ℕ) × GrantedAt
                (λ j. outcome (ask j (input_data opa tool_name payload)))
                opa.max_retries
                0
                k))
  authorize_granted opa tool_name payload = elim (Bool-cases (is_open now opa.cb)) [
    | inl stays ↦ (λ h. cc (authorize-open opa tool_name payload stays), λ h. cc)
    | inr closed ↦ (
      λ h. (
        closed,
        Granted→GrantedAt _ opa.max_retries 0
            (rule.0 (cc (authorize-closed opa tool_name payload closed))),
      ),
      λ h.
          ap (λ r. r.0) (authorize-closed opa tool_name payload closed)
          ∙ rule.1 (GrantedAt→Granted _ opa.max_retries 0 h.1.0 h.1.1),
    )
  ]
    where
      rule :
          ((attempts ask clock (input_data opa tool_name payload) opa.max_retries 0 opa.cb).0
            ≡ true)
          ↔ Granted (ends ask clock (input_data opa tool_name payload)) opa.max_retries 0
      rule = attempts-Granted ask clock (input_data opa tool_name payload) opa.max_retries 0 opa.cb

-- An outage trips the breaker: when every attempt of a call fails transiently and with them the
-- failures reach the threshold, the call is denied, and every call that starts before the
-- recovery timeout has elapsed since the latest attempt is denied too, whatever the policy
-- engine would answer, and changes nothing.
pub authorize_outage :
    (ask ask' : ℕ → Dict Json → Reply) (clock clock' : ℕ → ℕ) (now later n : ℕ) (opa : OpaClient)
    (tool_name tool_name' : String) (payload payload' : Dict Json)
    → is_open now opa.cb ≡ false
    → opa.max_retries ≡ suc n
    → ((j : ℕ) → j < suc n → outcome (ask j (input_data opa tool_name payload)) ≡ transient)
    → opa.cb.failure_threshold ≤ opa.cb.failures + suc n
    → later < clock n + opa.cb.recovery_timeout
    → let after = authorize ask clock now opa tool_name payload in
      (after.0 ≡ false)
      × (authorize ask' clock' later after.1 tool_name' payload' ≡ (false, after.1))
authorize_outage ask ask' clock clock' now later n opa t t' p p' closed retries all reached soon =
    let input = input_data opa t p in
    let r = attempts ask clock input (suc n) 0 opa.cb in
    let e : authorize ask clock now opa t p ≡ (r.0, record opa { cb = r.1 }) =
      subst
        (λ m. authorize ask clock now opa t p ≡ (
          (attempts ask clock input m 0 opa.cb).0,
          record opa { cb = (attempts ask clock input m 0 opa.cb).1 },
        ))
        retries (authorize-closed ask clock now opa t p closed) in
    let x = attempts-Exhausted ask clock input (suc n) 0 opa.cb (λ j h. rw (zero-add) (all j h)) in
    let u =
      attempts_open_until ask clock input n 0 opa.cb (λ j h. rw (zero-add) (all j h)) reached in
    let o : is_open later r.1 ≡ true =
      is_open_until r.1 later (omega (arith, x.counted, x.threshold)) (rw (u, zero-add) soon) in
    rw e (x.denied, authorize-open ask' clock' later (record opa { cb = r.1 }) t' p' o)
