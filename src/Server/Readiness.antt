-- ===== src/Server/Readiness.antt =====
-- What the readiness endpoint of platform_sdk/mcp_server_base.py reports of its checks.
use ai_platform_sdk.Prelude.{
  String, ◌≡◌, refl, ◌↔◌, ◌⊎◌, Bool, true, false, ◌&&◌, Option, none, some, [], ◌∷◌, arith, ◌==◌,
  eq_iff, All, if◌then◌else◌,
}
use ai_platform_sdk.Prelude.Dict.{
  Dict, lookup, insert, has_key, NodupKeys, lookup-insert, has_key-insert, has_key-lookup-none,
  lookup-nil,
}
use ai_platform_sdk.Server.{Check, fails, returns, check_result, check_all, all_ok, readiness}

abbrev pub passes : Check → Bool
passes fails = false
passes (returns b) = b

abbrev pub outcome_of : Option Check → Option String
outcome_of none = none
outcome_of (some c) = some (check_result c)

abbrev pub Passing : String × Check → Type 0
Passing (name, c) = passes c ≡ true

lookup-check_all :
    (k : String) (checks : Dict Check) (results : Dict String)
    → NodupKeys checks
    → lookup k (check_all checks results)
      ≡ (if has_key k checks then outcome_of (lookup k checks) else lookup k results)
unfolding check_all lookup has_key
lookup-check_all k [] results u = refl
lookup-check_all k ((j, c) ∷ checks) results (fresh, u) = ground (
  arith,
  eq_iff k j,
  lookup-check_all k checks (insert j (check_result c) results) u,
  lookup-insert k j (check_result c) results,
)

abbrev every_passes : Dict Check → Bool
every_passes [] = true
every_passes ((name, c) ∷ checks) = passes c && every_passes checks

every_passes-Passing : (checks : Dict Check) → (every_passes checks ≡ true) ↔ All Passing checks
every_passes-Passing [] = (λ h. tt, λ h. refl)
every_passes-Passing ((name, c) ∷ checks) = ground (arith, every_passes-Passing checks)

check_result_ok : (c : Check) → (check_result c == "ok") ≡ passes c
check_result_ok fails = refl
check_result_ok (returns true) = refl
check_result_ok (returns false) = refl

all_ok-insert :
    (k v : String) (results : Dict String)
    → has_key k results ≡ false
    → all_ok (insert k v results) ≡ (all_ok results && (v == "ok"))
unfolding all_ok insert has_key
all_ok-insert k v [] h = ground arith
all_ok-insert k v ((j, w) ∷ results) h = ground (arith, all_ok-insert k v results)

-- No check has a result yet.
Pending : Dict String → Dict Check → Type 0
Pending results checks = All (λ e. has_key e.0 results ≡ false) checks

Pending-insert :
    (k v : String) (results : Dict String) (checks : Dict Check)
    → has_key k checks ≡ false
    → Pending results checks
    → Pending (insert k v results) checks
unfolding Pending has_key
Pending-insert k v results [] h p = tt
Pending-insert k v results ((j, c) ∷ checks) h (p, ps) =
    ground (
      arith,
      eq_iff k j,
      eq_iff j k,
      has_key-insert j k v results,
      Pending-insert k v results checks,
    )

all_ok-check_all :
    (checks : Dict Check) (results : Dict String)
    → NodupKeys checks
    → Pending results checks
    → all_ok (check_all checks results) ≡ (all_ok results && every_passes checks)
unfolding check_all Pending
all_ok-check_all [] results u p = ground arith
all_ok-check_all ((name, c) ∷ checks) results (fresh, u) (p, ps) = ground (
  arith,
  all_ok-check_all checks (insert name (check_result c) results) u
      (Pending-insert name (check_result c) results checks fresh ps),
  all_ok-insert name (check_result c) results p,
  check_result_ok c,
)

Pending-nil : (checks : Dict Check) → Pending [] checks
unfolding Pending has_key
Pending-nil [] = tt
Pending-nil ((name, c) ∷ checks) = (refl, Pending-nil checks)

all_ok-nil : all_ok [] ≡ true
unfolding all_ok
all_ok-nil = refl

readiness_result :
    (checks : Dict Check) (k : String)
    → NodupKeys checks
    → lookup k (readiness checks).checks ≡ outcome_of (lookup k checks)
unfolding readiness
readiness_result checks k u =
    ground (
      arith,
      lookup-check_all k checks [] u,
      has_key-lookup-none k checks,
      lookup-nil {V = String} k,
    )

readiness_status :
    (checks : Dict Check)
    → NodupKeys checks
    → ((readiness checks).status_code ≡ 200) ↔ All Passing checks
unfolding readiness
readiness_status checks u = ground (
  arith,
  all_ok-check_all checks [] u (Pending-nil checks),
  all_ok-nil,
  every_passes-Passing checks,
)

-- The service reports itself ready, with status 200, exactly if every check of the router returns
-- true; otherwise the status is 503. Each check has its own result in the answer, also those behind
-- a check that raises, and no other name has one.
pub readiness_ready :
    (checks : Dict Check)
    → NodupKeys checks
    → let answer = readiness checks in
      ((answer.status_code ≡ 200) ↔ All Passing checks)
      × ((answer.status_code ≡ 200) ⊎ (answer.status_code ≡ 503))
      × ((k : String) → lookup k answer.checks ≡ outcome_of (lookup k checks))
readiness_ready checks u = (
  readiness_status checks u,
  unfold readiness in (ground arith),
  λ k. readiness_result checks k u,
)
