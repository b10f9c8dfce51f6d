-- ===== src/Config/Models/Valid.antt =====
-- What a validated configuration of platform_sdk/config satisfies.
use ai_platform_sdk.Prelude.{
  ℕ, ◌≤◌, ◌≡◌, ◌≢◌, refl, ap, subst, Bool, true, false, none, some, arith, contains, eq_iff,
  if◌then◌else◌,
}
use ai_platform_sdk.Config.Models.{
  ℤ, pos, negsuc, environments, AgentConfig, clamp_recursion_limit, validate_agent, accepts,
  clamped,
}

-- An integer between two numbers.
abbrev pub Between : ℕ → ℕ → ℤ → Type 0
Between low high (pos k) = (low ≤ k) × (k ≤ high)
Between low high (negsuc k) = ⊥

clamp_Between : (v : ℤ) → Between 1 50 (clamp_recursion_limit v)
unfolding clamp_recursion_limit
clamp_Between (pos v) = (omega arith, omega arith)
clamp_Between (negsuc v) = (omega arith, omega arith)

clamp_again : (v : ℤ) → clamp_recursion_limit (clamp_recursion_limit v) ≡ clamp_recursion_limit v
unfolding clamp_recursion_limit
clamp_again (pos v) = ap pos (omega arith)
clamp_again (negsuc v) = refl

clamp_within : (v : ℤ) → Between 1 50 v → clamp_recursion_limit v ≡ v
unfolding clamp_recursion_limit
clamp_within (pos v) (low, high) = ap pos (omega arith)
clamp_within (negsuc v) b = absurd b

accepted :
    (b : Bool) (x y : AgentConfig) → (if b then some x else none) ≡ some y → (b ≡ true) × (x ≡ y)
accepted true x y h = (refl, ground arith)
accepted false x y h = cc

Valid : AgentConfig → AgentConfig → Type 0
Valid c c' =
    (contains environments c'.environment ≡ true)
    × (c'.model_route ≢ "")
    × Between 1 50 c'.recursion_limit
    × (Between 1 50 c.recursion_limit → c' ≡ c)
    × (validate_agent c' ≡ some c')

clamped-Valid : (c : AgentConfig) → accepts c ≡ true → Valid c (clamped c)
unfolding Valid validate_agent
clamped-Valid c h = (
  ground arith,
  ground (arith, eq_iff c.model_route ""),
  clamp_Between c.recursion_limit,
  λ b. ap (λ v. record c { recursion_limit = v }) (clamp_within c.recursion_limit b),
  rw (h, clamp_again c.recursion_limit) refl,
)

-- A configuration that passes the validation runs in one of the three environments, has a model
-- and a recursion limit between one and fifty whatever was asked for; it passes again unchanged,
-- and a limit that was in the bounds is kept.
pub validate_agent_valid :
    (c c' : AgentConfig)
    → validate_agent c ≡ some c'
    → (contains environments c'.environment ≡ true)
      × (c'.model_route ≢ "")
      × Between 1 50 c'.recursion_limit
      × (Between 1 50 c.recursion_limit → c' ≡ c)
      × (validate_agent c' ≡ some c')
unfolding validate_agent Valid
validate_agent_valid c c' h =
    let (holds, same) = accepted (accepts c) (clamped c) c' h in
    subst (Valid c) same (clamped-Valid c holds)
