-- ===== src/Auth.antt =====
-- platform_sdk/auth.py: the identity and authorization claims of one session.
pub mod Access
pub mod Secrets
pub mod Token
pub mod Rotation
use ai_platform_sdk.Prelude.{
  ℕ, String, ◌≡◌, ◌≢◌, Bool, true, false, not, ◌||◌, Option, none, some, List, [], ◌∷◌, ◌++◌, ◌==◌,
  if◌then◌else◌, contains, is_empty,
}
use ai_platform_sdk.Prelude.Dict.{Dict, lookup}

pub record AgentContext : Type 0 where
  pub rm_id : String
  pub rm_name : String
  pub role : String
  pub team_id : String
  pub assigned_account_ids : List String
  pub compliance_clearance : List String
  pub user_email : String
  pub user_role : String

abbrev pub valid_user_roles : List String
valid_user_roles = "admin" ∷ "analyst" ∷ "viewer" ∷ "" ∷ []

-- `__post_init__`: no clearance becomes the standard one, an unknown user role becomes empty.
unfoldable pub post_init : AgentContext → AgentContext
unfolding contains
post_init ctx = record ctx {
  compliance_clearance =
      if is_empty ctx.compliance_clearance then "standard" ∷ [] else ctx.compliance_clearance;
  user_role = if contains valid_user_roles ctx.user_role then ctx.user_role else "";
}

-- `AgentContext.anonymous()`
unfoldable pub anonymous : AgentContext
unfolding post_init
anonymous = post_init (record {
  rm_id = "anonymous";
  rm_name = "Unauthenticated";
  role = "readonly";
  team_id = "";
  assigned_account_ids = [];
  compliance_clearance = "standard" ∷ [];
  user_email = "";
  user_role = "";
})

unfoldable pub is_anonymous : AgentContext → Bool
is_anonymous ctx = ctx.rm_id == "anonymous"

abbrev role_ranks : Dict ℕ
role_ranks =
    ("readonly", 0) ∷ ("rm", 1) ∷ ("senior_rm", 2) ∷ ("manager", 3) ∷ ("compliance_officer", 3) ∷ []

abbrev or_zero : Option ℕ → ℕ
or_zero none = 0
or_zero (some n) = n

-- `ROLE_RANK.get(self.role, 0)`
unfoldable pub role_rank : AgentContext → ℕ
unfolding lookup
role_rank ctx = or_zero (lookup ctx.role role_ranks)

abbrev pub unrestricted_roles : List String
unrestricted_roles = "manager" ∷ "compliance_officer" ∷ "senior_rm" ∷ []

unfoldable pub is_unrestricted : AgentContext → Bool
is_unrestricted ctx = contains unrestricted_roles ctx.role

unfoldable pub can_access_account : AgentContext → String → Bool
unfolding is_unrestricted
can_access_account ctx account_id =
    if is_unrestricted ctx then true else contains ctx.assigned_account_ids account_id

abbrev pub deny_all : List String
deny_all = "__DENY_ALL__" ∷ []

-- A row filter names, for each table that it restricts, the values that are let through.
unfoldable pub build_row_filters_crm : AgentContext → Dict (List String)
unfolding is_unrestricted
build_row_filters_crm ctx =
    if is_unrestricted ctx
    then []
    else if is_empty ctx.assigned_account_ids
    then ("Account", deny_all) ∷ []
    else ("Account", ctx.assigned_account_ids) ∷ []

unfoldable pub build_row_filters_payments : AgentContext → Option (List String) → Dict (List String)
unfolding is_unrestricted
build_row_filters_payments ctx party_names =
    if is_unrestricted ctx then [] else by_party party_names
  where
    by_party : Option (List String) → Dict (List String)
    by_party none = ("fact_payments", deny_all) ∷ []
    by_party (some []) = ("fact_payments", deny_all) ∷ []
    by_party (some (p ∷ ps)) = ("fact_payments", p ∷ ps) ∷ ("dim_party", p ∷ ps) ∷ []

abbrev pub aml_columns : List String
aml_columns = "AMLRiskCategory" ∷ "RiskRating" ∷ "KYCStatus" ∷ "FraudMonitoringSegment" ∷ []

abbrev pub compliance_columns : List String
compliance_columns =
    "SanctionsScreeningStatus" ∷ "PEPFlag" ∷ "BSAAMLProgramRating" ∷ "SanctionsComplianceStatus"
    ∷ []

unfoldable pub has_clearance : AgentContext → String → Bool
has_clearance ctx level = contains ctx.compliance_clearance level

-- The set of columns to blank out. Python lists the set in no particular order.
unfoldable pub build_col_mask : AgentContext → List String
build_col_mask ctx =
    (if contains ctx.compliance_clearance "compliance_full" then [] else compliance_columns)
    ++ (if contains ctx.compliance_clearance "aml_view" then [] else aml_columns)
