-- ===== src/Auth/Access.antt =====
-- What the row filters, the column mask and the point checks of `AgentContext` let through.
use ai_platform_sdk.Prelude.{
  ◌≤◌, String, ◌≡◌, refl, ◌≢◌, Bool, true, false, ◌||◌, not, Option, none, some, List, [], ◌∷◌,
  arith, eq_iff, contains, is_empty,
}
use ai_platform_sdk.Prelude.Dict.{Dict, lookup}
use ai_platform_sdk.Auth.{
  AgentContext, anonymous, role_rank, is_unrestricted, can_access_account, build_row_filters_crm,
  build_row_filters_payments, has_clearance, build_col_mask,
}

-- A row with this value in this table passes the filter: a table that is not named is unrestricted.
abbrev value_in : Option (List String) → String → Bool
value_in none value = true
value_in (some values) value = contains values value

unfoldable pub admits : Dict (List String) → String → String → Bool
unfolding lookup
admits filters table value = value_in (lookup table filters) value

-- The account filter of the CRM lets through the rows of exactly the accounts that
-- `can_access_account` allows, for every account that is not called `__DENY_ALL__`.
pub build_row_filters_crm-can_access_account :
    (ctx : AgentContext) (account : String)
    → account ≢ "__DENY_ALL__"
    → admits (build_row_filters_crm ctx) "Account" account ≡ can_access_account ctx account
unfolding admits build_row_filters_crm can_access_account contains
build_row_filters_crm-can_access_account ctx account real =
    ground (arith, eq_iff account "__DENY_ALL__", no_accounts ctx.assigned_account_ids)
  where
    no_accounts : (l : List String) → is_empty l ≡ true → contains l account ≡ false
    no_accounts [] h = refl
    no_accounts (x ∷ l) h = cc

-- Without party names, a restricted context has its payments denied, and no row of the parties.
pub build_row_filters_payments-dim_party :
    (ctx : AgentContext) (value : String)
    → is_unrestricted ctx ≡ false
    → value ≢ "__DENY_ALL__"
    → (admits (build_row_filters_payments ctx (some [])) "fact_payments" value ≡ false)
      × (admits (build_row_filters_payments ctx (some [])) "dim_party" value ≡ true)
unfolding admits build_row_filters_payments contains
build_row_filters_payments-dim_party ctx value h real = ground (arith, eq_iff value "__DENY_ALL__")

-- More clearance never masks more: a column that is masked for a context is masked for every
-- context whose clearances are among those of the first.
pub build_col_mask_antitone :
    (low high : AgentContext) (column : String)
    → ((level : String) → has_clearance low level ≡ true → has_clearance high level ≡ true)
    → contains (build_col_mask high) column ≡ true
    → contains (build_col_mask low) column ≡ true
unfolding build_col_mask has_clearance contains
build_col_mask_antitone low high column more masked =
    ground (arith, more "compliance_full", more "aml_view")

-- The anti-money-laundering columns are masked exactly for the contexts without the clearance
-- `aml_view`, so also for one whose only clearance is `compliance_full`.
pub build_col_mask-aml :
    (ctx : AgentContext)
    → (contains (build_col_mask ctx) "RiskRating" ≡ not (has_clearance ctx "aml_view"))
      × (contains (build_col_mask ctx) "PEPFlag" ≡ not (has_clearance ctx "compliance_full"))
unfolding build_col_mask has_clearance contains
build_col_mask-aml ctx = ground arith

-- The anonymous context has the lowest rank, sees no account, and has every column masked that
-- some context has masked.
pub anonymous_least :
    (ctx : AgentContext) (account column : String)
    → (role_rank anonymous ≤ role_rank ctx)
      × (can_access_account anonymous account ≡ false)
      × ((contains (build_col_mask anonymous) column || contains (build_col_mask ctx) column)
          ≡ contains (build_col_mask anonymous) column)
unfolding anonymous role_rank can_access_account build_col_mask contains
anonymous_least ctx account column = ground arith
