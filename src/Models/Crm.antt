-- ===== src/Models/Crm.antt =====
-- The answers of the Salesforce server in platform_sdk/models.py, as JSON objects that Pydantic writes and
-- reads.
use ai_platform_sdk.Prelude.{String, Option, none, some, List, []}
use ai_platform_sdk.Json
use ai_platform_sdk.Json.{Json, str, obj, Fields, end, field}
use ai_platform_sdk.Config.Models.{ℤ, pos}
use ai_platform_sdk.Models.{
  Lax, ◌>>=◌, of_int, of_option, as_dict, required, defaulted, optional, as_int, as_str,
}
use ai_platform_sdk.Models.Reading.{Floats, write_list, read_list}

-- Contact information.
pub record ContactSummary : Type 0 where
  pub name : String
  pub title : Option String
  pub email : Option String
  pub phone : Option String
  pub role : Option String

-- A sales opportunity.
pub record OpportunitySummary (Float : Type 0) : Type 0 where
  pub name : String
  pub stage : Option String
  pub amount : Option Float
  pub close_date : Option String

-- An interaction.
pub record ActivitySummary : Type 0 where
  pub kind : String
  pub subject : Option String
  pub date : Option String
  pub description : Option String

-- What get_salesforce_summary answers.
pub record SalesforceSummaryData (Float : Type 0) : Type 0 where
  pub schema_version : ℤ
  pub account_id : Option String
  pub account_name : Option String
  pub industry : Option String
  pub annual_revenue : Option Float
  pub contacts : List ContactSummary
  pub opportunities : List (OpportunitySummary Float)
  pub recent_activities : List ActivitySummary
  pub tasks : List Fields
  pub cases : List Fields

module _ (floats : Floats) where
  unfoldable pub contact_summary_fields : ContactSummary → Fields
  contact_summary_fields x = field "name" (str x.name) (
      field "title" (of_option str x.title) (
        field "email" (of_option str x.email)
          (field "phone" (of_option str x.phone) (field "role" (of_option str x.role) end))))

  unfoldable pub opportunity_summary_fields : OpportunitySummary floats.Float → Fields
  opportunity_summary_fields x = field "name" (str x.name) (
      field "stage" (of_option str x.stage) (
        field "amount" (of_option floats.write x.amount)
          (field "close_date" (of_option str x.close_date) end)))

  unfoldable pub activity_summary_fields : ActivitySummary → Fields
  activity_summary_fields x = field "type" (str x.kind) (
      field "subject" (of_option str x.subject) (
        field "date" (of_option str x.date)
          (field "description" (of_option str x.description) end)))

  unfoldable pub salesforce_summary_fields : SalesforceSummaryData floats.Float → Fields
  unfolding contact_summary_fields opportunity_summary_fields activity_summary_fields write_list
  salesforce_summary_fields x = field "schema_version" (of_int x.schema_version) (
      field "account_id" (of_option str x.account_id) (
        field "account_name" (of_option str x.account_name) (
          field "industry" (of_option str x.industry) (
            field "annual_revenue" (of_option floats.write x.annual_revenue) (
              field "contacts" (write_list (λ x. obj (contact_summary_fields x)) x.contacts) (
                field "opportunities"
                  (write_list (λ x. obj (opportunity_summary_fields x)) x.opportunities)
                  (field "recent_activities"
                    (write_list (λ x. obj (activity_summary_fields x)) x.recent_activities)
                    (field "tasks" (write_list obj x.tasks)
                      (field "cases" (write_list obj x.cases) end)))))))))

module _ (lax : Lax) (floats : Floats) where
  unfoldable pub contact_summary_of : Json → Option (ContactSummary)
  unfolding Json.get
  contact_summary_of v = do
    d ← as_dict v
    name ← required (as_str lax) (Json.get "name" d)
    title ← defaulted none (optional (as_str lax)) (Json.get "title" d)
    email ← defaulted none (optional (as_str lax)) (Json.get "email" d)
    phone ← defaulted none (optional (as_str lax)) (Json.get "phone" d)
    role ← defaulted none (optional (as_str lax)) (Json.get "role" d)
    some (record { name = name; title = title; email = email; phone = phone; role = role })

  unfoldable pub opportunity_summary_of : Json → Option (OpportunitySummary floats.Float)
  unfolding Json.get
  opportunity_summary_of v = do
    d ← as_dict v
    name ← required (as_str lax) (Json.get "name" d)
    stage ← defaulted none (optional (as_str lax)) (Json.get "stage" d)
    amount ← defaulted none (optional floats.read) (Json.get "amount" d)
    close_date ← defaulted none (optional (as_str lax)) (Json.get "close_date" d)
    some (record { name = name; stage = stage; amount = amount; close_date = close_date })

  unfoldable pub activity_summary_of : Json → Option (ActivitySummary)
  unfolding Json.get
  activity_summary_of v = do
    d ← as_dict v
    kind ← required (as_str lax) (Json.get "type" d)
    subject ← defaulted none (optional (as_str lax)) (Json.get "subject" d)
    date ← defaulted none (optional (as_str lax)) (Json.get "date" d)
    description ← defaulted none (optional (as_str lax)) (Json.get "description" d)
    some (record { kind = kind; subject = subject; date = date; description = description })

  unfoldable pub salesforce_summary_of : Json → Option (SalesforceSummaryData floats.Float)
  unfolding Json.get contact_summary_of opportunity_summary_of activity_summary_of read_list
  salesforce_summary_of v = do
    d ← as_dict v
    schema_version ← defaulted (pos 1) (as_int lax) (Json.get "schema_version" d)
    account_id ← defaulted none (optional (as_str lax)) (Json.get "account_id" d)
    account_name ← defaulted none (optional (as_str lax)) (Json.get "account_name" d)
    industry ← defaulted none (optional (as_str lax)) (Json.get "industry" d)
    annual_revenue ← defaulted none (optional floats.read) (Json.get "annual_revenue" d)
    contacts ← defaulted [] (read_list contact_summary_of) (Json.get "contacts" d)
    opportunities ← defaulted [] (read_list opportunity_summary_of) (Json.get "opportunities" d)
    recent_activities ←
        defaulted [] (read_list activity_summary_of) (Json.get "recent_activities" d)
    tasks ← defaulted [] (read_list as_dict) (Json.get "tasks" d)
    cases ← defaulted [] (read_list as_dict) (Json.get "cases" d)
    some (record {
      schema_version = schema_version;
      account_id = account_id;
      account_name = account_name;
      industry = industry;
      annual_revenue = annual_revenue;
      contacts = contacts;
      opportunities = opportunities;
      recent_activities = recent_activities;
      tasks = tasks;
      cases = cases;
    })
