-- ===== src/Models/Payments.antt =====
-- The answers of the payments server in platform_sdk/models.py, as JSON objects that Pydantic writes and
-- reads.
use ai_platform_sdk.Prelude.{String, Option, none, some, List, []}
use ai_platform_sdk.Prelude.Dict.{Dict}
use ai_platform_sdk.Json
use ai_platform_sdk.Json.{Json, str, obj, Fields, end, field}
use ai_platform_sdk.Config.Models.{ℤ, pos}
use ai_platform_sdk.Models.{
  Lax, ◌>>=◌, of_int, of_option, as_dict, required, defaulted, optional, as_int, as_str,
}
use ai_platform_sdk.Models.Reading.{Floats, write_list, read_list, write_dict, read_dict}

-- The payments in one direction.
pub record PaymentVolume (Float : Type 0) : Type 0 where
  pub direction : String
  pub transaction_count : ℤ
  pub total_amount : Float
  pub currency : String

-- A counterparty.
pub record CounterpartySummary (Float : Type 0) : Type 0 where
  pub name : String
  pub transaction_count : ℤ
  pub total_amount : Float

-- What get_payment_summary answers.
pub record PaymentSummaryData (Float : Type 0) : Type 0 where
  pub schema_version : ℤ
  pub client_name : Option String
  pub period_days : ℤ
  pub volumes : List (PaymentVolume Float)
  pub status_breakdown : Dict ℤ
  pub top_counterparties : List (CounterpartySummary Float)
  pub bank_diversity : List Fields
  pub trend : Option Fields
  pub compliance_profile : Option Fields

module _ (floats : Floats) where
  unfoldable pub payment_volume_fields : PaymentVolume floats.Float → Fields
  payment_volume_fields x = field "direction" (str x.direction) (
      field "transaction_count" (of_int x.transaction_count) (
        field "total_amount" (floats.write x.total_amount) (field "currency" (str x.currency) end)))

  unfoldable pub counterparty_summary_fields : CounterpartySummary floats.Float → Fields
  counterparty_summary_fields x = field "name" (str x.name) (
      field "transaction_count" (of_int x.transaction_count)
        (field "total_amount" (floats.write x.total_amount) end))

  unfoldable pub payment_summary_fields : PaymentSummaryData floats.Float → Fields
  unfolding payment_volume_fields counterparty_summary_fields write_list write_dict
  payment_summary_fields x = field "schema_version" (of_int x.schema_version) (
      field "client_name" (of_option str x.client_name) (
        field "period_days" (of_int x.period_days) (
          field "volumes" (write_list (λ x. obj (payment_volume_fields x)) x.volumes) (
            field "status_breakdown" (obj (write_dict of_int x.status_breakdown)) (
              field "top_counterparties"
                (write_list (λ x. obj (counterparty_summary_fields x)) x.top_counterparties)
                (field "bank_diversity" (write_list obj x.bank_diversity) (
                  field "trend" (of_option obj x.trend)
                    (field "compliance_profile" (of_option obj x.compliance_profile) end))))))))

module _ (lax : Lax) (floats : Floats) where
  unfoldable pub payment_volume_of : Json → Option (PaymentVolume floats.Float)
  unfolding Json.get
  payment_volume_of v = do
    d ← as_dict v
    direction ← required (as_str lax) (Json.get "direction" d)
    transaction_count ← defaulted (pos 0) (as_int lax) (Json.get "transaction_count" d)
    total_amount ← defaulted floats.naught floats.read (Json.get "total_amount" d)
    currency ← defaulted "USD" (as_str lax) (Json.get "currency" d)
    some (record {
      direction = direction;
      transaction_count = transaction_count;
      total_amount = total_amount;
      currency = currency;
    })

  unfoldable pub counterparty_summary_of : Json → Option (CounterpartySummary floats.Float)
  unfolding Json.get
  counterparty_summary_of v = do
    d ← as_dict v
    name ← required (as_str lax) (Json.get "name" d)
    transaction_count ← defaulted (pos 0) (as_int lax) (Json.get "transaction_count" d)
    total_amount ← defaulted floats.naught floats.read (Json.get "total_amount" d)
    some
        (record { name = name; transaction_count = transaction_count; total_amount = total_amount })

  unfoldable pub payment_summary_of : Json → Option (PaymentSummaryData floats.Float)
  unfolding Json.get payment_volume_of counterparty_summary_of read_list read_dict
  payment_summary_of v = do
    d ← as_dict v
    schema_version ← defaulted (pos 1) (as_int lax) (Json.get "schema_version" d)
    client_name ← defaulted none (optional (as_str lax)) (Json.get "client_name" d)
    period_days ← defaulted (pos 360) (as_int lax) (Json.get "period_days" d)
    volumes ← defaulted [] (read_list payment_volume_of) (Json.get "volumes" d)
    status_breakdown ← defaulted [] (read_dict (as_int lax)) (Json.get "status_breakdown" d)
    top_counterparties ←
        defaulted [] (read_list counterparty_summary_of) (Json.get "top_counterparties" d)
    bank_diversity ← defaulted [] (read_list as_dict) (Json.get "bank_diversity" d)
    trend ← defaulted none (optional as_dict) (Json.get "trend" d)
    compliance_profile ← defaulted none (optional as_dict) (Json.get "compliance_profile" d)
    some (record {
      schema_version = schema_version;
      client_name = client_name;
      period_days = period_days;
      volumes = volumes;
      status_breakdown = status_breakdown;
      top_counterparties = top_counterparties;
      bank_diversity = bank_diversity;
      trend = trend;
      compliance_profile = compliance_profile;
    })
